-- ===== src/Osu/Performance/Complete.antt =====
-- `generate_state` of src/osu/performance/mod.rs: the choice of the hit results, and the whole call.
use mamestagram_pp_rs.Prelude.{
  ℕ, ◌-◌, ◌%◌, Bool, true, false, Option, none, some, map_or, Result, ok, err, u32_mod, min, ◌+u◌,
  ◌-u◌,
}
use mamestagram_pp_rs.F64.{F64}
use mamestagram_pp_rs.Any.Settings.{
  HitResultPriority, best_case, worst_case, of_attrs, ConvertError, load_attrs, get_passed_objects,
  get_lazer,
}
use mamestagram_pp_rs.Osu.ScoreState.{
  OsuScoreState, OsuScoreOrigin, stable, with_slider_acc, without_slider_acc,
}
use mamestagram_pp_rs.Osu.Performance.Defs.{
  OsuDifficultyAttributes, OsuPerformance, n_objects_of, Hits, Ticks,
}
use mamestagram_pp_rs.Osu.Performance.Search.{given_n300, given_n100, given_n50, given_none}

module _ (n_objects misses : ℕ) where
  -- `n_objects.saturating_sub(n300 + n100 + n50 + misses)`
  abbrev pub remaining : Hits → ℕ
  remaining h = n_objects - (h.n300 +u h.n100 +u h.n50 +u misses)

  -- `match priority` where no accuracy is given
  unfoldable pub fill : HitResultPriority → Option ℕ → Option ℕ → Option ℕ → Hits → Hits
  fill best_case none _ _ h = record h { n300 = remaining h }
  fill best_case (some _) none _ h = record h { n100 = remaining h }
  fill best_case (some _) (some _) none h = record h { n50 = remaining h }
  fill best_case (some _) (some _) (some _) h = record h { n300 = h.n300 +u remaining h }
  fill worst_case _ _ none h = record h { n50 = remaining h }
  fill worst_case _ none (some _) h = record h { n100 = remaining h }
  fill worst_case none (some _) (some _) h = record h { n300 = remaining h }
  fill worst_case (some _) (some _) (some _) h = record h { n50 = h.n50 +u remaining h }

  module _ {A : Type 0} ⦃f : F64 A⦄ (origin : OsuScoreOrigin) (ticks : Ticks) where
    -- `match (self.n300, self.n100, self.n50)` where an accuracy is given
    unfoldable pub fill_acc : A → HitResultPriority → Option ℕ → Option ℕ → Option ℕ → Hits → Hits
    fill_acc acc best_case (some _) (some _) (some _) h = record h { n300 = h.n300 +u remaining h }
    fill_acc acc worst_case (some _) (some _) (some _) h = record h { n50 = h.n50 +u remaining h }
    fill_acc acc priority (some _) (some _) none h = record h {
      n50 = n_objects - (h.n300 +u h.n100 +u misses);
    }
    fill_acc acc priority (some _) none (some _) h = record h {
      n100 = n_objects - (h.n300 +u h.n50 +u misses);
    }
    fill_acc acc priority none (some _) (some _) h = record h {
      n300 = n_objects - (h.n100 +u h.n50 +u misses);
    }
    fill_acc acc priority (some _) none none h =
        given_n300 acc origin ticks n_objects misses (n_objects -u misses) h
    fill_acc acc priority none (some _) none h =
        given_n100 acc origin ticks n_objects misses (n_objects -u misses) h
    fill_acc acc priority none none (some _) h =
        given_n50 acc origin ticks n_objects misses (n_objects -u misses) h
    fill_acc acc priority none none none h =
        given_none acc origin ticks n_objects misses (n_objects -u misses) priority h

    -- `if let Some(acc) = self.acc`
    unfoldable pub choose :
        Option A → HitResultPriority → Option ℕ → Option ℕ → Option ℕ → Hits → Hits
    unfolding fill_acc fill
    choose none priority a b c h = fill priority a b c h
    choose (some acc) priority a b c h = fill_acc acc priority a b c h

-- `match (lazer, using_classic_slider_acc)`
unfoldable pub origin_of : {A : Type 0} → OsuDifficultyAttributes A → Bool → Bool → OsuScoreOrigin
origin_of attrs false _ = stable
origin_of attrs true false = with_slider_acc attrs.n_large_ticks attrs.n_sliders
origin_of attrs true true =
    without_slider_acc (attrs.n_sliders +u attrs.n_large_ticks) attrs.n_sliders

abbrev pub at_most : Option ℕ → ℕ → ℕ
at_most o bound = map_or o bound (λ n. min n bound)

module _ {Map Mods A R : Type 0} (p : OsuPerformance Map Mods A R) where
  unfoldable pub ticks_of : OsuDifficultyAttributes A → Bool → Bool → Ticks
  ticks_of attrs false _ = record { slider_end_hits = 0; large_tick_hits = 0; small_tick_hits = 0 }
  ticks_of attrs true false = record {
    slider_end_hits = at_most p.slider_end_hits attrs.n_sliders;
    large_tick_hits = at_most p.large_tick_hits attrs.n_large_ticks;
    small_tick_hits = 0;
  }
  ticks_of attrs true true = record {
    slider_end_hits = 0;
    large_tick_hits = at_most p.large_tick_hits (attrs.n_sliders +u attrs.n_large_ticks);
    small_tick_hits = at_most p.small_tick_hits attrs.n_sliders;
  }

  -- `cmp::min(self.difficulty.get_passed_objects() as u32, attrs.n_objects())`
  unfoldable pub n_objects : OsuDifficultyAttributes A → ℕ
  unfolding get_passed_objects n_objects_of
  n_objects attrs = min (get_passed_objects p.difficulty % u32_mod) (n_objects_of attrs)

  -- `state`, and what `generate_state` writes back
  unfoldable pub state : OsuScoreState → OsuPerformance Map Mods A R
  state s = record p {
    combo = some s.max_combo;
    slider_end_hits = some s.slider_end_hits;
    large_tick_hits = some s.large_tick_hits;
    small_tick_hits = some s.small_tick_hits;
    n300 = some s.n300;
    n100 = some s.n100;
    n50 = some s.n50;
    misses = some s.misses;
  }

module _ {Map Mods A R : Type 0} ⦃f : F64 A⦄ (no_slider_head_acc : Mods → Bool → Bool) where
  -- `generate_state` from the line that has the attributes.
  unfoldable pub complete : OsuPerformance Map Mods A R → OsuDifficultyAttributes A → OsuScoreState
  unfolding n_objects get_lazer
  complete p attrs =
      let total = n_objects p attrs in
      let misses = map_or p.misses 0 (λ n. min n total) in
      let n_remaining = total -u misses in
      let given : Hits = record {
        n300 = map_or p.n300 0 (λ n. min n n_remaining);
        n100 = map_or p.n100 0 (λ n. min n n_remaining);
        n50 = map_or p.n50 0 (λ n. min n n_remaining);
      } in
      let lazer = get_lazer p.difficulty in
      let classic = no_slider_head_acc p.difficulty.mods lazer in
      let ticks = ticks_of p attrs lazer classic in
      let hits =
        choose total misses (origin_of attrs lazer classic) ticks p.acc p.hitresult_priority p.n300
          p.n100 p.n50 given in
      let max_possible_combo = attrs.max_combo - misses in
      record {
        max_combo = map_or p.combo max_possible_combo (λ combo. min combo max_possible_combo);
        large_tick_hits = ticks.large_tick_hits;
        small_tick_hits = ticks.small_tick_hits;
        slider_end_hits = ticks.slider_end_hits;
        n300 = hits.n300;
        n100 = hits.n100;
        n50 = hits.n50;
        misses = misses;
      }

  unfoldable pub generate_state :
      (Map → Result (OsuDifficultyAttributes A) ConvertError)
      → OsuPerformance Map Mods A R
      → OsuPerformance Map Mods A R × Result OsuScoreState ConvertError
  unfolding load_attrs complete state
  generate_state calculate p = elim (load_attrs calculate p.map_or_attrs) [
    | err e ↦ (p, err e)
    | ok attrs ↦
        let s = complete p attrs in (state (record p { map_or_attrs = of_attrs attrs }) s, ok s)
  ]
