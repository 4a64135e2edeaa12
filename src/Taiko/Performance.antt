-- ===== src/Taiko/Performance.antt =====
-- src/taiko/performance/mod.rs: `TaikoPerformance` and how it completes a score
-- (`generate_state`), with `TaikoScoreState` of src/taiko/score_state.rs and the attributes of
-- src/taiko/attributes.rs. `calculate_for_mode` is an argument.
pub mod Repeat
pub mod Setters
pub mod Search
pub mod Totals
use mamestagram_pp_rs.Prelude.{
  ℕ, ◌%◌, ◌-◌, Bool, Option, none, some, map_or, Result, ok, err, u32_mod, min, ◌+u◌, ◌-u◌, ◌*u◌,
  if◌then◌else◌, for_incl, ◌==◌,
}
use mamestagram_pp_rs.F64.{F64}
use mamestagram_pp_rs.F64.Nearest.{consider}
use mamestagram_pp_rs.Any.Settings.{
  Difficulty, HitResultPriority, best_case, worst_case, MapOrAttrs, of_attrs, ConvertError,
  load_attrs, get_passed_objects,
}

pub record TaikoScoreState : Type 0 where
  pub max_combo : ℕ
  pub n300 : ℕ
  pub n100 : ℕ
  pub misses : ℕ

pub record TaikoDifficultyAttributes (A : Type 0) : Type 0 where
  pub stamina : A
  pub rhythm : A
  pub color : A
  pub reading : A
  pub great_hit_window : A
  pub ok_hit_window : A
  pub mono_stamina_factor : A
  pub mechanical_difficulty : A
  pub stamina_top_strains : A
  pub consistency_factor : A
  pub stars : A
  pub max_combo : ℕ
  pub is_convert : Bool

pub record TaikoPerformance (Map Mods A R : Type 0) : Type 0 where
  pub map_or_attrs : MapOrAttrs Map (TaikoDifficultyAttributes A)
  pub difficulty : Difficulty Mods A R
  pub combo : Option ℕ
  pub acc : Option A
  pub hitresult_priority : HitResultPriority
  pub n300 : Option ℕ
  pub n100 : Option ℕ
  pub misses : Option ℕ

-- The two counts that `generate_state` chooses.
pub record Hits : Type 0 where
  pub n300 : ℕ
  pub n100 : ℕ

module _ {A : Type 0} ⦃f : F64 A⦄ where
  unfoldable pub accuracy : ℕ → ℕ → ℕ → A
  accuracy n300 n100 misses =
      if (n300 +u n100 +u misses) == 0
      then f.from_u32 0
      else f.div (f.from_u32 (2 *u n300 +u n100)) (f.from_u32 (2 *u (n300 +u n100 +u misses)))

  -- One round of `for new300 in min_n300..=max_n300`, over `best_dist` and the counts.
  unfoldable pub try_n300 : A → ℕ → ℕ → ℕ → A × Hits → A × Hits
  try_n300 acc n_remaining misses new300 (best_dist, hits) =
      let new100 = n_remaining -u new300 in
      let dist = f.abs (f.sub acc (accuracy new300 new100 misses)) in
      consider dist (record { n300 = new300; n100 = new100 }) (best_dist, hits)

  -- `raw_n300`, and the range of the loop around it
  abbrev pub raw_n300 : A → ℕ → ℕ → A
  raw_n300 acc total n_remaining =
      f.sub (f.mul acc (f.from_u32 (2 *u total))) (f.from_u32 n_remaining)

  abbrev pub min_n300 : A → ℕ → ℕ → ℕ
  min_n300 acc total n_remaining =
      min n_remaining (f.as_u32 (f.floor (raw_n300 acc total n_remaining)))

  abbrev pub max_n300 : A → ℕ → ℕ → ℕ
  max_n300 acc total n_remaining =
      min n_remaining (f.as_u32 (f.ceil (raw_n300 acc total n_remaining)))

  -- The arm for which neither count is given.
  unfoldable pub closest : A → ℕ → ℕ → ℕ → Hits → Hits
  unfolding try_n300
  closest acc total n_remaining misses hits =
      (for_incl (min_n300 acc total n_remaining) (max_n300 acc total n_remaining)
        (try_n300 acc n_remaining misses) (f.f64_max, hits)).1

  -- `match (self.n300, self.n100)` where an accuracy is given
  unfoldable pub fill_acc : A → HitResultPriority → ℕ → ℕ → ℕ → Option ℕ → Option ℕ → Hits → Hits
  fill_acc acc best_case total n_remaining misses (some _) (some _) h = record h {
    n300 = h.n300 +u (total - (h.n300 +u h.n100 +u misses));
  }
  fill_acc acc worst_case total n_remaining misses (some _) (some _) h = record h {
    n100 = h.n100 +u (total - (h.n300 +u h.n100 +u misses));
  }
  fill_acc acc priority total n_remaining misses (some _) none h = record h {
    n100 = h.n100 +u (total - (h.n300 +u misses));
  }
  fill_acc acc priority total n_remaining misses none (some _) h = record h {
    n300 = h.n300 +u (total - (h.n100 +u misses));
  }
  fill_acc acc priority total n_remaining misses none none h =
      closest acc total n_remaining misses h

-- `match priority` where no accuracy is given
unfoldable pub fill : HitResultPriority → ℕ → ℕ → Option ℕ → Option ℕ → Hits → Hits
fill best_case total misses none _ h = record h { n300 = total - (h.n300 +u h.n100 +u misses) }
fill best_case total misses (some _) none h = record h {
  n100 = total - (h.n300 +u h.n100 +u misses);
}
fill best_case total misses (some _) (some _) h = record h {
  n300 = h.n300 +u (total - (h.n300 +u h.n100 +u misses));
}
fill worst_case total misses _ none h = record h { n100 = total - (h.n300 +u h.n100 +u misses) }
fill worst_case total misses none (some _) h = record h {
  n300 = total - (h.n300 +u h.n100 +u misses);
}
fill worst_case total misses (some _) (some _) h = record h {
  n100 = h.n100 +u (total - (h.n300 +u h.n100 +u misses));
}

module _ {A : Type 0} ⦃f : F64 A⦄ where
  -- `if let Some(acc) = self.acc`
  unfoldable pub choose : Option A → HitResultPriority → ℕ → ℕ → Option ℕ → Option ℕ → Hits → Hits
  unfolding fill_acc fill closest
  choose none priority total misses n300 n100 h = fill priority total misses n300 n100 h
  choose (some acc) priority total misses n300 n100 h =
      fill_acc acc priority total (total -u misses) misses n300 n100 h

module _ {Map Mods A R : Type 0} where
  -- `cmp::min(self.difficulty.get_passed_objects() as u32, max_combo)`
  unfoldable pub total_result_count : TaikoPerformance Map Mods A R → ℕ → ℕ
  unfolding get_passed_objects
  total_result_count p max_combo = min (get_passed_objects p.difficulty % u32_mod) max_combo

  -- `state`, and what `generate_state` writes back
  unfoldable pub state :
      TaikoPerformance Map Mods A R → TaikoScoreState → TaikoPerformance Map Mods A R
  state p s = record p {
    combo = some s.max_combo;
    n300 = some s.n300;
    n100 = some s.n100;
    misses = some s.misses;
  }

module _ {Map Mods A R : Type 0} ⦃f : F64 A⦄ where
  -- `generate_state` from the line that has the attributes.
  unfoldable pub complete : TaikoPerformance Map Mods A R → ℕ → TaikoScoreState
  unfolding total_result_count choose
  complete p max_combo =
      let total = total_result_count p max_combo in
      let misses = map_or p.misses 0 (λ n. min n total) in
      let n_remaining = total -u misses in
      let given : Hits = record {
        n300 = map_or p.n300 0 (λ n. min n n_remaining);
        n100 = map_or p.n100 0 (λ n. min n n_remaining);
      } in
      let hits = choose p.acc p.hitresult_priority total misses p.n300 p.n100 given in
      let max_possible_combo = max_combo - misses in
      record {
        max_combo = map_or p.combo max_possible_combo (λ combo. min combo max_possible_combo);
        n300 = hits.n300;
        n100 = hits.n100;
        misses = misses;
      }

  unfoldable pub generate_state :
      (Map → Result (TaikoDifficultyAttributes A) ConvertError)
      → TaikoPerformance Map Mods A R
      → TaikoPerformance Map Mods A R × Result TaikoScoreState ConvertError
  unfolding load_attrs complete state
  generate_state calculate p = elim (load_attrs calculate p.map_or_attrs) [
    | err e ↦ (p, err e)
    | ok attrs ↦
        let s = complete p attrs.max_combo in
        (state (record p { map_or_attrs = of_attrs attrs }) s, ok s)
  ]
