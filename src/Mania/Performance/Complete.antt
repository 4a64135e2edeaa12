-- ===== src/Mania/Performance/Complete.antt =====
-- `generate_state` of src/mania/performance/mod.rs: the choice of the hit results, and the whole call.
use mamestagram_pp_rs.Prelude.{
  ℕ, ◌-◌, ◌/◌, ◌%◌, Option, none, some, map_or, Result, ok, err, u32_mod, min, ◌+u◌, ◌-u◌, ◌*u◌,
  if◌then◌else◌,
}
use mamestagram_pp_rs.F64.{F64}
use mamestagram_pp_rs.Any.Settings.{
  HitResultPriority, best_case, worst_case, of_attrs, ConvertError, load_attrs, get_passed_objects,
  get_lazer,
}
use mamestagram_pp_rs.Mania.ScoreState.{ManiaScoreState}
use mamestagram_pp_rs.Mania.Performance.{ManiaDifficultyAttributes, ManiaPerformance, state}
use mamestagram_pp_rs.Mania.Performance.Search.{
  Hits, Best, given_n100_n50, given_n200_n50, given_n200_n100, given_n200, given_n100, given_n50,
  given_none,
}

-- `match (self.n320, self.n300)` after a search, with what it found.
unfoldable pub split_3x0 : HitResultPriority → Option ℕ → Option ℕ → Hits → Best → Hits
split_3x0 best_case none none h b = record {
  n320 = b.n3x0;
  n300 = h.n300;
  n200 = b.n200;
  n100 = b.n100;
  n50 = b.n50;
}
split_3x0 worst_case none none h b = record {
  n320 = h.n320;
  n300 = b.n3x0;
  n200 = b.n200;
  n100 = b.n100;
  n50 = b.n50;
}
split_3x0 priority (some _) none h b = record {
  n320 = h.n320;
  n300 = b.n3x0 -u h.n320;
  n200 = b.n200;
  n100 = b.n100;
  n50 = b.n50;
}
split_3x0 priority none (some _) h b = record {
  n320 = b.n3x0 -u h.n300;
  n300 = h.n300;
  n200 = b.n200;
  n100 = b.n100;
  n50 = b.n50;
}
split_3x0 priority (some _) (some _) h b = record {
  n320 = h.n320;
  n300 = h.n300;
  n200 = b.n200;
  n100 = b.n100;
  n50 = b.n50;
}

-- Distribute n200 onto n320 and n100.
unfoldable pub distribute : HitResultPriority → Option ℕ → Hits → Hits
distribute best_case none h =
    let n = h.n200 / 2 in
    record h { n320 = h.n320 +u n; n200 = h.n200 -u 2 *u n; n100 = h.n100 +u n }
distribute best_case (some _) h = h
distribute worst_case _ h = h

module _ (n_objects misses : ℕ) where
  -- `n_objects.saturating_sub(n320 + n300 + n200 + n100 + n50 + misses)`
  abbrev pub remaining : Hits → ℕ
  remaining h = n_objects - (h.n320 +u h.n300 +u h.n200 +u h.n100 +u h.n50 +u misses)

  -- `match priority` where no accuracy is given
  unfoldable pub fill :
      HitResultPriority → Option ℕ → Option ℕ → Option ℕ → Option ℕ → Option ℕ → Hits → Hits
  fill best_case none _ _ _ _ h = record h { n320 = remaining h }
  fill best_case (some _) none _ _ _ h = record h { n300 = remaining h }
  fill best_case (some _) (some _) none _ _ h = record h { n200 = remaining h }
  fill best_case (some _) (some _) (some _) none _ h = record h { n100 = remaining h }
  fill best_case (some _) (some _) (some _) (some _) none h = record h { n50 = remaining h }
  fill best_case (some _) (some _) (some _) (some _) (some _) h = record h {
    n320 = h.n320 +u remaining h;
  }
  fill worst_case _ _ _ _ none h = record h { n50 = remaining h }
  fill worst_case _ _ _ none (some _) h = record h { n100 = remaining h }
  fill worst_case _ _ none (some _) (some _) h = record h { n200 = remaining h }
  fill worst_case _ none (some _) (some _) (some _) h = record h { n300 = remaining h }
  fill worst_case none (some _) (some _) (some _) (some _) h = record h { n320 = remaining h }
  fill worst_case (some _) (some _) (some _) (some _) (some _) h = record h {
    n50 = h.n50 +u remaining h;
  }

  module _ {A : Type 0} ⦃f : F64 A⦄ (acc : A) where
    -- `match (self.n320, self.n300, self.n200, self.n100, self.n50)` where an accuracy is given
    unfoldable pub fill_acc :
        HitResultPriority → Option ℕ → Option ℕ → Option ℕ → Option ℕ → Option ℕ → Hits → Hits
    unfolding split_3x0 distribute given_n100_n50 given_n200_n50 given_n200_n100 given_n200
        given_n100 given_n50 given_none
    fill_acc best_case (some _) (some _) (some _) (some _) (some _) h = record h {
      n320 = h.n320 +u remaining h;
    }
    fill_acc worst_case (some _) (some _) (some _) (some _) (some _) h = record h {
      n50 = h.n50 +u remaining h;
    }
    fill_acc priority none (some _) (some _) (some _) (some _) h = record h {
      n320 = n_objects - (h.n300 +u h.n200 +u h.n100 +u h.n50 +u misses);
    }
    fill_acc priority (some _) none (some _) (some _) (some _) h = record h {
      n300 = n_objects - (h.n320 +u h.n200 +u h.n100 +u h.n50 +u misses);
    }
    fill_acc priority (some _) (some _) none (some _) (some _) h = record h {
      n200 = n_objects - (h.n320 +u h.n300 +u h.n100 +u h.n50 +u misses);
    }
    fill_acc priority (some _) (some _) (some _) none (some _) h = record h {
      n100 = n_objects - (h.n320 +u h.n300 +u h.n200 +u h.n50 +u misses);
    }
    fill_acc priority (some _) (some _) (some _) (some _) none h = record h {
      n50 = n_objects - (h.n320 +u h.n300 +u h.n200 +u h.n100 +u misses);
    }
    fill_acc best_case none none (some _) (some _) (some _) h = record h { n320 = remaining h }
    fill_acc worst_case none none (some _) (some _) (some _) h = record h { n300 = remaining h }
    fill_acc priority a b none (some _) (some _) h =
        split_3x0 priority a b h (given_n100_n50 acc n_objects misses (n_objects -u misses) a b h).1
    fill_acc priority a b (some _) none (some _) h =
        split_3x0 priority a b h (given_n200_n50 acc n_objects misses (n_objects -u misses) a b h).1
    fill_acc priority a b (some _) (some _) none h =
        split_3x0 priority a b h
          (given_n200_n100 acc n_objects misses (n_objects -u misses) a b h).1
    fill_acc priority a b (some _) none none h =
        split_3x0 priority a b h (given_n200 acc n_objects misses (n_objects -u misses) a b h).1
    fill_acc priority a b none (some _) none h =
        split_3x0 priority a b h (given_n100 acc n_objects misses (n_objects -u misses) a b h).1
    fill_acc priority a b none none (some _) h =
        distribute priority a
          (split_3x0 priority a b h (given_n50 acc n_objects misses (n_objects -u misses) a b h).1)
    fill_acc priority a b none none none h =
        distribute priority a
          (split_3x0 priority a b h (given_none acc n_objects misses (n_objects -u misses) a b h).1)

  -- `if let Some(acc) = self.acc`
  unfoldable pub choose :
      {A : Type 0} ⦃f : F64 A⦄
      → Option A
      → HitResultPriority
      → Option ℕ
      → Option ℕ
      → Option ℕ
      → Option ℕ
      → Option ℕ
      → Hits
      → Hits
  unfolding fill_acc fill
  choose none priority a b c d e h = fill priority a b c d e h
  choose (some acc) priority a b c d e h = fill_acc acc priority a b c d e h

module _ {Map Mods A R : Type 0} (p : ManiaPerformance Map Mods A R)
    (attrs : ManiaDifficultyAttributes A) where
  -- `n_objects` as the misses are cut to it, and with the tails of hold notes that lazer counts.
  unfoldable pub n_notes : ℕ
  unfolding get_passed_objects
  n_notes = min (get_passed_objects p.difficulty % u32_mod) attrs.n_objects

  unfoldable pub n_objects : ℕ
  unfolding n_notes get_lazer
  n_objects = if get_lazer p.difficulty then n_notes +u attrs.n_hold_notes else n_notes

module _ {Map Mods A R : Type 0} ⦃f : F64 A⦄ where
  -- `generate_state` from the line that has the attributes.
  unfoldable pub complete :
      ManiaPerformance Map Mods A R → ManiaDifficultyAttributes A → ManiaScoreState
  unfolding n_notes n_objects
  complete p attrs =
      let misses = map_or p.misses 0 (λ n. min n (n_notes p attrs)) in
      let total = n_objects p attrs in
      let n_remaining = total -u misses in
      let given : Hits = record {
        n320 = map_or p.n320 0 (λ n. min n n_remaining);
        n300 = map_or p.n300 0 (λ n. min n n_remaining);
        n200 = map_or p.n200 0 (λ n. min n n_remaining);
        n100 = map_or p.n100 0 (λ n. min n n_remaining);
        n50 = map_or p.n50 0 (λ n. min n n_remaining);
      } in
      let hits =
        choose total misses p.acc p.hitresult_priority p.n320 p.n300 p.n200 p.n100 p.n50 given in
      record {
        n320 = hits.n320;
        n300 = hits.n300;
        n200 = hits.n200;
        n100 = hits.n100;
        n50 = hits.n50;
        misses = misses;
      }

  unfoldable pub generate_state :
      (Map → Result (ManiaDifficultyAttributes A) ConvertError)
      → ManiaPerformance Map Mods A R
      → ManiaPerformance Map Mods A R × Result ManiaScoreState ConvertError
  unfolding load_attrs complete state
  generate_state calculate p = elim (load_attrs calculate p.map_or_attrs) [
    | err e ↦ (p, err e)
    | ok attrs ↦
        let s = complete p attrs in (state (record p { map_or_attrs = of_attrs attrs }) s, ok s)
  ]
