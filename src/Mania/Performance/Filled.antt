-- ===== src/Mania/Performance/Filled.antt =====
-- The hit results that `generate_state` of osu!mania chooses fill what the misses leave.
use mamestagram_pp_rs.Prelude.{ℕ, ◌+◌, ◌^◌, ◌≤◌, ◌<◌, ◌≡◌, Option, none, some, arith, ◌+u◌, ◌-u◌}
use mamestagram_pp_rs.F64.{F64, IsIeee, InUnit, AccOk}
use mamestagram_pp_rs.Any.Settings.{HitResultPriority, best_case, worst_case}
use mamestagram_pp_rs.Mania.Performance.Search.{Hits}
use mamestagram_pp_rs.Mania.Performance.Complete.{fill, fill_acc, choose}
use mamestagram_pp_rs.Mania.Performance.Range.{Given, AllLe, Given-AllLe, sum_of, IsFilled}
use mamestagram_pp_rs.Mania.Performance.Finite.{
  given_n100_n50-IsFinite, given_n200_n50-IsFinite, given_n200_n100-IsFinite,
}
use mamestagram_pp_rs.Mania.Performance.Found.{
  given_n100_n50-Reached, given_n200_n50-Reached, given_n200_n100-Reached, given_n200-Reached,
  given_n100-Reached, given_n50-Reached, given_none-Reached,
}
use mamestagram_pp_rs.Mania.Performance.Totals.{
  SearchFinds, fill-IsFilled, left-exact, one_loop, distributed, two_counts,
}

-- Where an accuracy is given, the search for it finds something.
abbrev pub ChooseFinds :
    {A : Type 0} ⦃f : F64 A⦄
    → ℕ
    → ℕ
    → Option A
    → Option ℕ
    → Option ℕ
    → Option ℕ
    → Option ℕ
    → Option ℕ
    → Hits
    → Type 0
ChooseFinds total misses none a b c d e h = Unit
ChooseFinds total misses (some acc) a b c d e h = SearchFinds acc total misses a b c d e h

module _ (total misses : ℕ) (bound : total < 2 ^ 26) (m : misses ≤ total) where
  module _ {A : Type 0} ⦃f : F64 A⦄ (ieee : IsIeee A) (acc : A) (u : InUnit acc) where
    fill_acc-IsFilled :
        (p : HitResultPriority) (a b c d e : Option ℕ) (h : Hits)
        → Given (total -u misses) a b c d e h
        → SearchFinds acc total misses a b c d e h
        → IsFilled (total -u misses) h (fill_acc total misses acc p a b c d e h)
    unfolding fill_acc ◌+u◌ ◌-u◌
    fill_acc-IsFilled best_case (some _) (some _) (some _) (some _) (some _) h g k = ground arith
    fill_acc-IsFilled worst_case (some _) (some _) (some _) (some _) (some _) h g k = ground arith
    fill_acc-IsFilled p none (some _) (some _) (some _) (some _) h g k = ground arith
    fill_acc-IsFilled p (some _) none (some _) (some _) (some _) h g k = ground arith
    fill_acc-IsFilled p (some _) (some _) none (some _) (some _) h g k = ground arith
    fill_acc-IsFilled p (some _) (some _) (some _) none (some _) h g k = ground arith
    fill_acc-IsFilled p (some _) (some _) (some _) (some _) none h g k = ground arith
    fill_acc-IsFilled best_case none none (some _) (some _) (some _) h g k = ground arith
    fill_acc-IsFilled worst_case none none (some _) (some _) (some _) h g k = ground arith
    fill_acc-IsFilled p none none none (some y) (some z) h g k =
        let le = Given-AllLe (total -u misses) none none none (some y) (some z) h g in
        two_counts total misses bound m ieee acc u p none none none (some y) (some z) h
          (h.n100 +u h.n50 +u misses) _ g (omega arith)
          (λ n.
            given_n100_n50-IsFinite ieee acc total misses (total -u misses) none none h u
              (omega (arith, left-exact total misses bound m)) le (omega arith) n (omega arith) tt)
          (given_n100_n50-Reached acc total misses (total -u misses) none none h
            (omega (arith, left-exact total misses bound m)) le (omega arith) tt)
    fill_acc-IsFilled p (some x) none none (some y) (some z) h g k =
        let le = Given-AllLe (total -u misses) (some x) none none (some y) (some z) h g in
        two_counts total misses bound m ieee acc u p (some x) none none (some y) (some z) h
          (h.n100 +u h.n50 +u misses) _ g (omega arith)
          (λ n.
            given_n100_n50-IsFinite ieee acc total misses (total -u misses) (some x) none h u
              (omega (arith, left-exact total misses bound m)) le (omega arith) n (omega arith) tt)
          (given_n100_n50-Reached acc total misses (total -u misses) (some x) none h
            (omega (arith, left-exact total misses bound m)) le (omega arith) tt)
    fill_acc-IsFilled p none (some x) none (some y) (some z) h g k =
        let le = Given-AllLe (total -u misses) none (some x) none (some y) (some z) h g in
        two_counts total misses bound m ieee acc u p none (some x) none (some y) (some z) h
          (h.n100 +u h.n50 +u misses) _ g (omega arith)
          (λ n.
            given_n100_n50-IsFinite ieee acc total misses (total -u misses) none (some x) h u
              (omega (arith, left-exact total misses bound m)) le (omega arith) n (omega arith) tt)
          (given_n100_n50-Reached acc total misses (total -u misses) none (some x) h
            (omega (arith, left-exact total misses bound m)) le (omega arith) tt)
    fill_acc-IsFilled p none none (some y) none (some z) h g k =
        let le = Given-AllLe (total -u misses) none none (some y) none (some z) h g in
        two_counts total misses bound m ieee acc u p none none (some y) none (some z) h
          (h.n200 +u h.n50 +u misses) _ g (omega arith)
          (λ n.
            given_n200_n50-IsFinite ieee acc total misses (total -u misses) none none h u
              (omega (arith, left-exact total misses bound m)) le (omega arith) n (omega arith) tt)
          (given_n200_n50-Reached acc total misses (total -u misses) none none h
            (omega (arith, left-exact total misses bound m)) le (omega arith) tt)
    fill_acc-IsFilled p (some x) none (some y) none (some z) h g k =
        let le = Given-AllLe (total -u misses) (some x) none (some y) none (some z) h g in
        two_counts total misses bound m ieee acc u p (some x) none (some y) none (some z) h
          (h.n200 +u h.n50 +u misses) _ g (omega arith)
          (λ n.
            given_n200_n50-IsFinite ieee acc total misses (total -u misses) (some x) none h u
              (omega (arith, left-exact total misses bound m)) le (omega arith) n (omega arith) tt)
          (given_n200_n50-Reached acc total misses (total -u misses) (some x) none h
            (omega (arith, left-exact total misses bound m)) le (omega arith) tt)
    fill_acc-IsFilled p none (some x) (some y) none (some z) h g k =
        let le = Given-AllLe (total -u misses) none (some x) (some y) none (some z) h g in
        two_counts total misses bound m ieee acc u p none (some x) (some y) none (some z) h
          (h.n200 +u h.n50 +u misses) _ g (omega arith)
          (λ n.
            given_n200_n50-IsFinite ieee acc total misses (total -u misses) none (some x) h u
              (omega (arith, left-exact total misses bound m)) le (omega arith) n (omega arith) tt)
          (given_n200_n50-Reached acc total misses (total -u misses) none (some x) h
            (omega (arith, left-exact total misses bound m)) le (omega arith) tt)
    fill_acc-IsFilled p none none (some y) (some z) none h g k =
        let le = Given-AllLe (total -u misses) none none (some y) (some z) none h g in
        two_counts total misses bound m ieee acc u p none none (some y) (some z) none h
          (h.n200 +u h.n100 +u misses) _ g (omega arith)
          (λ n.
            given_n200_n100-IsFinite ieee acc total misses (total -u misses) none none h u
              (omega (arith, left-exact total misses bound m)) le (omega arith) n (omega arith) tt)
          (given_n200_n100-Reached acc total misses (total -u misses) none none h
            (omega (arith, left-exact total misses bound m)) le (omega arith) tt)
    fill_acc-IsFilled p (some x) none (some y) (some z) none h g k =
        let le = Given-AllLe (total -u misses) (some x) none (some y) (some z) none h g in
        two_counts total misses bound m ieee acc u p (some x) none (some y) (some z) none h
          (h.n200 +u h.n100 +u misses) _ g (omega arith)
          (λ n.
            given_n200_n100-IsFinite ieee acc total misses (total -u misses) (some x) none h u
              (omega (arith, left-exact total misses bound m)) le (omega arith) n (omega arith) tt)
          (given_n200_n100-Reached acc total misses (total -u misses) (some x) none h
            (omega (arith, left-exact total misses bound m)) le (omega arith) tt)
    fill_acc-IsFilled p none (some x) (some y) (some z) none h g k =
        let le = Given-AllLe (total -u misses) none (some x) (some y) (some z) none h g in
        two_counts total misses bound m ieee acc u p none (some x) (some y) (some z) none h
          (h.n200 +u h.n100 +u misses) _ g (omega arith)
          (λ n.
            given_n200_n100-IsFinite ieee acc total misses (total -u misses) none (some x) h u
              (omega (arith, left-exact total misses bound m)) le (omega arith) n (omega arith) tt)
          (given_n200_n100-Reached acc total misses (total -u misses) none (some x) h
            (omega (arith, left-exact total misses bound m)) le (omega arith) tt)
    fill_acc-IsFilled p a b (some y) none none h g k =
        let le = Given-AllLe (total -u misses) a b (some y) none none h g in
        one_loop total misses bound m ieee acc u p a b (some y) none none h (h.n200 +u misses) _ g
          (omega arith) k
          (given_n200-Reached acc total misses (total -u misses) a b h
            (omega (arith, left-exact total misses bound m)) le (omega arith) (omega arith))
    fill_acc-IsFilled p a b none (some y) none h g k =
        let le = Given-AllLe (total -u misses) a b none (some y) none h g in
        one_loop total misses bound m ieee acc u p a b none (some y) none h (h.n100 +u misses) _ g
          (omega arith) k
          (given_n100-Reached acc total misses (total -u misses) a b h
            (omega (arith, left-exact total misses bound m)) le (omega arith) (omega arith))
    fill_acc-IsFilled p a b none none (some y) h g k =
        let le = Given-AllLe (total -u misses) a b none none (some y) h g in
        distributed total misses bound m ieee acc u p a b none (some y) h (h.n50 +u misses) _ g
          (omega arith) k
          (given_n50-Reached acc total misses (total -u misses) a b h
            (omega (arith, left-exact total misses bound m)) le (omega arith) (omega arith))
    fill_acc-IsFilled p a b none none none h g k =
        let le = Given-AllLe (total -u misses) a b none none none h g in
        distributed total misses bound m ieee acc u p a b none none h (h.n200 +u h.n100 +u misses) _
          g (omega arith) k
          (given_none-Reached acc total misses (total -u misses) a b h
            (omega (arith, left-exact total misses bound m)) le (omega arith) (omega arith)
            (omega arith))

  pub choose-IsFilled :
      {A : Type 0} ⦃f : F64 A⦄
      → IsIeee A
      → (acc : Option A) (p : HitResultPriority) (a b c d e : Option ℕ) (h : Hits) → AccOk acc
      → Given (total -u misses) a b c d e h
      → ChooseFinds total misses acc a b c d e h
      → IsFilled (total -u misses) h (choose total misses acc p a b c d e h)
  unfolding choose
  choose-IsFilled ieee none p a b c d e h u g k = fill-IsFilled total misses bound m p a b c d e h g
  choose-IsFilled ieee (some acc) p a b c d e h u g k =
      fill_acc-IsFilled ieee acc u p a b c d e h g k

  -- Counts that are all given and leave nothing over are taken as they are.
  pub choose_given :
      {A : Type 0} ⦃f : F64 A⦄
      → (acc : Option A) (p : HitResultPriority) (a b c d e : ℕ) (h : Hits)
      → AllLe (total -u misses) h
      → total ≤ sum_of h + misses
      → choose total misses acc p (some a) (some b) (some c) (some d) (some e) h ≡ h
  unfolding choose fill fill_acc ◌+u◌ ◌-u◌
  choose_given none best_case a b c d e h g s = ground arith
  choose_given none worst_case a b c d e h g s = ground arith
  choose_given (some acc) best_case a b c d e h g s = ground arith
  choose_given (some acc) worst_case a b c d e h g s = ground arith
