-- ===== src/Mania/Performance/Totals.antt =====
-- What the hit results that osu!mania chooses add up to.
use mamestagram_pp_rs.Prelude.{
  ℕ, zero, suc, ◌+◌, ◌-◌, ◌^◌, ◌≤◌, ◌<◌, ◌≡◌, refl, true, Option, none, some, arith, ◌+u◌, ◌-u◌,
  ◌⊎◌, inl, inr, sym, subst,
}
use mamestagram_pp_rs.F64.{F64, IsIeee, InUnit}
use mamestagram_pp_rs.Any.Settings.{HitResultPriority, best_case, worst_case}
use mamestagram_pp_rs.Mania.Performance.Search.{
  Hits, Best, start, given_n200, given_n100, given_n50, given_none,
}
use mamestagram_pp_rs.Mania.Performance.Complete.{split_3x0, distribute, fill}
use mamestagram_pp_rs.Mania.Performance.Range.{
  Given, AllLe, Given-AllLe, lower, IsCandidate, IsFilled, split_3x0-IsFilled, split_3x0-full,
  distribute-IsFilled,
}
use mamestagram_pp_rs.Mania.Performance.Found.{Reached}

-- A search ended with a distance below infinity, so it found something.
abbrev pub HasFound : {A : Type 0} ⦃f : F64 A⦄ → A × Best → Type 0
HasFound ⦃f⦄ t = f.lt t.0 f.infinity ≡ true

-- The same where it makes a difference: where n320 or n300 is given.
abbrev pub Finds : {A : Type 0} ⦃f : F64 A⦄ → Option ℕ → Option ℕ → A × Best → Type 0
Finds none none t = Unit
Finds (some _) _ t = HasFound t
Finds none (some _) t = HasFound t

-- The search that `generate_state` makes has found something, if it is one that may not: with at most one of
-- n200, n100 and n50 given.
abbrev pub SearchFinds :
    {A : Type 0} ⦃f : F64 A⦄
    → A
    → ℕ
    → ℕ
    → Option ℕ
    → Option ℕ
    → Option ℕ
    → Option ℕ
    → Option ℕ
    → Hits
    → Type 0
SearchFinds acc total misses a b (some _) none none h =
    Finds a b (given_n200 acc total misses (total -u misses) a b h)
SearchFinds acc total misses a b none (some _) none h =
    Finds a b (given_n100 acc total misses (total -u misses) a b h)
SearchFinds acc total misses a b none none (some _) h =
    Finds a b (given_n50 acc total misses (total -u misses) a b h)
SearchFinds acc total misses a b none none none h =
    Finds a b (given_none acc total misses (total -u misses) a b h)
SearchFinds acc total misses a b (some _) (some _) _ h = Unit
SearchFinds acc total misses a b (some _) none (some _) h = Unit
SearchFinds acc total misses a b none (some _) (some _) h = Unit

zero_or_pos : (n : ℕ) → (n ≡ 0) ⊎ (0 < n)
zero_or_pos zero = inl refl
zero_or_pos (suc n) = inr (omega arith)

module _ (total misses : ℕ) (bound : total < 2 ^ 26) (m : misses ≤ total) where
  abbrev pub left : ℕ
  left = total -u misses

  pub left-exact : left ≡ total - misses
  unfolding ◌-u◌
  left-exact = omega arith

  pub fill-IsFilled :
      (p : HitResultPriority) (a b c d e : Option ℕ) (h : Hits)
      → Given left a b c d e h
      → IsFilled left h (fill total misses p a b c d e h)
  unfolding fill ◌+u◌ ◌-u◌
  fill-IsFilled best_case none b c d e h g = ground arith
  fill-IsFilled best_case (some _) none c d e h g = ground arith
  fill-IsFilled best_case (some _) (some _) none d e h g = ground arith
  fill-IsFilled best_case (some _) (some _) (some _) none e h g = ground arith
  fill-IsFilled best_case (some _) (some _) (some _) (some _) none h g = ground arith
  fill-IsFilled best_case (some _) (some _) (some _) (some _) (some _) h g = ground arith
  fill-IsFilled worst_case a b c d none h g = ground arith
  fill-IsFilled worst_case a b c none (some _) h g = ground arith
  fill-IsFilled worst_case a b none (some _) (some _) h g = ground arith
  fill-IsFilled worst_case a none (some _) (some _) (some _) h g = ground arith
  fill-IsFilled worst_case none (some _) (some _) (some _) (some _) h g = ground arith
  fill-IsFilled worst_case (some _) (some _) (some _) (some _) (some _) h g = ground arith

  module _ {A : Type 0} ⦃f : F64 A⦄ (ieee : IsIeee A) (acc : A) (u : InUnit acc) where
    open ieee use {lt_irrefl}

    -- What a search starts from, where it does not matter whether it finds something.
    start-IsCandidate :
        (h : Hits) (used : ℕ)
        → AllLe left h
        → h.n320 ≡ 0
        → h.n300 ≡ 0
        → used ≡ lower h + misses
        → IsCandidate left none none h (start acc total misses left none none h used).1
    unfolding ◌+u◌ ◌-u◌
    start-IsCandidate h used g z w e = omega arith

    not_start :
        (a b : Option ℕ) (h : Hits) (used : ℕ) (t : A × Best)
        → HasFound t
        → Reached acc total misses left a b h (start acc total misses left a b h used) t
        → IsCandidate left a b h t.1
    not_start a b h used t k (inl e) =
        let still : f.lt f.infinity f.infinity ≡ true =
          subst (λ s. f.lt s.0 f.infinity ≡ true) e k in
        cc (still, lt_irrefl f.infinity)
    not_start a b h used t k (inr c) = c

    -- With what a search ends, whether it started from a candidate or found one.
    found :
        (a b c d e : Option ℕ) (h : Hits) (used : ℕ) (t : A × Best)
        → Given left a b c d e h
        → used ≡ lower h + misses
        → Finds a b t
        → Reached acc total misses left a b h (start acc total misses left a b h used) t
        → IsCandidate left a b h t.1
    found none none c d e h used t g s k (inl r) =
        subst (λ x. IsCandidate left none none h x.1) (sym r)
          (start-IsCandidate h used (Given-AllLe left none none c d e h g) (omega arith)
            (omega arith) s)
    found none none c d e h used t g s k (inr r) = r
    found (some x) b c d e h used t g s k r = not_start (some x) b h used t k r
    found none (some y) c d e h used t g s k r = not_start none (some y) h used t k r

    pub one_loop :
        (p : HitResultPriority) (a b c d e : Option ℕ) (h : Hits) (used : ℕ) (t : A × Best)
        → Given left a b c d e h
        → used ≡ lower h + misses
        → Finds a b t
        → Reached acc total misses left a b h (start acc total misses left a b h used) t
        → IsFilled left h (split_3x0 p a b h t.1)
    one_loop p a b c d e h used t g s k r =
        split_3x0-IsFilled left (omega (arith, left-exact)) p a b c d e h t.1 g
          (found a b c d e h used t g s k r)

    -- The same for a search whose n200 is distributed.
    pub distributed :
        (p : HitResultPriority) (a b d e : Option ℕ) (h : Hits) (used : ℕ) (t : A × Best)
        → Given left a b none d e h
        → used ≡ lower h + misses
        → Finds a b t
        → Reached acc total misses left a b h (start acc total misses left a b h used) t
        → IsFilled left h (distribute p a (split_3x0 p a b h t.1))
    distributed p a b d e h used t g s k r =
        distribute-IsFilled left (omega (arith, left-exact)) p a h (split_3x0 p a b h t.1)
          (one_loop p a b none d e h used t g s k r)
          (split_3x0-full left (omega (arith, left-exact)) p a b d e h t.1 g
            (found a b none d e h used t g s k r))

    -- Without a result, a search starts from a candidate: no count is above 0.
    empty-IsCandidate :
        (a b : Option ℕ) (h : Hits) (used : ℕ)
        → AllLe left h
        → used ≡ lower h + misses
        → left + misses ≡ 0
        → IsCandidate left a b h (start acc total misses left a b h used).1
    unfolding ◌+u◌ ◌-u◌
    empty-IsCandidate none none h used g e z = omega arith
    empty-IsCandidate (some x) none h used g e z = omega arith
    empty-IsCandidate none (some y) h used g e z = omega arith
    empty-IsCandidate (some x) (some y) h used g e z = omega arith

    -- A search that finds something if there is a result at all.
    pub two_counts :
        (p : HitResultPriority) (a b c d e : Option ℕ) (h : Hits) (used : ℕ) (t : A × Best)
        → Given left a b c d e h
        → used ≡ lower h + misses
        → (0 < left + misses → HasFound t)
        → Reached acc total misses left a b h (start acc total misses left a b h used) t
        → IsFilled left h (split_3x0 p a b h t.1)
    two_counts p a b c d e h used t g s k r =
        split_3x0-IsFilled left (omega (arith, left-exact)) p a b c d e h t.1 g (ended r)
      where
        ended :
            Reached acc total misses left a b h (start acc total misses left a b h used) t
            → IsCandidate left a b h t.1
        ended (inr q) = q
        ended (inl q) = elim (zero_or_pos (left + misses)) [
          | inl z ↦
              subst (λ x. IsCandidate left a b h x.1) (sym q)
                (empty-IsCandidate a b h used (Given-AllLe left a b c d e h g) s z)
          | inr n ↦ not_start a b h used t (k n) (inl q)
        ]
