-- ===== src/Mania/Performance/Finite.antt =====
-- The osu!mania searches that have two of n200, n100 and n50 given find something: their first
-- candidate is nearer than infinity.
use mamestagram_pp_rs.Prelude.{
  ℕ, ◌+◌, ◌-◌, ◌^◌, ◌≤◌, ◌<◌, ◌≡◌, true, Option, none, some, min, arith, ◌+u◌, ◌*u◌, inl, inr,
  for_incl, for_incl_first, Bool-cases,
}
use mamestagram_pp_rs.F64.{F64, IsIeee, InUnit}
use mamestagram_pp_rs.Mania.Performance.Search.{
  Hits, Best, bound_3x0, accuracy, try_best, distance, given_n100_n50, given_n200_n50,
  given_n200_n100,
}
use mamestagram_pp_rs.Mania.Performance.Range.{AllLe, lower, InRange, IsCandidate, InRange-le}
use mamestagram_pp_rs.Mania.Performance.Found.{NotBoth, candidate, one-InRange}

module _ {A : Type 0} ⦃f : F64 A⦄ (ieee : IsIeee A) where
  open ieee use {ratio_unit, dist_finite, lt_trans, max-lt-infinity, floor-le-ceil}

  -- The accuracy of at least one result lies between 0 and 1.
  pub accuracy-unit_mania :
      (n320 n300 n200 n100 n50 misses : ℕ)
      → 0 < n320 + n300 + n200 + n100 + n50 + misses
      → n320 + n300 + n200 + n100 + n50 + misses < 2 ^ 29
      → InUnit (accuracy {A = A} n320 n300 n200 n100 n50 misses)
  unfolding accuracy ◌+u◌ ◌*u◌
  accuracy-unit_mania n320 n300 n200 n100 n50 misses p b =
      ratio_unit _ _ (omega arith) (omega arith) (omega arith)

  module _ (acc : A) (n_objects misses left : ℕ) (a b : Option ℕ) (h : Hits) (u : InUnit acc)
      (small : left < 2 ^ 26) (g : AllLe left h) (m : misses < 2 ^ 26)
      (some_result : 0 < left + misses) where
    -- The distance that a search has reached is finite.
    abbrev pub IsFinite : A × Best → Type 0
    IsFinite t = f.lt t.0 f.infinity ≡ true

    distance-finite :
        (c : Best)
        → IsCandidate left a b h c
        → f.lt (distance acc n_objects misses left a b h c) f.infinity ≡ true
    unfolding distance
    distance-finite c k =
        let le = InRange-le left (omega arith) a b h c.n3x0 g k.in_range in
        lt_trans _ _ _
          (dist_finite acc _ u (
            accuracy-unit_mania c.n3x0 0 c.n200 c.n100 c.n50 misses (omega (arith, k.fills))
              (omega (arith, k.fills))))
          max-lt-infinity

    try_best-IsFinite :
        (c : Best) (t : A × Best)
        → IsFinite t
        → IsFinite (try_best acc n_objects misses left a b h c t)
    try_best-IsFinite c t k =
        elim (Bool-cases (f.lt (distance acc n_objects misses left a b h c) t.0)) [
          | inl e ↦ rw e (lt_trans _ _ _ e k)
          | inr e ↦ rw e k
        ]

    try_best-first :
        (c : Best) (s : Best)
        → IsCandidate left a b h c
        → IsFinite (try_best acc n_objects misses left a b h c (f.infinity, s))
    try_best-first c s k = rw (distance-finite c k) (distance-finite c k)

    bound_3x0_mono :
        (a b : Option ℕ) (both lo hi : ℕ)
        → lo ≤ hi
        → bound_3x0 a b h both lo ≤ bound_3x0 a b h both hi
    unfolding bound_3x0
    bound_3x0_mono none none both lo hi l = l
    bound_3x0_mono none (some _) both lo hi l = omega arith
    bound_3x0_mono (some _) none both lo hi l = omega arith
    bound_3x0_mono (some _) (some _) both lo hi l = omega arith

    -- A search with one loop, whose candidates are `pick`.
    one_loop-IsFinite :
        (both : ℕ) (raw : A) (bound : ℕ) (pick : ℕ → Best) (s : Best)
        → NotBoth a b
        → bound ≤ left - lower h
        → ((x : ℕ) → InRange left a b h x → IsCandidate left a b h (pick x))
        → IsFinite (
            for_incl
              (bound_3x0 a b h both (min (f.as_u32 (f.floor raw)) bound))
              (bound_3x0 a b h both (min (f.as_u32 (f.ceil raw)) bound))
              (λ x. try_best acc n_objects misses left a b h (pick x))
              (f.infinity, s))
    one_loop-IsFinite both raw bound pick s nb l all =
        let lo : ℕ = bound_3x0 a b h both (min (f.as_u32 (f.floor raw)) bound) in
        let first : InRange left a b h lo =
          one-InRange acc n_objects misses left a b h (omega arith) g both
            (min (f.as_u32 (f.floor raw)) bound) (min (f.as_u32 (f.floor raw)) bound) lo nb
            (omega arith) (omega arith) (omega arith) in
        for_incl_first IsFinite _ _ _ _
          (bound_3x0_mono a b both _ _ (omega (arith, floor-le-ceil raw)))
          (try_best-first (pick lo) s (all lo first)) (λ x t p q k. try_best-IsFinite (pick x) t k)

    pub given_n100_n50-IsFinite :
        h.n200 ≡ 0 → NotBoth a b → IsFinite (given_n100_n50 acc n_objects misses left a b h)
    unfolding given_n100_n50 ◌+u◌
    given_n100_n50-IsFinite z nb = one_loop-IsFinite _ _ _ _ _ nb (omega arith) (λ x r.
        let le = InRange-le left (omega arith) a b h x g r in
        candidate acc n_objects misses left a b h x _ _ _ r (omega arith))

    pub given_n200_n50-IsFinite :
        h.n100 ≡ 0 → NotBoth a b → IsFinite (given_n200_n50 acc n_objects misses left a b h)
    unfolding given_n200_n50 ◌+u◌
    given_n200_n50-IsFinite z nb = one_loop-IsFinite _ _ _ _ _ nb (omega arith) (λ x r.
        let le = InRange-le left (omega arith) a b h x g r in
        candidate acc n_objects misses left a b h x _ _ _ r (omega arith))

    pub given_n200_n100-IsFinite :
        h.n50 ≡ 0 → NotBoth a b → IsFinite (given_n200_n100 acc n_objects misses left a b h)
    unfolding given_n200_n100 ◌+u◌
    given_n200_n100-IsFinite z nb = one_loop-IsFinite _ _ _ _ _ nb (omega arith) (λ x r.
        let le = InRange-le left (omega arith) a b h x g r in
        candidate acc n_objects misses left a b h x _ _ _ r (omega arith))
