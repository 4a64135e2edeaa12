-- ===== src/Mania/Performance/Found.antt =====
-- What the osu!mania searches end with: a candidate, or what they started from if they found none.
use mamestagram_pp_rs.Prelude.{
  ℕ, ◌+◌, ◌-◌, ◌^◌, ◌≤◌, ◌<◌, ◌≡◌, refl, Option, none, some, min, max, arith, ◌+u◌, ◌-u◌, ◌⊎◌, inl,
  inr, for_incl_inv, Bool-cases,
}
use mamestagram_pp_rs.F64.{F64}
use mamestagram_pp_rs.Mania.Performance.Search.{
  Hits, Best, bound_3x0, try_best, for_second, start, distance, given_n100_n50, given_n200_n50,
  given_n200_n100, given_n200, given_n100, given_n50, given_none, try_3x0,
}
use mamestagram_pp_rs.Mania.Performance.Range.{
  AllLe, lower, InRange, IsCandidate, bound_3x0-InRange, InRange-le,
}

-- n320 and n300 are not both given.
abbrev pub NotBoth : Option ℕ → Option ℕ → Type 0
NotBoth (some _) (some _) = ⊥
NotBoth none _ = Unit
NotBoth (some _) none = Unit

pub bound_3x0-both :
    (a b : Option ℕ) (h : Hits) (x y raw : ℕ)
    → NotBoth a b
    → bound_3x0 a b h x raw ≡ bound_3x0 a b h y raw
unfolding bound_3x0
bound_3x0-both none none h x y raw n = refl
bound_3x0-both none (some _) h x y raw n = refl
bound_3x0-both (some _) none h x y raw n = refl
bound_3x0-both (some _) (some _) h x y raw n = absurd n

module _ {A : Type 0} ⦃f : F64 A⦄ (acc : A) (n_objects misses left : ℕ) (a b : Option ℕ)
    (h : Hits) where
  -- A candidate, or still what the search started from.
  abbrev pub Reached : A × Best → A × Best → Type 0
  Reached s t = (t ≡ s) ⊎ IsCandidate left a b h t.1

  try_best-Reached :
      (s : A × Best) (c : Best) (t : A × Best)
      → IsCandidate left a b h c
      → Reached s t
      → Reached s (try_best acc n_objects misses left a b h c t)
  try_best-Reached s c t k r =
      elim (Bool-cases (f.lt (distance acc n_objects misses left a b h c) t.0)) [
        | inl e ↦ rw e (inr k)
        | inr e ↦ rw e r
      ]

  for_second-Reached :
      (s : A × Best) (raw : A) (bound : ℕ) (pick : ℕ → Best) (t : A × Best)
      → ((i : ℕ) → i ≤ bound → IsCandidate left a b h (pick i))
      → Reached s t
      → Reached s (for_second acc n_objects misses left a b h raw bound pick t)
  for_second-Reached s raw bound pick t all r =
      for_incl_inv (Reached s) (λ i. try_best acc n_objects misses left a b h (pick i)) _ _ t
        (λ i u p q. try_best-Reached s (pick i) u (all i (omega arith))) r

  -- The counts of a candidate, with `n3x0`.
  abbrev pub Counts : ℕ → ℕ → ℕ → ℕ → Type 0
  Counts x n200 n100 n50 =
      (x + n200 + n100 + n50 ≡ max left (x + lower h))
      × (n200 ≤ left)
      × (n100 ≤ left)
      × (n50 ≤ left)
      × (h.n200 ≤ n200)
      × (h.n100 ≤ n100)
      × (h.n50 ≤ n50)

  pub candidate :
      (x n200 n100 n50 : ℕ)
      → InRange left a b h x
      → Counts x n200 n100 n50
      → IsCandidate left a b h (record { n3x0 = x; n200 = n200; n100 = n100; n50 = n50 })
  candidate x n200 n100 n50 r (s, p, q, u, v, w, z) = record {
    in_range = r;
    fills = s;
    n200_le = p;
    n100_le = q;
    n50_le = u;
    n200_ge = v;
    n100_ge = w;
    n50_ge = z;
  }

  module _ (small : left < 2 ^ 28) (g : AllLe left h) where
    pub one-InRange :
        (both lo hi x : ℕ)
        → NotBoth a b
        → hi ≤ left - lower h
        → bound_3x0 a b h both lo ≤ x
        → x ≤ bound_3x0 a b h both hi
        → InRange left a b h x
    one-InRange both lo hi x nb k p q =
        bound_3x0-InRange left small a b h lo hi x g k
          (omega (arith, p, bound_3x0-both a b h both (min left (h.n320 +u h.n300)) lo nb))
          (omega (arith, q, bound_3x0-both a b h both (min left (h.n320 +u h.n300)) hi nb))

    pub given_n100_n50-Reached :
        h.n200 ≡ 0
        → NotBoth a b
        → Reached
            (start acc n_objects misses left a b h (h.n100 +u h.n50 +u misses))
            (given_n100_n50 acc n_objects misses left a b h)
    unfolding given_n100_n50 ◌+u◌ ◌-u◌
    given_n100_n50-Reached z nb =
        for_incl_inv (Reached (start acc n_objects misses left a b h (h.n100 +u h.n50 +u misses))) _
          _ _ _
          (λ x t p q.
            let r = one-InRange _ _ _ x nb (omega arith) p q in
            let le = InRange-le left small a b h x g r in
            try_best-Reached _ _ t
              (candidate x (left - (x +u h.n100 +u h.n50)) h.n100 h.n50 r (omega arith)))
          (inl refl)

    pub given_n200_n50-Reached :
        h.n100 ≡ 0
        → NotBoth a b
        → Reached
            (start acc n_objects misses left a b h (h.n200 +u h.n50 +u misses))
            (given_n200_n50 acc n_objects misses left a b h)
    unfolding given_n200_n50 ◌+u◌ ◌-u◌
    given_n200_n50-Reached z nb =
        for_incl_inv (Reached (start acc n_objects misses left a b h (h.n200 +u h.n50 +u misses))) _
          _ _ _
          (λ x t p q.
            let r = one-InRange _ _ _ x nb (omega arith) p q in
            let le = InRange-le left small a b h x g r in
            try_best-Reached _ _ t
              (candidate x h.n200 (left - (x +u h.n200 +u h.n50)) h.n50 r (omega arith)))
          (inl refl)

    pub given_n200_n100-Reached :
        h.n50 ≡ 0
        → NotBoth a b
        → Reached
            (start acc n_objects misses left a b h (h.n200 +u h.n100 +u misses))
            (given_n200_n100 acc n_objects misses left a b h)
    unfolding given_n200_n100 ◌+u◌ ◌-u◌
    given_n200_n100-Reached z nb =
        for_incl_inv (Reached (start acc n_objects misses left a b h (h.n200 +u h.n100 +u misses)))
          _ _ _ _
          (λ x t p q.
            let r = one-InRange _ _ _ x nb (omega arith) p q in
            let le = InRange-le left small a b h x g r in
            try_best-Reached _ _ t
              (candidate x h.n200 h.n100 (left - (x +u h.n200 +u h.n100)) r (omega arith)))
          (inl refl)

    pub given_n200-Reached :
        h.n100 ≡ 0
        → h.n50 ≡ 0
        → Reached
            (start acc n_objects misses left a b h (h.n200 +u misses))
            (given_n200 acc n_objects misses left a b h)
    unfolding given_n200 ◌+u◌ ◌-u◌
    given_n200-Reached z w =
        for_incl_inv (Reached (start acc n_objects misses left a b h (h.n200 +u misses))) _ _ _ _
          (λ x t p q. for_second-Reached _ _ _ _ t (λ i l.
            let r = bound_3x0-InRange left small a b h _ _ x g (omega arith) p q in
            let le = InRange-le left small a b h x g r in
            candidate x h.n200 i (left - (x +u h.n200 +u i)) r (omega arith)))
          (inl refl)

    pub given_n100-Reached :
        h.n200 ≡ 0
        → h.n50 ≡ 0
        → Reached
            (start acc n_objects misses left a b h (h.n100 +u misses))
            (given_n100 acc n_objects misses left a b h)
    unfolding given_n100 ◌+u◌ ◌-u◌
    given_n100-Reached z w =
        for_incl_inv (Reached (start acc n_objects misses left a b h (h.n100 +u misses))) _ _ _ _
          (λ x t p q. for_second-Reached _ _ _ _ t (λ i l.
            let r = bound_3x0-InRange left small a b h _ _ x g (omega arith) p q in
            let le = InRange-le left small a b h x g r in
            candidate x i h.n100 (left - (x +u i +u h.n100)) r (omega arith)))
          (inl refl)

    pub given_n50-Reached :
        h.n200 ≡ 0
        → h.n100 ≡ 0
        → Reached
            (start acc n_objects misses left a b h (h.n50 +u misses))
            (given_n50 acc n_objects misses left a b h)
    unfolding given_n50 ◌+u◌ ◌-u◌
    given_n50-Reached z w =
        for_incl_inv (Reached (start acc n_objects misses left a b h (h.n50 +u misses))) _ _ _ _
          (λ x t p q. for_second-Reached _ _ _ _ t (λ i l.
            let r = bound_3x0-InRange left small a b h _ _ x g (omega arith) p q in
            let le = InRange-le left small a b h x g r in
            candidate x i (left - (x +u i +u h.n50)) h.n50 r (omega arith)))
          (inl refl)

    pub given_none-Reached :
        h.n200 ≡ 0
        → h.n100 ≡ 0
        → h.n50 ≡ 0
        → Reached
            (start acc n_objects misses left a b h (h.n200 +u h.n100 +u misses))
            (given_none acc n_objects misses left a b h)
    unfolding given_none try_3x0 ◌+u◌ ◌-u◌
    given_none-Reached z w v =
        for_incl_inv (Reached (start acc n_objects misses left a b h (h.n200 +u h.n100 +u misses)))
          _ _ _ _
          (λ x t p q.
            let r = bound_3x0-InRange left small a b h _ _ x g (omega arith) p q in
            let le = InRange-le left small a b h x g r in
            for_incl_inv
              (Reached (start acc n_objects misses left a b h (h.n200 +u h.n100 +u misses))) _ _ _ t
              (λ n200 u m k.
                for_second-Reached _ _ _ _ u
                  (λ i l. candidate x n200 i (left -u x -u n200 -u i) r (omega arith))))
          (inl refl)
