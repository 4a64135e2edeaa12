-- ===== src/Taiko/Performance/Search.antt =====
-- The search of `TaikoPerformance::generate_state` for the counts nearest to an accuracy.
use mamestagram_pp_rs.Prelude.{
  ℕ, ◌+◌, ◌^◌, ◌≤◌, ◌<◌, ◌≡◌, true, false, arith, ◌+u◌, ◌-u◌, ◌*u◌, for_incl,
}
use mamestagram_pp_rs.F64.{F64, InUnit, IsIeee}
use mamestagram_pp_rs.F64.Nearest.{IsNearest, for_incl-IsNearest}
use mamestagram_pp_rs.Taiko.Performance.{Hits, accuracy, try_n300, closest, min_n300, max_n300}

abbrev pub candidate : ℕ → ℕ → Hits
candidate n_remaining i = record { n300 = i; n100 = n_remaining -u i }

module _ {A : Type 0} ⦃f : F64 A⦄ where
  -- How far the accuracy of some counts is from the one asked for.
  abbrev pub distance : A → ℕ → Hits → A
  distance acc misses h = f.abs (f.sub acc (accuracy h.n300 h.n100 misses))

module _ {A : Type 0} ⦃f : F64 A⦄ (ieee : IsIeee A) where
  open ieee use {ratio_unit, zero_unit, dist_finite, floor-le-ceil}

  -- An accuracy lies between 0 and 1.
  pub accuracy-unit :
      (n300 n100 misses : ℕ)
      → n300 + n100 + misses < 2 ^ 31
      → InUnit (accuracy {A = A} n300 n100 misses)
  unfolding accuracy ◌+u◌ ◌*u◌
  accuracy-unit n300 n100 misses h =
      ground (arith, zero_unit, ratio_unit ((2 *u n300) +u n100) (2 *u (n300 +u n100 +u misses)))

  module _ (acc : A) (total n_remaining misses : ℕ) (s : Hits)
      (bound : n_remaining + misses < 2 ^ 31) (u : InUnit acc) where
    distance-finite :
        (i : ℕ)
        → i ≤ n_remaining
        → f.lt (distance acc misses (candidate n_remaining i)) f.f64_max ≡ true
    unfolding ◌-u◌
    distance-finite i h =
        dist_finite acc _ u (accuracy-unit i (n_remaining -u i) misses (omega arith))

    loop-IsNearest :
        IsNearest ieee
          (λ i. distance acc misses (candidate n_remaining i))
          (candidate n_remaining)
          (min_n300 acc total n_remaining)
          (max_n300 acc total n_remaining + 1)
          (for_incl
            (min_n300 acc total n_remaining)
            (max_n300 acc total n_remaining)
            (try_n300 acc n_remaining misses)
            (f.f64_max, s))
    unfolding try_n300
    loop-IsNearest =
        for_incl-IsNearest ieee _ _ _ _ f.f64_max s (omega (arith, floor-le-ceil _))
          (distance-finite (min_n300 acc total n_remaining) (omega arith))

    -- The counts found fill what the misses leave.
    pub closest-full :
        (closest acc total n_remaining misses s).n300
          + (closest acc total n_remaining misses s).n100
        ≡ n_remaining
    unfolding closest ◌-u◌
    closest-full = ground (arith, loop-IsNearest.is_pick, loop-IsNearest.below)

    -- No pair of counts of the searched range has an accuracy nearer to the one asked for, which lies
    -- between 0 and 1, where there are fewer than 2 ^ 31 results.
    pub closest-nearest :
        (j : ℕ)
        → min_n300 acc total n_remaining ≤ j
        → j ≤ max_n300 acc total n_remaining
        → f.lt
            (distance acc misses (candidate n_remaining j))
            (distance acc misses (closest acc total n_remaining misses s))
          ≡ false
    unfolding closest
    closest-nearest j p q =
        let n = loop-IsNearest in rw (n.is_pick, ← n.is_dist) (n.nearest j p (omega arith))
