-- ===== src/Osu/Performance/Nearest.antt =====
-- `OsuPerformance::generate_state` where one count and an accuracy are given: the search ends with hit
-- results whose accuracy is nearest to the one asked for.
use mamestagram_pp_rs.Prelude.{ℕ, ◌+◌, ◌^◌, ◌≤◌, ◌<◌, ◌≡◌, false, min, arith, ◌+u◌, ◌-u◌, ◌*u◌}
use mamestagram_pp_rs.F64.{F64, InUnit, IsIeee}
use mamestagram_pp_rs.F64.Nearest.{nearest_in, nearest_in-nearest}
use mamestagram_pp_rs.Osu.ScoreState.{OsuScoreOrigin}
use mamestagram_pp_rs.Osu.Performance.Defs.{Hits, Ticks}
use mamestagram_pp_rs.Osu.Performance.Search.{
  distance, target_total, slider_acc_value, low, high, given_n300, given_n100, given_n50,
}
use mamestagram_pp_rs.Osu.Performance.Bounds.{sum_of, IsSmall, distance-finite}

module _ {A : Type 0} ⦃f : F64 A⦄ (acc : A) (origin : OsuScoreOrigin) (ticks : Ticks)
    (n_objects misses n_remaining : ℕ) where
  -- How far the accuracy of some hit results is from the one asked for.
  abbrev pub far : Hits → A
  far h = distance acc origin ticks n_objects misses n_remaining h

  abbrev target : A
  target = target_total acc origin ticks n_objects misses n_remaining

  abbrev ticks_value : ℕ
  ticks_value = slider_acc_value acc origin ticks n_objects misses n_remaining

  -- The range of a search around `raw`.
  abbrev pub from : A → ℕ → ℕ
  from raw bound = low acc origin ticks n_objects misses n_remaining raw bound

  abbrev pub upto : A → ℕ → ℕ
  upto raw bound = high acc origin ticks n_objects misses n_remaining raw bound

  -- `raw_n100` where n300 is given, and the hit results with so many n100.
  abbrev pub raw_of_n300 : ℕ → A
  raw_of_n300 n300 =
      f.div (f.sub target (f.from_u32 (50 *u (n_remaining -u n300) +u 300 *u n300 +u ticks_value)))
        (f.from_u32 50)

  abbrev pub with_n300 : ℕ → ℕ → Hits
  with_n300 n300 i = record { n300 = n300; n100 = i; n50 = n_remaining -u n300 -u i }

  -- `raw_n300` where n100 is given, and the hit results with so many n300.
  abbrev pub raw_of_n100 : ℕ → A
  raw_of_n100 n100 =
      f.div (f.sub target (f.from_u32 (50 *u (n_remaining -u n100) +u 100 *u n100 +u ticks_value)))
        (f.from_u32 250)

  abbrev pub with_n100 : ℕ → ℕ → Hits
  with_n100 n100 i = record { n300 = i; n100 = n100; n50 = n_remaining -u n100 -u i }

  -- `raw_n300` where n50 is given, and the hit results with so many n300.
  abbrev pub raw_of_n50 : ℕ → A
  raw_of_n50 n50 =
      f.div
        (f.sub (f.add target (f.from_u32 (100 *u misses +u 50 *u n50)))
          (f.from_u32 (100 *u n_objects +u ticks_value)))
        (f.from_u32 200)

  abbrev pub with_n50 : ℕ → ℕ → Hits
  with_n50 n50 i = record { n300 = i; n100 = n_remaining -u n50 -u i; n50 = n50 }

module _ {A : Type 0} ⦃f : F64 A⦄ (ieee : IsIeee A) where
  open ieee use {floor-le-ceil}

  module _ (acc : A) (origin : OsuScoreOrigin) (ticks : Ticks) (n_objects misses n_remaining : ℕ)
      (u : InUnit acc) (small : IsSmall origin) (b : n_remaining + misses < 2 ^ 22) where
    around-nearest :
        (raw : A) (bound : ℕ) (pick : ℕ → Hits) (h : Hits)
        → ((i : ℕ) → i ≤ bound → sum_of (pick i) ≡ n_remaining)
        → (j : ℕ) → from acc origin ticks n_objects misses n_remaining raw bound ≤ j
        → j ≤ upto acc origin ticks n_objects misses n_remaining raw bound
        → f.lt (far acc origin ticks n_objects misses n_remaining (pick j)) (
            far acc origin ticks n_objects misses n_remaining (
              nearest_in f.f64_max
                (from acc origin ticks n_objects misses n_remaining raw bound)
                (upto acc origin ticks n_objects misses n_remaining raw bound)
                (λ i. far acc origin ticks n_objects misses n_remaining (pick i))
                pick
                h))
          ≡ false
    around-nearest raw bound pick h all =
        nearest_in-nearest ieee (far acc origin ticks n_objects misses n_remaining) f.f64_max
          (from acc origin ticks n_objects misses n_remaining raw bound)
          (upto acc origin ticks n_objects misses n_remaining raw bound) pick h
          (omega (arith, floor-le-ceil raw))
          (distance-finite ieee acc origin ticks n_objects misses n_remaining u small b
            (pick (from acc origin ticks n_objects misses n_remaining raw bound))
            (all _ (omega arith)))

    -- Where n300 is given, no number of n100 of the searched range has an accuracy nearer to the one asked
    -- for, which lies between 0 and 1, where results and ticks are fewer than 2 ^ 22 each.
    pub given_n300-nearest :
        (h : Hits) (j : ℕ)
        → (let n300 = min h.n300 n_remaining in
            from acc origin ticks n_objects misses n_remaining
              (raw_of_n300 acc origin ticks n_objects misses n_remaining n300)
              (n_remaining -u n300)
            ≤ j)
        → (let n300 = min h.n300 n_remaining in
            j
            ≤ upto acc origin ticks n_objects misses n_remaining
                (raw_of_n300 acc origin ticks n_objects misses n_remaining n300)
                (n_remaining -u n300))
        → f.lt
            (far acc origin ticks n_objects misses n_remaining
              (with_n300 acc origin ticks n_objects misses n_remaining (min h.n300 n_remaining) j))
            (far acc origin ticks n_objects misses n_remaining
              (given_n300 acc origin ticks n_objects misses n_remaining h))
          ≡ false
    unfolding given_n300 ◌-u◌
    given_n300-nearest h j p q = around-nearest _ _ _ _ (λ i k. omega arith) j p q

    -- Where n100 is given, no number of n300 of the searched range has an accuracy nearer to the one asked
    -- for, which lies between 0 and 1, where results and ticks are fewer than 2 ^ 22 each.
    pub given_n100-nearest :
        (h : Hits) (j : ℕ)
        → (let n100 = min h.n100 n_remaining in
            from acc origin ticks n_objects misses n_remaining
              (raw_of_n100 acc origin ticks n_objects misses n_remaining n100)
              (n_remaining -u n100)
            ≤ j)
        → (let n100 = min h.n100 n_remaining in
            j
            ≤ upto acc origin ticks n_objects misses n_remaining
                (raw_of_n100 acc origin ticks n_objects misses n_remaining n100)
                (n_remaining -u n100))
        → f.lt
            (far acc origin ticks n_objects misses n_remaining
              (with_n100 acc origin ticks n_objects misses n_remaining (min h.n100 n_remaining) j))
            (far acc origin ticks n_objects misses n_remaining
              (given_n100 acc origin ticks n_objects misses n_remaining h))
          ≡ false
    unfolding given_n100 ◌-u◌
    given_n100-nearest h j p q = around-nearest _ _ _ _ (λ i k. omega arith) j p q

    -- Where n50 is given, no number of n300 of the searched range has an accuracy nearer to the one asked
    -- for, which lies between 0 and 1, where results and ticks are fewer than 2 ^ 22 each.
    pub given_n50-nearest :
        (h : Hits) (j : ℕ)
        → (let n50 = min h.n50 n_remaining in
            from acc origin ticks n_objects misses n_remaining
              (raw_of_n50 acc origin ticks n_objects misses n_remaining n50)
              (n_remaining -u n50)
            ≤ j)
        → (let n50 = min h.n50 n_remaining in
            j
            ≤ upto acc origin ticks n_objects misses n_remaining
                (raw_of_n50 acc origin ticks n_objects misses n_remaining n50)
                (n_remaining -u n50))
        → f.lt
            (far acc origin ticks n_objects misses n_remaining
              (with_n50 acc origin ticks n_objects misses n_remaining (min h.n50 n_remaining) j))
            (far acc origin ticks n_objects misses n_remaining
              (given_n50 acc origin ticks n_objects misses n_remaining h))
          ≡ false
    unfolding given_n50 ◌-u◌
    given_n50-nearest h j p q = around-nearest _ _ _ _ (λ i k. omega arith) j p q
