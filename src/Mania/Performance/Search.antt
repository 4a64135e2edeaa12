-- ===== src/Mania/Performance/Search.antt =====
-- `generate_state` of src/mania/performance/mod.rs: the searches for the hit results nearest to an
-- accuracy, one for each way to give n200, n100 and n50. Each looks for n320 and n300 together,
-- `n3x0`, and returns the distance it reached with what it found.
use mamestagram_pp_rs.Prelude.{ℕ, ◌-◌, Option, none, some, min, max, ◌+u◌, ◌-u◌, ◌*u◌, for_incl}
use mamestagram_pp_rs.F64.{F64}
use mamestagram_pp_rs.F64.Nearest.{consider}

pub record Hits : Type 0 where
  pub n320 : ℕ
  pub n300 : ℕ
  pub n200 : ℕ
  pub n100 : ℕ
  pub n50 : ℕ

-- The variables that a search assigns.
pub record Best : Type 0 where
  pub n3x0 : ℕ
  pub n200 : ℕ
  pub n100 : ℕ
  pub n50 : ℕ

-- `match (self.n320, self.n300)` before a search, for the minimum and for the maximum; `both` is
-- the bound where both are given.
unfoldable pub bound_3x0 : Option ℕ → Option ℕ → Hits → ℕ → ℕ → ℕ
bound_3x0 (some _) (some _) h both raw = both
bound_3x0 (some _) none h both raw = max raw h.n320
bound_3x0 none (some _) h both raw = max raw h.n300
bound_3x0 none none h both raw = raw

module _ {A : Type 0} ⦃f : F64 A⦄ where
  unfoldable pub accuracy : ℕ → ℕ → ℕ → ℕ → ℕ → ℕ → A
  accuracy n320 n300 n200 n100 n50 misses =
      let numerator = 6 *u (n320 +u n300) +u 4 *u n200 +u 2 *u n100 +u n50 in
      let denominator = 6 *u (n320 +u n300 +u n200 +u n100 +u n50 +u misses) in
      f.div (f.from_u32 numerator) (f.from_u32 denominator)

  -- `raw.floor() as u32` and `raw.ceil() as u32`
  abbrev pub down : A → ℕ
  down raw = f.as_u32 (f.floor raw)

  abbrev pub up : A → ℕ
  up raw = f.as_u32 (f.ceil raw)

  module _ (acc : A) (n_objects misses n_remaining : ℕ) (o320 o300 : Option ℕ) (h : Hits) where
    abbrev pub target_total : A
    target_total = f.mul acc (f.from_u32 (6 *u n_objects))

    -- `(acc - accuracy(...)).abs()`
    unfoldable pub distance : Best → A
    unfolding accuracy
    distance b = f.abs (f.sub acc (accuracy b.n3x0 0 b.n200 b.n100 b.n50 misses))

    -- `if curr_dist < best_dist`
    abbrev pub try_best : Best → A × Best → A × Best
    try_best b t = consider (distance b) b t

    -- The variables before the search, with `n3x0` from the given counts of its arm.
    abbrev pub start : ℕ → A × Best
    start used = (
      f.infinity,
      record {
        n3x0 = n_objects - (h.n320 +u h.n300 +u used);
        n200 = h.n200;
        n100 = h.n100;
        n50 = h.n50;
      },
    )

    -- `for new3x0 in min_n3x0..=max_n3x0`
    abbrev pub for_3x0 : ℕ → ℕ → ℕ → (ℕ → A × Best → A × Best) → A × Best → A × Best
    for_3x0 both min_n3x0 max_n3x0 body t =
        for_incl (bound_3x0 o320 o300 h both min_n3x0) (bound_3x0 o320 o300 h both max_n3x0) body t

    abbrev pub both_given : ℕ
    both_given = h.n320 +u h.n300

    unfoldable pub given_n100_n50 : A × Best
    unfolding bound_3x0
    given_n100_n50 =
        let raw_n3x0 =
          f.div
            (f.add (f.sub target_total (f.from_u32 (4 *u n_remaining)))
              (f.from_u32 (2 *u h.n100 +u 3 *u h.n50)))
            (f.from_u32 2) in
        let bound = n_remaining - (h.n100 +u h.n50) in
        for_3x0 both_given (min (down raw_n3x0) bound) (min (up raw_n3x0) bound)
          (λ new3x0. try_best (record {
            n3x0 = new3x0;
            n200 = n_remaining - (new3x0 +u h.n100 +u h.n50);
            n100 = h.n100;
            n50 = h.n50;
          }))
          (start (h.n100 +u h.n50 +u misses))

    unfoldable pub given_n200_n50 : A × Best
    unfolding bound_3x0
    given_n200_n50 =
        let raw_n3x0 =
          f.div (f.sub target_total (f.from_u32 (2 *u (n_remaining +u h.n200) -u h.n50)))
            (f.from_u32 4) in
        let bound = n_remaining - (h.n200 +u h.n50) in
        for_3x0 both_given (min (down raw_n3x0) bound) (min (up raw_n3x0) bound)
          (λ new3x0. try_best (record {
            n3x0 = new3x0;
            n200 = h.n200;
            n100 = n_remaining - (new3x0 +u h.n200 +u h.n50);
            n50 = h.n50;
          }))
          (start (h.n200 +u h.n50 +u misses))

    unfoldable pub given_n200_n100 : A × Best
    unfolding bound_3x0
    given_n200_n100 =
        let raw_n3x0 =
          f.div (f.sub target_total (f.from_u32 (n_remaining +u 3 *u h.n200 +u h.n100)))
            (f.from_u32 5) in
        let bound = n_remaining - (h.n200 +u h.n100) in
        for_3x0 both_given (min (down raw_n3x0) bound) (min (up raw_n3x0) bound)
          (λ new3x0. try_best (record {
            n3x0 = new3x0;
            n200 = h.n200;
            n100 = h.n100;
            n50 = n_remaining - (new3x0 +u h.n200 +u h.n100);
          }))
          (start (h.n200 +u h.n100 +u misses))

    -- The inner loop of a search that has one count given: `pick` makes the candidate.
    abbrev pub for_second : A → ℕ → (ℕ → Best) → A × Best → A × Best
    for_second raw bound pick t =
        for_incl (min (down raw) bound) (min (up raw) bound) (λ i. try_best (pick i)) t

    unfoldable pub given_n200 : A × Best
    unfolding bound_3x0
    given_n200 =
        let lowest =
          f.div (f.sub target_total (f.from_u32 (2 *u (n_remaining +u h.n200)))) (f.from_u32 4) in
        let highest =
          f.div (f.sub target_total (f.from_u32 (n_remaining +u 3 *u h.n200))) (f.from_u32 5) in
        for_3x0 (min n_remaining both_given) (min (down lowest) (n_remaining -u h.n200))
          (min (up highest) (n_remaining -u h.n200))
          (λ new3x0.
            for_second (f.sub target_total (f.from_u32 (n_remaining +u 5 *u new3x0 +u 3 *u h.n200)))
              (n_remaining - (new3x0 +u h.n200))
              (λ new100. record {
                n3x0 = new3x0;
                n200 = h.n200;
                n100 = new100;
                n50 = n_remaining - (new3x0 +u h.n200 +u new100);
              }))
          (start (h.n200 +u misses))

    unfoldable pub given_n100 : A × Best
    unfolding bound_3x0
    given_n100 =
        let lowest =
          f.sub (f.mul acc (f.from_u32 (3 *u n_remaining)))
            (f.from_u32 (2 *u n_remaining -u h.n100)) in
        let highest =
          f.div (f.sub target_total (f.from_u32 (n_remaining +u h.n100))) (f.from_u32 5) in
        for_3x0 (min n_remaining both_given) (min (down lowest) (n_remaining -u h.n100))
          (min (up highest) (n_remaining -u h.n100))
          (λ new3x0.
            for_second
              (f.div (f.sub target_total (f.from_u32 (n_remaining +u 5 *u new3x0 +u h.n100)))
                (f.from_u32 3))
              (n_remaining - (new3x0 +u h.n100))
              (λ new200. record {
                n3x0 = new3x0;
                n200 = new200;
                n100 = h.n100;
                n50 = n_remaining - (new3x0 +u new200 +u h.n100);
              }))
          (start (h.n100 +u misses))

    unfoldable pub given_n50 : A × Best
    unfolding bound_3x0
    given_n50 =
        let lowest =
          f.div (f.sub target_total (f.from_u32 (4 *u n_remaining -u 3 *u h.n50))) (f.from_u32 2) in
        let highest =
          f.div (f.sub target_total (f.from_u32 (2 *u n_remaining -u h.n50))) (f.from_u32 4) in
        for_3x0 (min n_remaining both_given) (min (down lowest) (n_remaining -u h.n50))
          (min (up highest) (n_remaining -u h.n50))
          (λ new3x0.
            for_second
              (f.div
                (f.add (f.sub target_total (f.from_u32 (2 *u n_remaining +u 4 *u new3x0)))
                  (f.from_u32 h.n50))
                (f.from_u32 2))
              (n_remaining - (new3x0 +u h.n50))
              (λ new200. record {
                n3x0 = new3x0;
                n200 = new200;
                n100 = n_remaining - (new3x0 +u new200 +u h.n50);
                n50 = h.n50;
              }))
          (start (h.n50 +u misses))

    -- The two inner loops of the search that has none of n200, n100 and n50.
    unfoldable pub try_3x0 : ℕ → A × Best → A × Best
    try_3x0 new3x0 t =
        let lowest =
          f.sub (f.mul acc (f.from_u32 (3 *u n_objects)))
            (f.from_u32 (n_remaining +u 2 *u new3x0)) in
        let highest =
          f.div (f.sub target_total (f.from_u32 (n_remaining +u 5 *u new3x0))) (f.from_u32 3) in
        for_incl (min (down lowest) (n_remaining -u new3x0))
          (min (up highest) (n_remaining -u new3x0))
          (λ new200.
            for_second (f.sub target_total (f.from_u32 (n_remaining +u 5 *u new3x0 +u 3 *u new200)))
              (n_remaining -u (new3x0 +u new200))
              (λ new100. record {
                n3x0 = new3x0;
                n200 = new200;
                n100 = new100;
                n50 = n_remaining -u new3x0 -u new200 -u new100;
              }))
          t

    unfoldable pub given_none : A × Best
    unfolding bound_3x0 try_3x0
    given_none =
        let lowest = f.div (f.sub target_total (f.from_u32 (4 *u n_remaining))) (f.from_u32 5) in
        let highest =
          f.min (f.div (f.sub target_total (f.from_u32 n_remaining)) (f.from_u32 5))
            (f.sub (f.mul acc (f.from_u32 (3 *u n_objects))) (f.from_u32 n_remaining)) in
        for_3x0 (min n_remaining both_given) (min (down lowest) n_remaining)
          (min (up highest) n_remaining) try_3x0 (start (h.n200 +u h.n100 +u misses))
