-- ===== src/Osu/Performance/Search.antt =====
-- `generate_state` of src/osu/performance/mod.rs: the searches for the hit results nearest to an
-- accuracy, one for each way to give at most one of n300, n100 and n50.
use mamestagram_pp_rs.Prelude.{ℕ, min, ◌+u◌, ◌-u◌, ◌*u◌, if◌then◌else◌, for_incl, ◌==◌}
use mamestagram_pp_rs.F64.{F64}
use mamestagram_pp_rs.F64.Nearest.{consider, nearest_in}
use mamestagram_pp_rs.Any.Settings.{HitResultPriority}
use mamestagram_pp_rs.Osu.ScoreState.{OsuScoreOrigin, slider_part}
use mamestagram_pp_rs.Osu.Performance.Defs.{Hits, Ticks, slider_acc_values, shift}

-- `NoComboState::accuracy`
unfoldable pub no_combo_accuracy : {A : Type 0} ⦃f : F64 A⦄ → OsuScoreOrigin → Ticks → Hits → ℕ → A
unfolding slider_part
no_combo_accuracy ⦃f⦄ origin t h misses =
    let (n, d) = slider_part origin t.large_tick_hits t.small_tick_hits t.slider_end_hits in
    let numerator = 300 *u h.n300 +u 100 *u h.n100 +u 50 *u h.n50 +u n in
    let denominator = 300 *u (h.n300 +u h.n100 +u h.n50 +u misses) +u d in
    if denominator == 0 then f.from_u32 0 else f.div (f.from_u32 numerator) (f.from_u32 denominator)

module _ {A : Type 0} ⦃f : F64 A⦄ (acc : A) (origin : OsuScoreOrigin) (ticks : Ticks)
    (n_objects misses n_remaining : ℕ) where
  -- `(acc - state.accuracy(origin)).abs()`
  unfoldable pub distance : Hits → A
  distance h = f.abs (f.sub acc (no_combo_accuracy origin ticks h misses))

  abbrev pub target_total : A
  target_total = f.mul acc (f.from_u32 (300 *u n_objects +u (slider_acc_values origin ticks).1))

  abbrev pub slider_acc_value : ℕ
  slider_acc_value = (slider_acc_values origin ticks).0

  abbrev pub low : A → ℕ → ℕ
  low raw bound = min bound (f.as_u32 (f.floor raw))

  abbrev pub high : A → ℕ → ℕ
  high raw bound = min bound (f.as_u32 (f.ceil raw))

  abbrev around : A → ℕ → (ℕ → Hits) → Hits → Hits
  around raw bound pick h =
      nearest_in f.f64_max (low raw bound) (high raw bound) (λ i. distance (pick i)) pick h

  -- only n300 given
  unfoldable pub given_n300 : Hits → Hits
  given_n300 h =
      let n300 = min h.n300 n_remaining in
      let rest = n_remaining -u n300 in
      let raw_n100 =
        f.div (f.sub target_total (f.from_u32 (50 *u rest +u 300 *u n300 +u slider_acc_value)))
          (f.from_u32 50) in
      around raw_n100 rest (λ i. record { n300 = n300; n100 = i; n50 = rest -u i })
        (record h { n300 = n300 })

  -- only n100 given
  unfoldable pub given_n100 : Hits → Hits
  given_n100 h =
      let n100 = min h.n100 n_remaining in
      let rest = n_remaining -u n100 in
      let raw_n300 =
        f.div (f.sub target_total (f.from_u32 (50 *u rest +u 100 *u n100 +u slider_acc_value)))
          (f.from_u32 250) in
      around raw_n300 rest (λ i. record { n300 = i; n100 = n100; n50 = rest -u i })
        (record h { n100 = n100 })

  -- only n50 given
  unfoldable pub given_n50 : Hits → Hits
  given_n50 h =
      let n50 = min h.n50 n_remaining in
      let rest = n_remaining -u n50 in
      let raw_n300 =
        f.div
          (f.sub (f.add target_total (f.from_u32 (100 *u misses +u 50 *u n50)))
            (f.from_u32 (100 *u n_objects +u slider_acc_value)))
          (f.from_u32 200) in
      around raw_n300 rest (λ i. record { n300 = i; n100 = rest -u i; n50 = n50 })
        (record h { n50 = n50 })

  abbrev pub raw_n300 : A
  raw_n300 =
      f.div (f.sub target_total (f.from_u32 (50 *u n_remaining +u slider_acc_value)))
        (f.from_u32 250)

  abbrev pub raw_n100 : ℕ → A
  raw_n100 new300 =
      f.div
        (f.sub target_total (f.from_u32 (50 *u n_remaining +u 250 *u new300 +u slider_acc_value)))
        (f.from_u32 50)

  abbrev pub all_of : ℕ → ℕ → Hits
  all_of new300 new100 = record {
    n300 = new300;
    n100 = new100;
    n50 = n_remaining -u new300 -u new100;
  }

  -- The inner loop of the search where none is given, for one `new300`.
  unfoldable pub try_n300 : ℕ → A × Hits → A × Hits
  try_n300 new300 t =
      for_incl (low (raw_n100 new300) (n_remaining -u new300))
        (high (raw_n100 new300) (n_remaining -u new300))
        (λ new100. λ s. consider (distance (all_of new300 new100)) (all_of new300 new100) s) t

  -- none given: the search, and the shift to the preferred results
  unfoldable pub given_none : HitResultPriority → Hits → Hits
  unfolding try_n300
  given_none priority h =
      shift priority
        (for_incl (low raw_n300 n_remaining) (high raw_n300 n_remaining) try_n300 (f.f64_max, h)).1
