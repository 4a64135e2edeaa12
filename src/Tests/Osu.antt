-- ===== src/Tests/Osu.antt =====
-- Examples for src/osu/performance/mod.rs, with numbers of its unit tests.
use mamestagram_pp_rs.Prelude.{
  ◌+u◌, ◌-u◌, ◌*u◌, ◌+◌, ◌-◌, ◌≡◌, max, refl, true, false, some, none, arith, Bool, Result, err,
}
use mamestagram_pp_rs.F64.{InUnit}
use mamestagram_pp_rs.F64.Model.{Approx, approx_f64, Approx-IsIeee}
use mamestagram_pp_rs.Any.Settings.{of_attrs, ConvertError, load_attrs, best_case}
use mamestagram_pp_rs.Tests.Common.{nil, high, plain}
use mamestagram_pp_rs.Osu.ScoreState.{OsuScoreOrigin}
use mamestagram_pp_rs.Osu.Performance.{
  OsuDifficultyAttributes, OsuPerformance, Hits, Ticks, slider_acc_values,
}
use mamestagram_pp_rs.Osu.Performance.Search.{no_combo_accuracy, given_n300, given_n100, given_n50}
use mamestagram_pp_rs.Osu.Performance.Nearest.{
  far, with_n300, with_n100, given_n300-nearest, given_n100-nearest, with_n50, given_n50-nearest,
}
use mamestagram_pp_rs.Osu.Performance.Complete.{complete, generate_state, n_objects}
use mamestagram_pp_rs.Osu.Performance.Bounds.{no_combo_accuracy-unit}
use mamestagram_pp_rs.Osu.Performance.Totals.{given}
use mamestagram_pp_rs.Osu.Performance.Repeat.{
  complete-sum_osu, IsComplete, generate_state_twice_osu,
}

abbrev pub attrs : OsuDifficultyAttributes Approx
attrs = record {
  aim = nil;
  aim_difficult_slider_count = nil;
  speed = nil;
  flashlight = nil;
  reading = nil;
  slider_factor = nil;
  aim_top_weighted_slider_factor = nil;
  speed_top_weighted_slider_factor = nil;
  speed_note_count = nil;
  aim_difficult_strain_count = nil;
  speed_difficult_strain_count = nil;
  reading_difficult_note_count = nil;
  nested_score_per_object = nil;
  legacy_score_base_multiplier = nil;
  maximum_legacy_combo_score = nil;
  ar = nil;
  great_hit_window = nil;
  ok_hit_window = nil;
  meh_hit_window = nil;
  hp = nil;
  n_circles = 307;
  n_sliders = 293;
  n_large_ticks = 15;
  n_spinners = 1;
  stars = nil;
  max_combo = 909;
}

abbrev Perf : Type 0
Perf = OsuPerformance (Unit {0}) (Unit {0}) Approx (Unit {0})

abbrev accurate : Perf
accurate = record {
  map_or_attrs = of_attrs attrs;
  difficulty = plain;
  acc = some high;
  combo = none;
  large_tick_hits = none;
  small_tick_hits = none;
  slider_end_hits = some 250;
  n300 = none;
  n100 = none;
  n50 = some 3;
  misses = some 2;
  legacy_total_score = none;
  hitresult_priority = best_case;
}

-- `GameMods::no_slider_head_acc` of a legacy score
abbrev classic : Unit {0} → Bool → Bool
classic _ true = false
classic _ false = true

no_combo_accuracy-unit_example : InUnit (
    no_combo_accuracy {A = Approx}
      (OsuScoreOrigin.with_slider_acc 15 293)
      (record { slider_end_hits = 250; large_tick_hits = 15; small_tick_hits = 0 })
      (record { n300 = 550; n100 = 46; n50 = 3 })
      2)
no_combo_accuracy-unit_example =
    no_combo_accuracy-unit Approx-IsIeee (OsuScoreOrigin.with_slider_acc 15 293)
      (record { slider_end_hits = 250; large_tick_hits = 15; small_tick_hits = 0 })
      (record { n300 = 550; n100 = 46; n50 = 3 }) 2 (omega arith) (omega arith)

complete-sum_osu_example :
    let s = complete classic accurate attrs in
    let left = n_objects accurate attrs - s.misses in
    (s.n300 + s.n100 + s.n50 + s.misses
      ≡ max (n_objects accurate attrs) (0 + 0 + given (some 3) left + s.misses))
    × IsComplete accurate attrs s
complete-sum_osu_example =
    complete-sum_osu Approx-IsIeee classic accurate attrs (omega arith) (refl, refl)

abbrev no_map : Unit {0} → Result (OsuDifficultyAttributes Approx) ConvertError
no_map _ = err ConvertError.already_converted

generate_state_twice_osu_example :
    let (p', result) = generate_state classic no_map accurate in
    generate_state classic no_map p' ≡ (p', result)
unfolding load_attrs
generate_state_twice_osu_example =
    generate_state_twice_osu Approx-IsIeee classic no_map accurate attrs (refl, refl) (omega arith)
      refl

abbrev slider_hits : Ticks
slider_hits = record { slider_end_hits = 250; large_tick_hits = 15; small_tick_hits = 0 }

abbrev some_n300 : Hits
some_n300 = record { n300 = 580; n100 = 0; n50 = 0 }

given_n300-nearest_example :
    let origin = OsuScoreOrigin.with_slider_acc 15 293 in
    approx_f64.lt
      (far high origin slider_hits 601 2 599 (with_n300 high origin slider_hits 601 2 599 580 12))
      (far high origin slider_hits 601 2 599
        (given_n300 high origin slider_hits 601 2 599 some_n300))
    ≡ false
unfolding ◌*u◌ ◌+u◌ ◌-u◌ slider_acc_values
given_n300-nearest_example =
    given_n300-nearest Approx-IsIeee high (OsuScoreOrigin.with_slider_acc 15 293) slider_hits 601 2
      599 (refl, refl) (omega arith) (omega arith) some_n300 12 (omega arith) (omega arith)

abbrev some_n100 : Hits
some_n100 = record { n300 = 0; n100 = 15; n50 = 0 }

given_n100-nearest_example :
    let origin = OsuScoreOrigin.with_slider_acc 15 293 in
    approx_f64.lt
      (far high origin slider_hits 601 2 599 (with_n100 high origin slider_hits 601 2 599 15 579))
      (far high origin slider_hits 601 2 599
        (given_n100 high origin slider_hits 601 2 599 some_n100))
    ≡ false
unfolding ◌*u◌ ◌+u◌ ◌-u◌ slider_acc_values
given_n100-nearest_example =
    given_n100-nearest Approx-IsIeee high (OsuScoreOrigin.with_slider_acc 15 293) slider_hits 601 2
      599 (refl, refl) (omega arith) (omega arith) some_n100 579 (omega arith) (omega arith)

abbrev some_n50 : Hits
some_n50 = record { n300 = 0; n100 = 0; n50 = 3 }

given_n50-nearest_example :
    let origin = OsuScoreOrigin.with_slider_acc 15 293 in
    approx_f64.lt
      (far high origin slider_hits 601 2 599 (with_n50 high origin slider_hits 601 2 599 3 579))
      (far high origin slider_hits 601 2 599 (given_n50 high origin slider_hits 601 2 599 some_n50))
    ≡ false
unfolding ◌*u◌ ◌+u◌ ◌-u◌ slider_acc_values
given_n50-nearest_example =
    given_n50-nearest Approx-IsIeee high (OsuScoreOrigin.with_slider_acc 15 293) slider_hits 601 2
      599 (refl, refl) (omega arith) (omega arith) some_n50 579 (omega arith) (omega arith)
