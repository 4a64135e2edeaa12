-- ===== src/Tests/Mania.antt =====
-- Examples for src/mania/performance/mod.rs.
use mamestagram_pp_rs.Prelude.{
  ◌+u◌, ◌-u◌, ◌*u◌, ◌+◌, ◌-◌, ◌≡◌, max, refl, false, some, none, arith, Result, err, for_incl,
}
use mamestagram_pp_rs.F64.Model.{Approx, approx_f64, Approx-IsIeee}
use mamestagram_pp_rs.Any.Settings.{
  of_attrs, ConvertError, load_attrs, get_lazer, get_passed_objects, best_case,
}
use mamestagram_pp_rs.Tests.Common.{nil, high, plain}
use mamestagram_pp_rs.Mania.Performance.{ManiaDifficultyAttributes, ManiaPerformance}
use mamestagram_pp_rs.Mania.Performance.Search.{given_none, try_3x0, bound_3x0, distance, accuracy}
use mamestagram_pp_rs.Mania.Performance.Complete.{complete, generate_state, n_objects, n_notes}
use mamestagram_pp_rs.Mania.Performance.Range.{given}
use mamestagram_pp_rs.Mania.Performance.Repeat.{
  complete-sum_mania, IsComplete, AccFinds, generate_state_twice_mania,
}

abbrev pub attrs : ManiaDifficultyAttributes Approx
attrs = record { stars = nil; n_objects = 12; n_hold_notes = 3; max_combo = 20; is_convert = false }

abbrev Perf : Type 0
Perf = ManiaPerformance (Unit {0}) (Unit {0}) Approx (Unit {0})

-- An accuracy and the 320s are given.
abbrev pub accurate : Perf
accurate = record {
  map_or_attrs = of_attrs attrs;
  difficulty = plain;
  n320 = some 4;
  n300 = none;
  n200 = none;
  n100 = none;
  n50 = none;
  misses = some 1;
  acc = some high;
  hitresult_priority = best_case;
}

pub accurate-AccFinds : AccFinds accurate attrs
unfolding given_none try_3x0 bound_3x0 distance accuracy n_objects n_notes get_lazer
    get_passed_objects ◌+u◌ ◌-u◌ ◌*u◌ for_incl
accurate-AccFinds = refl

complete-sum_mania_example :
    let s = complete accurate attrs in
    let left = n_objects accurate attrs - s.misses in
    (s.n320 + s.n300 + s.n200 + s.n100 + s.n50 + s.misses
      ≡ max (n_objects accurate attrs) (given (some 4) left + 0 + 0 + 0 + 0 + s.misses))
    × IsComplete accurate attrs s
complete-sum_mania_example =
    complete-sum_mania Approx-IsIeee accurate attrs (omega arith) (refl, refl) accurate-AccFinds

abbrev pub no_map : Unit {0} → Result (ManiaDifficultyAttributes Approx) ConvertError
no_map _ = err ConvertError.already_converted

generate_state_twice_mania_example :
    let (p', result) = generate_state no_map accurate in generate_state no_map p' ≡ (p', result)
unfolding load_attrs
generate_state_twice_mania_example =
    generate_state_twice_mania Approx-IsIeee no_map accurate attrs (refl, refl) (omega arith)
      accurate-AccFinds refl
