-- ===== src/Tests/Taiko.antt =====
-- Examples for src/taiko/performance/mod.rs, with numbers of its unit tests.
use mamestagram_pp_rs.Prelude.{
  ◌+◌, ◌≡◌, refl, false, none, some, max, arith, ◌+u◌, ◌-u◌, ◌*u◌, for_incl, Result, err,
}
use mamestagram_pp_rs.F64.{InUnit}
use mamestagram_pp_rs.F64.Model.{Approx, approx_f64, Approx-IsIeee}
use mamestagram_pp_rs.Any.Settings.{
  Difficulty, MapOrAttrs, of_attrs, best_case, worst_case, ConvertError,
}
use mamestagram_pp_rs.Any.Settings
use mamestagram_pp_rs.Tests.Common.{nil, high, plain}
use mamestagram_pp_rs.Taiko.Performance.{
  TaikoDifficultyAttributes, TaikoPerformance, complete, generate_state, closest, accuracy,
}
use mamestagram_pp_rs.Taiko.Performance.Search.{distance, candidate, accuracy-unit, closest-nearest}
use mamestagram_pp_rs.Taiko.Performance.Totals.{complete-sum}
use mamestagram_pp_rs.Taiko.Performance.Repeat.{
  complete-IsComplete, IsComplete, generate_state_twice,
}

abbrev pub attrs : TaikoDifficultyAttributes Approx
attrs = record {
  stamina = nil;
  rhythm = nil;
  color = nil;
  reading = nil;
  great_hit_window = nil;
  ok_hit_window = nil;
  mono_stamina_factor = nil;
  mechanical_difficulty = nil;
  stamina_top_strains = nil;
  consistency_factor = nil;
  stars = nil;
  max_combo = 289;
  is_convert = false;
}

abbrev Perf : Type 0
Perf = TaikoPerformance (Unit {0}) (Unit {0}) Approx (Unit {0})

-- 95% with two misses
abbrev accurate : Perf
accurate = record {
  map_or_attrs = of_attrs attrs;
  difficulty = plain;
  combo = some 100;
  acc = some high;
  hitresult_priority = best_case;
  n300 = none;
  n100 = none;
  misses = some 2;
}

-- `hitresults_n300_misses_best`
abbrev n300_misses : Perf
n300_misses = record accurate { acc = none; n300 = some 150 }

run-n300_misses :
    complete n300_misses 289 ≡ record { max_combo = 100; n300 = 150; n100 = 137; misses = 2 }
unfolding complete ◌-u◌ ◌+u◌
run-n300_misses = refl

run-accurate : complete accurate 289 ≡ record { max_combo = 100; n300 = 262; n100 = 25; misses = 2 }
unfolding complete accuracy for_incl ◌-u◌ ◌*u◌ ◌+u◌
run-accurate = refl

accuracy-unit_example : InUnit (accuracy {A = Approx} 262 25 2)
accuracy-unit_example = accuracy-unit Approx-IsIeee 262 25 2 (omega arith)

complete-sum_example :
    let s = complete accurate 289 in s.n300 + s.n100 + s.misses ≡ max 289 (0 + 0 + s.misses)
unfolding complete
complete-sum_example = complete-sum Approx-IsIeee accurate 289 (refl, refl) (omega arith)

complete-IsComplete_example : IsComplete accurate 289 (complete accurate 289)
complete-IsComplete_example =
    complete-IsComplete Approx-IsIeee accurate 289 (refl, refl) (omega arith)

-- No map is needed where the attributes are given.
abbrev no_map : Unit {0} → Result (TaikoDifficultyAttributes Approx) ConvertError
no_map _ = err ConvertError.already_converted

generate_state_twice_example :
    let (p', result) = generate_state no_map accurate in generate_state no_map p' ≡ (p', result)
unfolding Settings.load_attrs
generate_state_twice_example =
    generate_state_twice Approx-IsIeee no_map accurate attrs (refl, refl) (omega arith) refl

closest-nearest_example :
    approx_f64.lt (distance {A = Approx} high 2 (candidate 287 262)) (
      distance {A = Approx} high 2
        (closest {A = Approx} high 289 287 2 (record { n300 = 0; n100 = 0 })))
    ≡ false
unfolding ◌*u◌
closest-nearest_example =
    closest-nearest Approx-IsIeee high 289 287 2 (record { n300 = 0; n100 = 0 }) (omega arith)
      (refl, refl) 262 (omega arith) (omega arith)
