-- ===== src/Tests/Catch.antt =====
-- Examples for src/catch/performance/mod.rs, with numbers of its unit tests.
use mamestagram_pp_rs.Prelude.{
  ◌+◌, ◌≡◌, refl, false, some, none, arith, ◌+u◌, ◌-u◌, ◌*u◌, for_incl, Result, err,
}
use mamestagram_pp_rs.F64.Model.{Approx, approx_f64, Approx-IsIeee}
use mamestagram_pp_rs.Any.Settings.{of_attrs, ConvertError, load_attrs}
use mamestagram_pp_rs.Tests.Common.{nil, high, plain}
use mamestagram_pp_rs.Catch.Performance.{
  CatchDifficultyAttributes, CatchPerformance, Caught, complete, generate_state, find_best,
  accuracy, fit, choose_tiny,
}
use mamestagram_pp_rs.Catch.Performance.Tiny.{distance, candidate, find_best-nearest, FilledOrOver}
use mamestagram_pp_rs.Catch.Performance.Repeat.{
  IsSane, complete-sum_catch, generate_state_twice_catch,
}

abbrev pub attrs : CatchDifficultyAttributes Approx
attrs = record {
  stars = nil;
  ar = nil;
  n_fruits = 728;
  n_droplets = 2;
  n_tiny_droplets = 263;
  is_convert = false;
}

abbrev Perf : Type 0
Perf = CatchPerformance (Unit {0}) (Unit {0}) Approx (Unit {0})

abbrev accurate : Perf
accurate = record {
  map_or_attrs = of_attrs attrs;
  difficulty = plain;
  acc = some high;
  combo = none;
  fruits = some 700;
  droplets = none;
  tiny_droplets = none;
  tiny_droplet_misses = none;
  misses = some 2;
}

accurate-IsSane : IsSane accurate
accurate-IsSane = record {
  acc = (refl, refl);
  fruits = omega arith;
  droplets = tt;
  tiny_droplets = tt;
  tiny_droplet_misses = tt;
}

run-accurate : complete accurate attrs ≡ record {
  max_combo = 728;
  fruits = 726;
  droplets = 2;
  tiny_droplets = 215;
  tiny_droplet_misses = 48;
  misses = 2;
}
unfolding complete accuracy for_incl ◌-u◌ ◌*u◌ ◌+u◌ fit choose_tiny
run-accurate = refl

complete-sum_catch_example :
    let s = complete accurate attrs in
    (s.fruits + s.droplets + s.misses ≡ 730)
    × FilledOrOver attrs
        (some high)
        none
        none
        (record { droplets = s.tiny_droplets; misses = s.tiny_droplet_misses })
complete-sum_catch_example =
    complete-sum_catch Approx-IsIeee accurate attrs (omega arith) accurate-IsSane

abbrev no_map : Unit {0} → Result (CatchDifficultyAttributes Approx) ConvertError
no_map _ = err ConvertError.already_converted

generate_state_twice_catch_example :
    let (p', result) = generate_state no_map accurate in generate_state no_map p' ≡ (p', result)
unfolding load_attrs
generate_state_twice_catch_example =
    generate_state_twice_catch Approx-IsIeee no_map accurate attrs accurate-IsSane (omega arith)
      refl

abbrev caught : Caught
caught = record { fruits = 726; droplets = 2 }

find_best-nearest_example :
    approx_f64.lt
      (distance attrs caught 2 high (candidate attrs 215))
      (distance attrs caught 2 high (find_best attrs caught 2 high))
    ≡ false
unfolding ◌*u◌ ◌+u◌
find_best-nearest_example =
    find_best-nearest Approx-IsIeee attrs caught 2 high (refl, refl) (omega arith) (omega arith) 215
      (omega arith) (omega arith)
