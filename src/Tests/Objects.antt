-- ===== src/Tests/Objects.antt =====
-- Examples for the counts of osu!catch's objects.
use mamestagram_pp_rs.Prelude.{◌≡◌, refl, true, false, some, List, [], ◌∷◌, take, ◌+u◌, arith}
use mamestagram_pp_rs.F64.Model.{Approx}
use mamestagram_pp_rs.Catch.Counts.{
  ObjectCount, GradualObjectCount, ObjectCountBuilder, no_objects, no_delta, new_regular,
  new_gradual, into_regular, into_gradual, set_object_count,
}
use mamestagram_pp_rs.Catch.Counts.Deltas.{add_all}
use mamestagram_pp_rs.Catch.JuiceStream.{PalpableObject}
use mamestagram_pp_rs.Catch.Objects.{convert_objects}
use mamestagram_pp_rs.Catch.Objects.Totals.{regular-gradual_counts}
use mamestagram_pp_rs.Catch.Gradual as Catch
use mamestagram_pp_rs.Catch.Gradual.Nth as CatchNth
use mamestagram_pp_rs.Catch.Gradual.Steps.{of_map-IsValid_catch}
use mamestagram_pp_rs.Tests.Common.{plain, nil, high}
use mamestagram_pp_rs.Tests.Catch.{attrs}
use mamestagram_pp_rs.Tests.Modes.{map, catch_objects, catch_parts}

abbrev palpable : Approx → Approx → PalpableObject Approx
palpable x start_time = record {
  x = x;
  x_offset = nil;
  start_time = start_time;
  dist_to_hyper_dash = nil;
  hyper_dash = false;
}

-- The circle, the slider's head, tick and tail, and the other circle.
abbrev palpables : List (PalpableObject Approx)
palpables =
    palpable nil nil
    ∷ palpable nil nil
    ∷ palpable nil nil
    ∷ palpable nil nil
    ∷ palpable high high
    ∷ []

abbrev counts : List GradualObjectCount
counts =
    record { fruit = true; tiny_droplets = 0 }
    ∷ record { fruit = true; tiny_droplets = 0 }
    ∷ record { fruit = false; tiny_droplets = 2 }
    ∷ record { fruit = true; tiny_droplets = 4 }
    ∷ record { fruit = true; tiny_droplets = 0 }
    ∷ []

regular-gradual_counts_example :
    (objects : List (PalpableObject Approx)) × (b : ObjectCountBuilder) × (count : ObjectCount)
    × (convert_objects catch_objects map (new_regular 3) true true high ≡ some (objects, b))
    × (into_regular b ≡ some count)
    × (set_object_count count attrs ≡ add_all (take 3 counts) (set_object_count no_objects attrs))
unfolding convert_objects new_gradual into_gradual ◌+u◌
regular-gradual_counts_example =
    regular-gradual_counts catch_objects map true true high 3 attrs palpables
      (ObjectCountBuilder.gradual no_delta counts) counts refl refl (omega arith)

of_map-IsValid_catch_example :
    (s : Catch.Gradual catch_parts) × (Catch.of_map catch_parts plain map ≡ some s)
    × CatchNth.IsValid s
    × (s.idx ≡ 0)
of_map-IsValid_catch_example = of_map-IsValid_catch catch_parts plain map (λ found. refl)
