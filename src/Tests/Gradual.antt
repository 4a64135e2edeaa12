-- ===== src/Tests/Gradual.antt =====
-- Examples for the gradual calculation of the four modes.
use mamestagram_pp_rs.Prelude.{
  ℕ, ◌≡◌, ◌<◌, ◌-◌, min, refl, true, false, some, [], ◌∷◌, drop, length, CountsDown, next_after,
  ◌+u◌, arith,
}
use mamestagram_pp_rs.F64.Model.{Approx, approx_f64}
use mamestagram_pp_rs.Any.Settings.{Difficulty, get_passed_objects}
use mamestagram_pp_rs.Any.Gradual.{osu_gradual, GradualDifficulty}
use mamestagram_pp_rs.Any.Gradual as Any
use mamestagram_pp_rs.Any.Gradual.Nth.{nth-next_after}
use mamestagram_pp_rs.Model.HitObject.{HitObject, HitObjectKind, is_circle}
use mamestagram_pp_rs.Osu.Gradual as Osu
use mamestagram_pp_rs.Osu.Gradual.Nth as OsuNth
use mamestagram_pp_rs.Osu.Gradual.Steps as OsuSteps
use mamestagram_pp_rs.Osu.Gradual.Steps.{next-CountsDown_osu, of_map-IsValid_osu}
use mamestagram_pp_rs.Taiko.Gradual as Taiko
use mamestagram_pp_rs.Taiko.Gradual.Steps as TaikoSteps
use mamestagram_pp_rs.Taiko.Gradual.Steps.{Passes, next-Passes_taiko}
use mamestagram_pp_rs.Taiko.Gradual.Hits.{called}
use mamestagram_pp_rs.Taiko.Gradual.Length.{IsItem, IsEnd, returned, next-len_taiko}
use mamestagram_pp_rs.Catch.Gradual as Catch
use mamestagram_pp_rs.Catch.Gradual.Nth as CatchNth
use mamestagram_pp_rs.Catch.Gradual.Steps.{next-CountsDown_catch}
use mamestagram_pp_rs.Mania.Performance.{ManiaDifficultyAttributes}
use mamestagram_pp_rs.Mania.Objects.{difficulty_of}
use mamestagram_pp_rs.Mania.Gradual as Mania
use mamestagram_pp_rs.Mania.Gradual.Nth as ManiaNth
use mamestagram_pp_rs.Mania.Gradual.Steps as ManiaSteps
use mamestagram_pp_rs.Mania.Gradual.Steps.{next-CountsDown_mania, of_map-IsValid_mania}
use mamestagram_pp_rs.Mania.Gradual.Holds.{next-difficulty_mania}
use mamestagram_pp_rs.Tests.Common.{plain, nil, high}
use mamestagram_pp_rs.Tests.Modes.{
  map, modes, osu_parts, catch_parts, mania_parts, taiko_parts, hit_objects,
}

nth-next_after_example :
    Any.nth modes (osu_gradual (Osu.of_map osu_parts plain map)) 5
    ≡ next_after
        (Any.next modes)
        (min 5 (Any.len modes (osu_gradual (Osu.of_map osu_parts plain map)) - 1))
        (osu_gradual (Osu.of_map osu_parts plain map))
nth-next_after_example =
    nth-next_after modes (osu_gradual (Osu.of_map osu_parts plain map)) 5
      (of_map-IsValid_osu osu_parts plain map)

next-CountsDown_osu_example :
    CountsDown OsuNth.IsValid OsuSteps.left
      (Osu.of_map osu_parts plain map)
      (Osu.next osu_parts (Osu.of_map osu_parts plain map))
    × (0 < length (Osu.of_map osu_parts plain map).osu_objects
        → Osu.len osu_parts (Osu.of_map osu_parts plain map)
          ≡ OsuSteps.left (Osu.of_map osu_parts plain map))
next-CountsDown_osu_example =
    next-CountsDown_osu osu_parts (Osu.of_map osu_parts plain map)
      (of_map-IsValid_osu osu_parts plain map)

next-CountsDown_mania_example :
    CountsDown ManiaNth.IsValid ManiaSteps.left
      (Mania.of_map mania_parts plain map)
      (Mania.next mania_parts (Mania.of_map mania_parts plain map))
    × (0 < length (Mania.of_map mania_parts plain map).objects_is_circle
        → Mania.len mania_parts (Mania.of_map mania_parts plain map)
          ≡ ManiaSteps.left (Mania.of_map mania_parts plain map))
next-CountsDown_mania_example =
    next-CountsDown_mania mania_parts (Mania.of_map mania_parts plain map)
      (of_map-IsValid_mania mania_parts plain map)

-- Three fruits and droplets, of which the first is passed.
abbrev catch_state : Catch.Gradual catch_parts
catch_state = record {
  idx = 1;
  difficulty = plain;
  attrs = catch_parts.attrs plain map;
  count =
      record { fruit = true; tiny_droplets = 0 }
      ∷ record { fruit = false; tiny_droplets = 2 }
      ∷ record { fruit = true; tiny_droplets = 4 }
      ∷ [];
  diff_objects = 0 ∷ 1 ∷ [];
  movement = 0;
}

next-CountsDown_catch_example :
    CountsDown CatchNth.IsValid CatchNth.left catch_state (Catch.next catch_parts catch_state)
    × (0 < length catch_state.count → Catch.len catch_parts catch_state ≡ CatchNth.left catch_state)
next-CountsDown_catch_example =
    next-CountsDown_catch catch_parts catch_state
      (record { objects_len = refl; idx_le = omega arith })

next-Passes_taiko_example :
    Passes taiko_parts
      (Taiko.of_map taiko_parts plain map)
      (Taiko.next taiko_parts (Taiko.of_map taiko_parts plain map))
unfolding Taiko.of_map
next-Passes_taiko_example =
    next-Passes_taiko taiko_parts (Taiko.of_map taiko_parts plain map) (omega arith)

abbrev first_object : HitObject Approx (Unit {0})
first_object = record { pos_x = nil; start_time = nil; kind = HitObjectKind.circle }

abbrev second_object : HitObject Approx (Unit {0})
second_object = record { pos_x = nil; start_time = nil; kind = HitObjectKind.slider tt }

-- `len` is 2, and the second object is a slider and no hit, so that three calls return attributes.
next-len_taiko_example :
    let s = Taiko.of_map taiko_parts plain map in
    let n = returned taiko_parts plain map first_object second_object in
    ((k : ℕ) → k < n → IsItem taiko_parts (next_after (called taiko_parts) k s))
    × IsEnd taiko_parts (next_after (called taiko_parts) n s)
unfolding TaikoSteps.hits Taiko.count_circles Taiko.is_hit is_circle
next-len_taiko_example =
    next-len_taiko taiko_parts plain map first_object second_object (drop 2 hit_objects) refl refl
      (omega arith) (omega arith)

run-returned : returned taiko_parts plain map first_object second_object ≡ 3
unfolding Taiko.len Taiko.of_map Taiko.count_circles is_circle
run-returned = refl

-- The iterator after the first note and the second one, which is a hold note.
abbrev second_note : Mania.Gradual mania_parts
second_note = record (Mania.of_map mania_parts plain map) {
  idx = 2;
  strain = 1;
  note_state = record { curr_combo = 2; n_hold_notes = 1 };
}

abbrev second_attrs : ManiaDifficultyAttributes Approx
second_attrs = record {
  stars = high;
  n_objects = 2;
  n_hold_notes = 1;
  max_combo = 2;
  is_convert = false;
}

abbrev two_passed : Difficulty (Unit {0}) Approx (Unit {0})
two_passed = record plain { passed_objects = some 2 }

next-difficulty_mania_example :
    (1 ≡ (difficulty_of mania_parts two_passed map).n_hold_notes)
    × (2 ≡ (difficulty_of mania_parts two_passed map).n_objects)
unfolding Mania.next Mania.of_map Mania.pass_note Mania.finish Mania.current ◌+u◌ get_passed_objects
next-difficulty_mania_example =
    next-difficulty_mania mania_parts plain two_passed map 1 second_note second_attrs refl refl
