-- ===== src/Catch/Counts.antt =====
-- The counts of objects of src/catch/attributes.rs, which are built either as the sums over the objects
-- passed or object by object.
pub mod Deltas
use mamestagram_pp_rs.Prelude.{
  ℕ, ◌-◌, Bool, true, false, Option, none, some, List, [], ◌∷◌, ◌++◌, ltb, if◌then◌else◌, ◌+u◌,
}
use mamestagram_pp_rs.Catch.Performance.{CatchDifficultyAttributes}

pub record ObjectCount : Type 0 where
  pub fruits : ℕ
  pub droplets : ℕ
  pub tiny_droplets : ℕ

-- The tiny droplets between an object and the one before, and whether it is a fruit.
pub record GradualObjectCount : Type 0 where
  pub fruit : Bool
  pub tiny_droplets : ℕ

pub data ObjectCountBuilder : Type 0 where
  regular : ObjectCount → ℕ → ObjectCountBuilder
  gradual : GradualObjectCount → List GradualObjectCount → ObjectCountBuilder

-- `ObjectCount::default()` and `GradualObjectCount::default()`
abbrev pub no_objects : ObjectCount
no_objects = record { fruits = 0; droplets = 0; tiny_droplets = 0 }

abbrev pub no_delta : GradualObjectCount
no_delta = record { fruit = false; tiny_droplets = 0 }

unfoldable pub new_regular : ℕ → ObjectCountBuilder
new_regular take = ObjectCountBuilder.regular no_objects take

unfoldable pub new_gradual : ObjectCountBuilder
new_gradual = ObjectCountBuilder.gradual no_delta []

-- `none` is `unreachable!()`, which panics.
unfoldable pub into_regular : ObjectCountBuilder → Option ObjectCount
into_regular (ObjectCountBuilder.regular count _) = some count
into_regular (ObjectCountBuilder.gradual _ _) = none

unfoldable pub into_gradual : ObjectCountBuilder → Option (List GradualObjectCount)
into_gradual (ObjectCountBuilder.regular _ _) = none
into_gradual (ObjectCountBuilder.gradual _ all) = some all

unfoldable pub record_fruit : ObjectCountBuilder → ObjectCountBuilder
record_fruit (ObjectCountBuilder.regular count take) =
    if ltb 0 take
    then ObjectCountBuilder.regular (record count { fruits = count.fruits +u 1 }) (take - 1)
    else ObjectCountBuilder.regular count take
record_fruit (ObjectCountBuilder.gradual count all) =
    ObjectCountBuilder.gradual no_delta (all ++ record count { fruit = true } ∷ [])

unfoldable pub record_droplet : ObjectCountBuilder → ObjectCountBuilder
record_droplet (ObjectCountBuilder.regular count take) =
    if ltb 0 take
    then ObjectCountBuilder.regular (record count { droplets = count.droplets +u 1 }) (take - 1)
    else ObjectCountBuilder.regular count take
record_droplet (ObjectCountBuilder.gradual count all) =
    ObjectCountBuilder.gradual no_delta (all ++ count ∷ [])

unfoldable pub record_tiny_droplets : ℕ → ObjectCountBuilder → ObjectCountBuilder
record_tiny_droplets n (ObjectCountBuilder.regular count take) =
    if ltb 0 take
    then ObjectCountBuilder.regular (record count { tiny_droplets = count.tiny_droplets +u n }) take
    else ObjectCountBuilder.regular count take
record_tiny_droplets n (ObjectCountBuilder.gradual count all) =
    ObjectCountBuilder.gradual (record count { tiny_droplets = count.tiny_droplets +u n }) all

module _ {A : Type 0} where
  unfoldable pub set_object_count :
      ObjectCount → CatchDifficultyAttributes A → CatchDifficultyAttributes A
  set_object_count count attrs = record attrs {
    n_fruits = count.fruits;
    n_droplets = count.droplets;
    n_tiny_droplets = count.tiny_droplets;
  }

  unfoldable pub add_object_count :
      GradualObjectCount → CatchDifficultyAttributes A → CatchDifficultyAttributes A
  add_object_count count attrs =
      let attrs' =
        if count.fruit
        then record attrs { n_fruits = attrs.n_fruits +u 1 }
        else record attrs { n_droplets = attrs.n_droplets +u 1 } in
      record attrs' { n_tiny_droplets = attrs'.n_tiny_droplets +u count.tiny_droplets }
