-- ===== src/Catch/Objects.antt =====
-- How osu!catch makes fruits and droplets of the objects of a map: src/catch/convert.rs.
pub mod Counted
pub mod Totals
use mamestagram_pp_rs.Prelude.{
  ℕ, zero, suc, Bool, true, false, Option, none, some, List, [], ◌∷◌, ◌++◌, ◌*◌, ◌>>=◌, map,
  if◌then◌else◌,
}
use mamestagram_pp_rs.Util.Random.{ℤ, Random, new, next_int}
use mamestagram_pp_rs.Model.HitObject.{HitObjectKind, HitObject}
use mamestagram_pp_rs.Catch.Counts.{ObjectCountBuilder, record_fruit}
use mamestagram_pp_rs.Catch.JuiceStream.{
  NestedJuiceStreamObjectKind, PalpableObject, ObjectIterState, ObjectIter, Offsets, CatchParts,
  Nested, stream_from,
}

-- `if let NestedJuiceStreamObjectKind::Droplet | TinyDroplet`
unfoldable pub is_droplet : NestedJuiceStreamObjectKind → Bool
is_droplet NestedJuiceStreamObjectKind.fruit = false
is_droplet NestedJuiceStreamObjectKind.droplet = true
is_droplet NestedJuiceStreamObjectKind.tiny_droplet = true

-- `next_int` so many times.
unfoldable pub draw : ℕ → Random → Random
unfolding next_int
draw zero r = r
draw (suc n) r = draw n (next_int r).1

module _ {Content A Slider : Type 0} (parts : CatchParts Content A Slider) where
  -- `match h.kind`
  unfoldable pub convert_kind :
      Content
      → A
      → A
      → HitObjectKind A Slider
      → ObjectCountBuilder
      → ObjectIterState A Slider × ObjectCountBuilder
  unfolding record_fruit stream_from
  convert_kind map x start_time HitObjectKind.circle count =
      (ObjectIterState.fruit (some parts.zero_pos), record_fruit count)
  convert_kind map x start_time (HitObjectKind.slider s) count =
      let (nested, count) =
        stream_from parts (parts.clamp_x x) s none (parts.events s start_time map) count in
      (ObjectIterState.juice_stream s nested, count)
  convert_kind map x start_time (HitObjectKind.spinner duration) count =
      (ObjectIterState.banana_shower (parts.n_bananas start_time duration), count)
  convert_kind map x start_time (HitObjectKind.hold duration) count =
      (ObjectIterState.banana_shower (parts.n_bananas start_time duration), count)

  unfoldable pub convert_object :
      HitObject A Slider → Content → ObjectCountBuilder → ObjectIter A Slider × ObjectCountBuilder
  unfolding convert_kind
  convert_object h map count =
      let (state, count) = convert_kind map h.pos_x h.start_time h.kind count in
      (record { x = h.pos_x; start_time = h.start_time; state = state }, count)

  abbrev palpable : A → A → A → PalpableObject A
  palpable x x_offset start_time = record {
    x = x;
    x_offset = x_offset;
    start_time = start_time;
    dist_to_hyper_dash = parts.zero_pos;
    hyper_dash = false;
  }

  -- `find` passes over the tiny droplets.
  unfoldable pub found :
      NestedJuiceStreamObjectKind
      → PalpableObject A
      → List (PalpableObject A)
      → List (PalpableObject A)
  found NestedJuiceStreamObjectKind.fruit object rest = object ∷ rest
  found NestedJuiceStreamObjectKind.droplet object rest = object ∷ rest
  found NestedJuiceStreamObjectKind.tiny_droplet object rest = rest

  -- The nested objects but the tiny droplets.
  unfoldable pub palpable_nested : List (Nested parts) → List (PalpableObject A)
  unfolding found
  palpable_nested [] = []
  palpable_nested (n ∷ ns) =
      found n.kind (palpable n.pos parts.zero_pos n.start_time) (palpable_nested ns)

  -- What `ObjectIter::next` returns until it returns nothing.
  unfoldable pub collect : A → A → ObjectIterState A Slider → List (PalpableObject A)
  unfolding palpable_nested
  collect x start_time (ObjectIterState.fruit none) = []
  collect x start_time (ObjectIterState.fruit (some x_offset)) = palpable x x_offset start_time ∷ []
  collect x start_time (ObjectIterState.juice_stream _ nested) = palpable_nested nested
  collect x start_time (ObjectIterState.banana_shower _) = []

  unfoldable pub count_droplets : List (Nested parts) → ℕ
  unfolding is_droplet
  count_droplets [] = 0
  count_droplets (n ∷ ns) =
      let rest = count_droplets ns in if is_droplet n.kind then suc rest else rest

  -- `apply_pos_offset` for the state of an object; `none` is `unreachable!()`, which panics.
  unfoldable pub apply_pos_offset :
      A
      → A
      → Bool
      → ObjectIterState A Slider
      → Offsets A
      → Option (ObjectIterState A Slider × Offsets A)
  unfolding draw count_droplets
  apply_pos_offset x start_time hr_offsets (ObjectIterState.fruit none) o = none
  apply_pos_offset x start_time hr_offsets (ObjectIterState.fruit (some x_offset)) o =
      let (x_offset', o') = parts.apply_hr_offset x x_offset start_time o in
      some (
        if hr_offsets
        then (ObjectIterState.fruit (some x_offset'), o')
        else (ObjectIterState.fruit (some x_offset), o))
  apply_pos_offset x start_time hr_offsets (ObjectIterState.juice_stream s nested) o = some (
    ObjectIterState.juice_stream s nested,
    record {
      last_pos = some (parts.end_x x s);
      last_start_time = start_time;
      rng = draw (count_droplets nested) o.rng;
    },
  )
  apply_pos_offset x start_time hr_offsets (ObjectIterState.banana_shower n) o =
      some (ObjectIterState.banana_shower n, record o { rng = draw (n * 4) o.rng })

  -- The loop of `convert_objects` over the objects of the map.
  unfoldable pub convert_from :
      Content
      → Bool
      → List (HitObject A Slider)
      → Offsets A
      → ObjectCountBuilder
      → Option (List (PalpableObject A) × ObjectCountBuilder)
  unfolding convert_object apply_pos_offset collect
  convert_from map hr_offsets [] o count = some ([], count)
  convert_from map hr_offsets (h ∷ hs) o count = do
    let (new_objects, count) = convert_object h map count
    (state, o) ←
        apply_pos_offset new_objects.x new_objects.start_time hr_offsets new_objects.state o
    (rest, count) ← convert_from map hr_offsets hs o count
    some (collect new_objects.x new_objects.start_time state ++ rest, count)

  unfoldable pub reflect : PalpableObject A → PalpableObject A
  reflect h = record h { x = parts.reflect_x h.x; x_offset = parts.neg h.x_offset }

  -- `horizontal` is `Reflection::Horizontal`.
  unfoldable pub convert_objects :
      Content
      → ObjectCountBuilder
      → Bool
      → Bool
      → A
      → Option (List (PalpableObject A) × ObjectCountBuilder)
  unfolding convert_from reflect new
  convert_objects content count horizontal hr_offsets cs = do
    let start : Offsets A = record {
      last_pos = none;
      last_start_time = parts.zero_pos;
      rng = new (ℤ.pos 1337);
    }
    (palpable_objects, count) ←
        convert_from content hr_offsets (parts.hit_objects content) start count
    let reflected = if horizontal then map reflect palpable_objects else palpable_objects
    some (parts.arrange cs reflected, count)
