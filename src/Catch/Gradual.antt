-- ===== src/Catch/Gradual.antt =====
-- src/catch/difficulty/gradual.rs: the difficulty of a map after each of its fruits and droplets. A panic
-- is `none`. The skill and the formulas are functions that `GradualParts` holds.
pub mod Nth
pub mod Steps
use mamestagram_pp_rs.Prelude.{
  ℕ, ◌+◌, ◌-◌, min, Bool, ◌&&◌, Option, none, some, Result, ok, err, List, [], ◌∷◌, length,
  get_elem?, take, drop, ltb, ◌==◌, if◌then◌else◌, ◌>>=◌, for_each,
}
use mamestagram_pp_rs.Any.Settings.{GameMode, Difficulty, ConvertError}
use mamestagram_pp_rs.Model.Beatmap.{Beatmap, cow_value, Converters, convert_ref}
use mamestagram_pp_rs.Catch.Performance.{CatchDifficultyAttributes}
use mamestagram_pp_rs.Catch.Counts.{GradualObjectCount, new_gradual, into_gradual, add_object_count}
use mamestagram_pp_rs.Catch.JuiceStream.{PalpableObject, CatchParts}
use mamestagram_pp_rs.Catch.Objects.{convert_objects}

pub record GradualParts (Content Mods A R Slider Object Movement : Type 0) : Type 0 where
  pub objects : CatchParts (Beatmap Content) A Slider
  -- `map_attrs.cs`, and the attributes at first
  pub circle_size : Difficulty Mods A R → Beatmap Content → A
  pub attrs : Difficulty Mods A R → Beatmap Content → CatchDifficultyAttributes A
  pub hardrock_offsets : Difficulty Mods A R → Bool
  -- whether the mods reflect objects horizontally
  pub reflection : Mods → Bool
  -- `half_catcher_width` for a circle size
  pub catcher_width : A → A
  pub clock_rate : Difficulty Mods A R → A
  -- `CatchDifficultyObject::new` for an object, the one before, the clock rate, the width and an index
  pub difficulty_object : PalpableObject A → PalpableObject A → A → A → ℕ → Object
  pub movement : A → A → Movement
  pub process : Object → List Object → Movement → Movement
  -- the stars for `movement.cloned_difficulty_value()`
  pub stars : Movement → A

pub record CatchGradualDifficulty (Mods A R Object Movement : Type 0) : Type 0 where
  pub idx : ℕ
  pub difficulty : Difficulty Mods A R
  pub attrs : CatchDifficultyAttributes A
  pub count : List GradualObjectCount
  pub diff_objects : List Object
  pub movement : Movement

module _ {Content Mods A R Slider Object Movement : Type 0}
    (parts : GradualParts Content Mods A R Slider Object Movement) where
  abbrev pub Gradual : Type 0
  Gradual = CatchGradualDifficulty Mods A R Object Movement

  -- `self.attrs.add_object_count(self.count[self.idx]); self.idx += 1`
  unfoldable pub add_count : Gradual → Option Gradual
  unfolding add_object_count
  add_count s = do
    count ← get_elem? s.count s.idx
    some (record s { attrs = add_object_count count s.attrs; idx = s.idx + 1 })

  unfoldable pub eval : Gradual → CatchDifficultyAttributes A
  eval s = record s.attrs { stars = parts.stars s.movement }

  -- The loop's body in `nth`.
  unfoldable pub pass : Object → Gradual → Option Gradual
  unfolding add_count
  pass curr s = add_count (record s { movement = parts.process curr s.diff_objects s.movement })

  unfoldable pub next : Gradual → Option (Option (CatchDifficultyAttributes A) × Gradual)
  unfolding add_count pass eval
  next s =
      if ltb 0 s.idx
      then elim (get_elem? s.diff_objects (s.idx - 1)) [
        | none ↦ some (none, s)
        | some curr ↦ pass curr s >>= λ s'. some (some (eval s'), s')
      ]
      else if length s.count == 0
      then some (none, s)
      else add_count s >>= λ s'. some (some (eval s'), s')

  unfoldable pub len : Gradual → ℕ
  len s = length s.diff_objects + 1 - s.idx

  unfoldable pub size_hint : Gradual → ℕ × Option ℕ
  unfolding len
  size_hint s = let n = len s in (n, some n)

  unfoldable pub nth : Gradual → ℕ → Option (Option (CatchDifficultyAttributes A) × Gradual)
  unfolding len add_count pass next
  nth s n =
      let skip_iter = drop (s.idx - 1) s.diff_objects in
      let n_take = min n (len s - 1) in
      if s.idx == 0 && ltb 0 n_take
      then (do s ← add_count s; s ← for_each pass (take (n_take - 1) skip_iter) s; next s)
      else (do s ← for_each pass (take n_take skip_iter) s; next s)

  -- The objects after the first, each with its index and the one before.
  unfoldable pub create_from : A → A → PalpableObject A → List (PalpableObject A) → ℕ → List Object
  create_from clock_rate half_catcher_width last_object [] i = []
  create_from clock_rate half_catcher_width last_object (hit_object ∷ rest) i =
      parts.difficulty_object hit_object last_object clock_rate half_catcher_width i
      ∷ create_from clock_rate half_catcher_width hit_object rest (i + 1)

  unfoldable pub create_difficulty_objects : A → A → List (PalpableObject A) → List Object
  unfolding create_from
  create_difficulty_objects clock_rate half_catcher_width [] = []
  create_difficulty_objects clock_rate half_catcher_width (last_object ∷ rest) =
      create_from clock_rate half_catcher_width last_object rest 0

  -- What `new` returns for the counts and the objects of a map.
  unfoldable pub start :
      Difficulty Mods A R
      → Beatmap Content
      → List GradualObjectCount
      → List (PalpableObject A)
      → Gradual
  unfolding create_difficulty_objects
  start difficulty map count palpable_objects =
      let half_catcher_width = parts.catcher_width (parts.circle_size difficulty map) in
      let clock_rate = parts.clock_rate difficulty in
      record {
        idx = 0;
        difficulty = difficulty;
        attrs = record (parts.attrs difficulty map) {
          n_fruits = 0;
          n_droplets = 0;
          n_tiny_droplets = 0;
        };
        count = count;
        diff_objects = create_difficulty_objects clock_rate half_catcher_width palpable_objects;
        movement = parts.movement half_catcher_width clock_rate;
      }

  -- `new` from the line that has the map.
  unfoldable pub of_map : Difficulty Mods A R → Beatmap Content → Option Gradual
  unfolding new_gradual into_gradual convert_objects start
  of_map difficulty map = do
    let cs = parts.circle_size difficulty map
    let reflection = parts.reflection difficulty.mods
    let hr_offsets = parts.hardrock_offsets difficulty
    (palpable_objects, count) ←
        convert_objects parts.objects map new_gradual reflection hr_offsets cs
    count ← into_gradual count
    some (start difficulty map count palpable_objects)

  unfoldable pub new :
      Converters Mods Content
      → Difficulty Mods A R
      → Beatmap Content
      → Option (Result Gradual ConvertError)
  unfolding convert_ref of_map
  new converters difficulty map = do
    r ← convert_ref converters map GameMode.catch difficulty.mods
    elim r [
      | ok map' ↦ of_map difficulty (cow_value map') >>= λ s. some (ok s)
      | err e ↦ some (err e)
    ]
