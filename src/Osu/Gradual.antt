-- ===== src/Osu/Gradual.antt =====
-- src/osu/difficulty/gradual.rs: the difficulty of a map after each of its objects. A panic is `none`.
-- The skills and the formulas are functions that `OsuParts` holds.
pub mod Nth
pub mod Steps
use mamestagram_pp_rs.Prelude.{
  ℕ, zero, suc, ◌+◌, ◌-◌, ◌%◌, min, Bool, true, false, ◌&&◌, Option, none, some, Result, ok, err,
  List, [], ◌∷◌, ◌++◌, length, get_elem?, take, drop, ltb, leb, ◌==◌, if◌then◌else◌, ◌>>=◌, ◌+u◌,
  u32_mod,
}
use mamestagram_pp_rs.F64.{F64}
use mamestagram_pp_rs.Any.Settings.{GameMode, Difficulty, ConvertError}
use mamestagram_pp_rs.Model.Beatmap.{Beatmap, Cow, cow_value, Converters, convert_ref}
use mamestagram_pp_rs.Osu.Performance.{OsuDifficultyAttributes}

pub data NestedSliderObjectKind : Type 0 where
  repeat tail tick : NestedSliderObjectKind

pub record OsuSlider : Type 0 where
  pub nested_objects : List NestedSliderObjectKind

pub data OsuObjectKind : Type 0 where
  circle : OsuObjectKind
  slider : OsuSlider → OsuObjectKind
  spinner : OsuObjectKind

-- With what is not counted, positions and times, as `Rest`.
pub record OsuObject (Rest : Type 0) : Type 0 where
  pub kind : OsuObjectKind
  pub rest : Rest

pub record OsuDifficultyObject (Rest Extra : Type 0) : Type 0 where
  pub base : OsuObject Rest
  pub extra : Extra

-- What the iterator calls: the setup, the skills and the formulas.
pub record OsuParts (Content Mods A R Skills Rest Extra : Type 0) : Type 0 where
  pub setup : Difficulty Mods A R → Beatmap Content → OsuDifficultyAttributes A
  pub objects : Difficulty Mods A R → Beatmap Content → List (OsuObject Rest)
  pub peppy_stars : Beatmap Content → A
  pub difficulty_object :
      Difficulty Mods A R
      → Beatmap Content
      → OsuObject Rest
      → OsuObject Rest
      → List (OsuDifficultyObject Rest Extra)
      → ℕ
      → OsuDifficultyObject Rest Extra
  pub skills : Difficulty Mods A R → Beatmap Content → Skills
  pub aim : OsuDifficultyObject Rest Extra → List (OsuDifficultyObject Rest Extra) → Skills → Skills
  pub aim_no_sliders :
      OsuDifficultyObject Rest Extra → List (OsuDifficultyObject Rest Extra) → Skills → Skills
  pub speed :
      OsuDifficultyObject Rest Extra → List (OsuDifficultyObject Rest Extra) → Skills → Skills
  pub flashlight :
      OsuDifficultyObject Rest Extra → List (OsuDifficultyObject Rest Extra) → Skills → Skills
  pub reading :
      OsuDifficultyObject Rest Extra → List (OsuDifficultyObject Rest Extra) → Skills → Skills
  pub eval : OsuDifficultyAttributes A → Mods → Skills → OsuDifficultyAttributes A
  pub nested_score : List (OsuObject Rest) → ℕ → A
  pub combo_score : List (OsuObject Rest) → A → A

pub record OsuGradualDifficulty (Mods A R Skills Rest Extra : Type 0) : Type 0 where
  pub idx : ℕ
  pub difficulty : Difficulty Mods A R
  pub attrs : OsuDifficultyAttributes A
  pub skills : Skills
  pub diff_objects : List (OsuDifficultyObject Rest Extra)
  pub osu_objects : List (OsuObject Rest)

-- Counts both ticks and repeats.
unfoldable pub large_tick_count : List NestedSliderObjectKind → ℕ
large_tick_count [] = 0
large_tick_count (tick ∷ xs) = suc (large_tick_count xs)
large_tick_count (repeat ∷ xs) = suc (large_tick_count xs)
large_tick_count (tail ∷ xs) = large_tick_count xs

unfoldable pub increment_combo :
    {A : Type 0} → OsuObjectKind → OsuDifficultyAttributes A → OsuDifficultyAttributes A
unfolding large_tick_count
increment_combo circle attrs = record attrs {
  max_combo = attrs.max_combo +u 1;
  n_circles = attrs.n_circles +u 1;
}
increment_combo (slider s) attrs = record attrs {
  max_combo = attrs.max_combo +u 1 +u length s.nested_objects % u32_mod;
  n_sliders = attrs.n_sliders +u 1;
  n_large_ticks = attrs.n_large_ticks +u large_tick_count s.nested_objects % u32_mod;
}
increment_combo spinner attrs = record attrs {
  max_combo = attrs.max_combo +u 1;
  n_spinners = attrs.n_spinners +u 1;
}

module _ {Content Mods A R Skills Rest Extra : Type 0}
    (parts : OsuParts Content Mods A R Skills Rest Extra) where
  abbrev pub Gradual : Type 0
  Gradual = OsuGradualDifficulty Mods A R Skills Rest Extra

  -- `OsuSkills::process`
  unfoldable pub process :
      OsuDifficultyObject Rest Extra → List (OsuDifficultyObject Rest Extra) → Skills → Skills
  process curr objects skills =
      let skills = parts.aim curr objects skills in
      let skills = parts.aim_no_sliders curr objects skills in
      let skills = parts.speed curr objects skills in
      let skills = parts.flashlight curr objects skills in parts.reading curr objects skills

  unfoldable pub update_legacy_score_attributes : Gradual → Option Gradual
  update_legacy_score_attributes s =
      if leb s.idx (length s.osu_objects)
      then some (
          let objects = take s.idx s.osu_objects in
          record s {
            attrs = record s.attrs {
              nested_score_per_object = parts.nested_score objects (s.idx % u32_mod);
              maximum_legacy_combo_score =
                  parts.combo_score objects s.attrs.legacy_score_base_multiplier;
            };
          })
      else none

  -- `next` from the line that increments `idx`.
  unfoldable pub finish : Gradual → Option (Option (OsuDifficultyAttributes A) × Gradual)
  unfolding update_legacy_score_attributes
  finish s = do
    s' ← update_legacy_score_attributes (record s { idx = s.idx + 1 })
    some (some (parts.eval s'.attrs s'.difficulty.mods s'.skills), s')

  -- A difficulty object processed, without its index.
  unfoldable pub pass : OsuDifficultyObject Rest Extra → Gradual → Gradual
  unfolding process increment_combo
  pass curr s = record s {
    skills = process curr s.diff_objects s.skills;
    attrs = increment_combo curr.base.kind s.attrs;
  }

  unfoldable pub next : Gradual → Option (Option (OsuDifficultyAttributes A) × Gradual)
  unfolding pass finish
  next s =
      if ltb 0 s.idx
      then elim (get_elem? s.diff_objects (s.idx - 1)) [
        | none ↦ some (none, s)
        | some curr ↦ finish (pass curr s)
      ]
      else (if length s.osu_objects == 0 then some (none, s) else finish s)

  unfoldable pub len : Gradual → ℕ
  len s = length s.diff_objects + 1 - s.idx

  unfoldable pub size_hint : Gradual → ℕ × Option ℕ
  unfolding len
  size_hint s = let n = len s in (n, some n)

  -- `for curr in skip_iter.take(take)`
  unfoldable pub pass_all : List (OsuDifficultyObject Rest Extra) → Gradual → Gradual
  unfolding pass
  pass_all [] s = s
  pass_all (curr ∷ rest) s = pass_all rest (let s' = pass curr s in record s' { idx = s'.idx + 1 })

  unfoldable pub nth : Gradual → ℕ → Option (Option (OsuDifficultyAttributes A) × Gradual)
  unfolding len pass_all next
  nth s n =
      let skip_iter = drop (s.idx - 1) s.diff_objects in
      let n_take = min n (len s - 1) in
      if s.idx == 0 && ltb 0 n_take
      then next (pass_all (take (n_take - 1) skip_iter) (record s { idx = s.idx + 1 }))
      else next (pass_all (take n_take skip_iter) s)

  -- The loop of `create_difficulty_objects`.
  unfoldable pub create_from :
      Difficulty Mods A R
      → Beatmap Content
      → OsuObject Rest
      → List (OsuObject Rest)
      → List (OsuDifficultyObject Rest Extra)
      → List (OsuDifficultyObject Rest Extra)
  create_from difficulty map last [] diff_objects = diff_objects
  create_from difficulty map last (h ∷ rest) diff_objects =
      let object =
        parts.difficulty_object difficulty map h last diff_objects (length diff_objects) in
      create_from difficulty map h rest (diff_objects ++ object ∷ [])

  unfoldable pub create_difficulty_objects :
      Difficulty Mods A R
      → Beatmap Content
      → List (OsuObject Rest)
      → List (OsuDifficultyObject Rest Extra)
  unfolding create_from
  create_difficulty_objects difficulty map [] = []
  create_difficulty_objects difficulty map (h ∷ rest) = create_from difficulty map h rest []

  abbrev increment_first :
      List (OsuObject Rest) → OsuDifficultyAttributes A → OsuDifficultyAttributes A
  unfolding increment_combo
  increment_first [] attrs = attrs
  increment_first (h ∷ _) attrs = increment_combo h.kind attrs

  module _ ⦃f : F64 A⦄ where
    -- `new` from the line that has the map.
    unfoldable pub of_map : Difficulty Mods A R → Beatmap Content → Gradual
    unfolding create_difficulty_objects increment_first
    of_map difficulty map =
        let osu_objects = parts.objects difficulty map in
        let attrs = record (parts.setup difficulty map) {
          legacy_score_base_multiplier = parts.peppy_stars map;
          nested_score_per_object = f.from_u32 0;
          maximum_legacy_combo_score = f.from_u32 0;
          n_circles = 0;
          n_sliders = 0;
          n_large_ticks = 0;
          n_spinners = 0;
          max_combo = 0;
        } in
        record {
          idx = 0;
          difficulty = difficulty;
          attrs = increment_first osu_objects attrs;
          skills = parts.skills difficulty map;
          diff_objects = create_difficulty_objects difficulty map osu_objects;
          osu_objects = osu_objects;
        }

    unfoldable pub new :
        Converters Mods Content
        → Difficulty Mods A R
        → Beatmap Content
        → Option (Result Gradual ConvertError)
    unfolding convert_ref of_map
    new converters difficulty map = do
      r ← convert_ref converters map GameMode.osu difficulty.mods
      elim r [ ok map' ↦ some (ok (of_map difficulty (cow_value map'))) | err e ↦ some (err e) ]
