-- ===== src/Mania/Objects.antt =====
-- The objects of a map for osu!mania and their difficulty: src/mania/object.rs, the difficulty object and
-- src/mania/difficulty/mod.rs. The durations of sliders, the columns and the skill are fields of
-- `ManiaParts`.
pub mod Holds
use mamestagram_pp_rs.Prelude.{
  ℕ, zero, suc, ◌+◌, ◌%◌, min, Option, none, some, Result, ok, err, List, [], ◌∷◌, length, take,
  ◌>>=◌, ◌+u◌, u32_mod,
}
use mamestagram_pp_rs.F64.{F64}
use mamestagram_pp_rs.Any.Settings.{GameMode, Difficulty, ConvertError, get_passed_objects}
use mamestagram_pp_rs.Model.Beatmap.{Beatmap, cow_value, Converters, convert_ref}
use mamestagram_pp_rs.Model.HitObject.{HitObjectKind, HitObject}
use mamestagram_pp_rs.Mania.Performance.{ManiaDifficultyAttributes}

pub record ManiaObject (A : Type 0) : Type 0 where
  pub start_time : A
  pub end_time : A
  pub column : ℕ

-- Without the map, which is an argument, and the buffers.
pub record ObjectParams : Type 0 where
  pub max_combo : ℕ
  pub n_hold_notes : ℕ

-- `ObjectParams::new`
abbrev pub no_params : ObjectParams
no_params = record { max_combo = 0; n_hold_notes = 0 }

pub record ManiaDifficultyObject (A : Type 0) : Type 0 where
  pub idx : ℕ
  pub base_column : ℕ
  pub delta_time : A
  pub start_time : A
  pub end_time : A

pub record ManiaParts (Content Mods A R Slider Strain : Type 0) : Type 0 where
  pub hit_objects : Content → List (HitObject A Slider)
  -- `map.cs.round_ties_even().max(1.0)`
  pub total_columns : Content → A
  -- `ManiaObject::column`
  pub column : A → A → ℕ
  -- the duration of a slider that starts at a time
  pub slider_duration : Beatmap Content → A → Slider → A
  pub clock_rate : Difficulty Mods A R → A
  -- `Strain::new` for a number of columns
  pub strain : A → Strain
  pub process : ManiaDifficultyObject A → List (ManiaDifficultyObject A) → Strain → Strain
  -- the stars for the difficulty value of the strain
  pub stars : Strain → A

-- `DifficultyValues`
pub record DifficultyValues (Strain : Type 0) : Type 0 where
  pub strain : Strain
  pub max_combo : ℕ
  pub n_hold_notes : ℕ

module _ {Content Mods A R Slider Strain : Type 0} ⦃f : F64 A⦄
    (parts : ManiaParts Content Mods A R Slider Strain) where
  -- An object that ends after a duration.
  unfoldable pub hold_object : A → A → ℕ → ObjectParams → ManiaObject A × ObjectParams
  hold_object start_time duration column params = (
    record { start_time = start_time; end_time = f.add start_time duration; column = column },
    record {
      max_combo = params.max_combo +u f.as_u32 (f.div duration (f.from_u32 100));
      n_hold_notes = params.n_hold_notes +u 1;
    },
  )

  -- `match h.kind`
  unfoldable pub of_kind :
      Beatmap Content → A → ℕ → HitObjectKind A Slider → ObjectParams → ManiaObject A × ObjectParams
  unfolding hold_object
  of_kind map start_time column HitObjectKind.circle params =
      (record { start_time = start_time; end_time = start_time; column = column }, params)
  of_kind map start_time column (HitObjectKind.slider s) params =
      hold_object start_time (parts.slider_duration map start_time s) column params
  of_kind map start_time column (HitObjectKind.spinner duration) params =
      hold_object start_time duration column params
  of_kind map start_time column (HitObjectKind.hold duration) params =
      hold_object start_time duration column params

  unfoldable pub mania_object :
      Beatmap Content → HitObject A Slider → A → ObjectParams → ManiaObject A × ObjectParams
  unfolding of_kind
  mania_object map h total_columns params =
      of_kind map h.start_time (parts.column h.pos_x total_columns) h.kind
        (record params { max_combo = params.max_combo +u 1 })

  -- The objects that the iterator makes, one after the other.
  unfoldable pub mania_objects :
      Beatmap Content
      → A
      → List (HitObject A Slider)
      → ObjectParams
      → List (ManiaObject A) × ObjectParams
  unfolding mania_object
  mania_objects map total_columns [] params = ([], params)
  mania_objects map total_columns (h ∷ hs) params =
      let (object, params) = mania_object map h total_columns params in
      let (rest, params) = mania_objects map total_columns hs params in (object ∷ rest, params)

  -- `ManiaDifficultyObject::new`
  unfoldable pub difficulty_object : ManiaObject A → ManiaObject A → A → ℕ → ManiaDifficultyObject A
  difficulty_object base last clock_rate idx = record {
    idx = idx;
    base_column = base.column;
    delta_time = f.div (f.sub base.start_time last.start_time) clock_rate;
    start_time = f.div base.start_time clock_rate;
    end_time = f.div base.end_time clock_rate;
  }

  -- `scan` over the objects after the first.
  unfoldable pub create_from :
      A → ManiaObject A → List (ManiaObject A) → ℕ → List (ManiaDifficultyObject A)
  unfolding difficulty_object
  create_from clock_rate last [] i = []
  create_from clock_rate last (base ∷ rest) i =
      difficulty_object base last clock_rate i ∷ create_from clock_rate base rest (i + 1)

  unfoldable pub create_difficulty_objects :
      A → List (ManiaObject A) → List (ManiaDifficultyObject A)
  unfolding create_from
  create_difficulty_objects clock_rate [] = []
  create_difficulty_objects clock_rate (first ∷ rest) = create_from clock_rate first rest 0

  -- `for curr in diff_objects.iter()`
  unfoldable pub process_all :
      List (ManiaDifficultyObject A) → List (ManiaDifficultyObject A) → Strain → Strain
  process_all [] diff_objects strain = strain
  process_all (curr ∷ rest) diff_objects strain =
      process_all rest diff_objects (parts.process curr diff_objects strain)

  -- `DifficultyValues::calculate`
  unfoldable pub calculate : Difficulty Mods A R → Beatmap Content → DifficultyValues Strain
  unfolding get_passed_objects mania_objects create_difficulty_objects process_all
  calculate difficulty map =
      let n_take = get_passed_objects difficulty in
      let total_columns = parts.total_columns map.content in
      let (objects, params) =
        mania_objects map total_columns (take n_take (parts.hit_objects map.content)) no_params in
      let diff_objects = create_difficulty_objects (parts.clock_rate difficulty) objects in
      record {
        strain = process_all diff_objects diff_objects (parts.strain total_columns);
        max_combo = params.max_combo;
        n_hold_notes = params.n_hold_notes;
      }

  -- `difficulty` from the line that has the map.
  unfoldable pub difficulty_of : Difficulty Mods A R → Beatmap Content → ManiaDifficultyAttributes A
  unfolding get_passed_objects calculate
  difficulty_of difficulty map =
      let n_objects =
        min (get_passed_objects difficulty) (length (parts.hit_objects map.content)) in
      let values = calculate difficulty map in
      record {
        stars = parts.stars values.strain;
        max_combo = values.max_combo;
        n_objects = n_objects % u32_mod;
        n_hold_notes = values.n_hold_notes;
        is_convert = map.is_convert;
      }

  unfoldable pub difficulty :
      Converters Mods Content
      → Difficulty Mods A R
      → Beatmap Content
      → Option (Result (ManiaDifficultyAttributes A) ConvertError)
  unfolding convert_ref difficulty_of
  difficulty converters settings map = do
    r ← convert_ref converters map GameMode.mania settings.mods
    elim r [ ok map' ↦ some (ok (difficulty_of settings (cow_value map'))) | err e ↦ some (err e) ]
