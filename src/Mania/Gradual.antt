-- ===== src/Mania/Gradual.antt =====
-- src/mania/difficulty/gradual.rs: the difficulty of a map after each of its notes. A panic is `none`.
pub mod Holds
pub mod Nth
pub mod Steps
use mamestagram_pp_rs.Prelude.{
  ℕ, ◌+◌, ◌-◌, ◌%◌, min, Bool, ◌&&◌, Option, none, some, Result, ok, err, List, [], ◌∷◌, length,
  get_elem?, take, drop, map, ltb, ◌==◌, if◌then◌else◌, ◌>>=◌, ◌+u◌, u32_mod, for_each,
}
use mamestagram_pp_rs.F64.{F64}
use mamestagram_pp_rs.Any.Settings.{GameMode, Difficulty, ConvertError, get_passed_objects}
use mamestagram_pp_rs.Model.Beatmap.{Beatmap, cow_value, Converters, convert_ref}
use mamestagram_pp_rs.Model.HitObject.{HitObject, is_circle}
use mamestagram_pp_rs.Mania.Performance.{ManiaDifficultyAttributes}
use mamestagram_pp_rs.Mania.Objects.{
  ManiaObject, ObjectParams, ManiaDifficultyObject, ManiaParts, no_params, mania_object,
  mania_objects, create_difficulty_objects,
}

pub record NoteState : Type 0 where
  pub curr_combo : ℕ
  pub n_hold_notes : ℕ

pub record ManiaGradualDifficulty (Mods A R Strain : Type 0) : Type 0 where
  pub idx : ℕ
  pub difficulty : Difficulty Mods A R
  pub objects_is_circle : List Bool
  pub is_convert : Bool
  pub strain : Strain
  pub diff_objects : List (ManiaDifficultyObject A)
  pub note_state : NoteState

-- `zip`, which ends with the shorter list.
unfoldable pub zip : {S T : Type 0} → List S → List T → List (S × T)
zip [] ys = []
zip (x ∷ xs) [] = []
zip (x ∷ xs) (y ∷ ys) = (x, y) ∷ zip xs ys

module _ {A : Type 0} ⦃f : F64 A⦄ where
  unfoldable pub increment_combo_raw : Bool → A → A → NoteState → NoteState
  increment_combo_raw circle start_time end_time state =
      let long = f.as_u32 (f.div (f.sub end_time start_time) (f.from_u32 100)) in
      if circle then record state { curr_combo = state.curr_combo +u 1 } else record {
        curr_combo = state.curr_combo +u (1 +u long);
        n_hold_notes = state.n_hold_notes +u 1;
      }

  unfoldable pub increment_combo : Bool → ManiaDifficultyObject A → A → NoteState → NoteState
  unfolding increment_combo_raw
  increment_combo circle diff_obj clock_rate state =
      increment_combo_raw circle (f.mul diff_obj.start_time clock_rate)
        (f.mul diff_obj.end_time clock_rate) state

module _ {Content Mods A R Slider Strain : Type 0} ⦃f : F64 A⦄
    (parts : ManiaParts Content Mods A R Slider Strain) where
  abbrev pub Gradual : Type 0
  Gradual = ManiaGradualDifficulty Mods A R Strain

  -- A note with its difficulty object, without its index; in `nth` the combo comes first.
  unfoldable pub pass_note : ManiaDifficultyObject A → Bool → Gradual → Gradual
  unfolding increment_combo
  pass_note curr circle s = record s {
    strain = parts.process curr s.diff_objects s.strain;
    note_state = increment_combo circle curr (parts.clock_rate s.difficulty) s.note_state;
  }

  -- The attributes that `next` returns.
  unfoldable pub current : Gradual → ManiaDifficultyAttributes A
  current s = record {
    stars = parts.stars s.strain;
    max_combo = s.note_state.curr_combo;
    n_objects = s.idx % u32_mod;
    n_hold_notes = s.note_state.n_hold_notes;
    is_convert = s.is_convert;
  }

  -- `next` from the line that increments `idx`.
  unfoldable pub finish : Gradual → Option (Option (ManiaDifficultyAttributes A) × Gradual)
  unfolding current
  finish s = let s' : Gradual = record s { idx = s.idx + 1 } in some (some (current s'), s')

  unfoldable pub next : Gradual → Option (Option (ManiaDifficultyAttributes A) × Gradual)
  unfolding pass_note finish
  next s =
      if ltb 0 s.idx
      then elim (get_elem? s.diff_objects (s.idx - 1)) [
        | none ↦ some (none, s)
        | some curr ↦
            get_elem? s.objects_is_circle s.idx >>= λ circle. finish (pass_note curr circle s)
      ]
      else (if length s.objects_is_circle == 0 then some (none, s) else finish s)

  unfoldable pub len : Gradual → ℕ
  len s = length s.diff_objects + 1 - s.idx

  unfoldable pub size_hint : Gradual → ℕ × Option ℕ
  unfolding len
  size_hint s = let n = len s in (n, some n)

  -- The loop's body in `nth`, which does not panic.
  unfoldable pub pass : ManiaDifficultyObject A × Bool → Gradual → Option Gradual
  unfolding pass_note
  pass (curr, circle) s = some (let s' = pass_note curr circle s in record s' { idx = s'.idx + 1 })

  unfoldable pub nth : Gradual → ℕ → Option (Option (ManiaDifficultyAttributes A) × Gradual)
  unfolding len pass next zip
  nth s n =
      let skip_iter = drop (s.idx - 1) (zip s.diff_objects (drop 1 s.objects_is_circle)) in
      let n_take = min n (len s - 1) in
      if s.idx == 0 && ltb 0 n_take
      then (do
        s ← for_each pass (take (n_take - 1) skip_iter) (record s { idx = s.idx + 1 })
        next s)
      else (do s ← for_each pass (take n_take skip_iter) s; next s)

  -- The combo and the hold notes of the first note.
  unfoldable pub first_note :
      Beatmap Content → A → List (HitObject A Slider) → ObjectParams → NoteState
  unfolding increment_combo_raw mania_object is_circle
  first_note map total_columns [] params = record { curr_combo = 0; n_hold_notes = 0 }
  first_note map total_columns (h ∷ _) params =
      let (object, _) = mania_object parts map h total_columns params in
      increment_combo_raw (is_circle h.kind) object.start_time object.end_time
        (record { curr_combo = 0; n_hold_notes = 0 })

  -- `new` from the line that has the map.
  unfoldable pub of_map : Difficulty Mods A R → Beatmap Content → Gradual
  unfolding get_passed_objects mania_objects create_difficulty_objects first_note is_circle
  of_map difficulty beatmap =
      let n_take = get_passed_objects difficulty in
      let total_columns = parts.total_columns beatmap.content in
      let hit_objects = parts.hit_objects beatmap.content in
      let (objects, params) =
        mania_objects parts beatmap total_columns (take n_take hit_objects) no_params in
      record {
        idx = 0;
        difficulty = difficulty;
        objects_is_circle = map (λ h. is_circle h.kind) hit_objects;
        is_convert = beatmap.is_convert;
        strain = parts.strain total_columns;
        diff_objects = create_difficulty_objects parts (parts.clock_rate difficulty) objects;
        note_state = first_note beatmap total_columns hit_objects params;
      }

  unfoldable pub new :
      Converters Mods Content
      → Difficulty Mods A R
      → Beatmap Content
      → Option (Result Gradual ConvertError)
  unfolding convert_ref of_map
  new converters difficulty map = do
    r ← convert_ref converters map GameMode.mania difficulty.mods
    elim r [ ok map' ↦ some (ok (of_map difficulty (cow_value map'))) | err e ↦ some (err e) ]
