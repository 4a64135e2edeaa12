-- ===== src/Taiko/Gradual.antt =====
-- src/taiko/difficulty/gradual.rs: the difficulty of a map after each of its objects, where drum rolls and
-- swells after the second object go with the hit that follows. The objects' preprocessing, the skills and
-- the formulas are functions that `TaikoParts` holds.
pub mod Hits
pub mod Length
pub mod Nth
pub mod Steps
use mamestagram_pp_rs.Prelude.{
  ℕ, zero, suc, ◌+◌, ◌-◌, ◌%◌, ◌^◌, min, Bool, true, false, Option, none, some, map_or, Result, ok,
  err, List, [], ◌∷◌, length, get_elem?, map, leb, ◌==◌, if◌then◌else◌, ◌>>=◌, ◌+u◌,
}
use mamestagram_pp_rs.Any.Settings.{GameMode, Difficulty, ConvertError}
use mamestagram_pp_rs.Model.Beatmap.{Beatmap, cow_value, Converters, convert_ref}
use mamestagram_pp_rs.Model.HitObject.{HitObject, is_circle}
use mamestagram_pp_rs.Taiko.Performance.{TaikoDifficultyAttributes}

pub data HitType : Type 0 where
  center rim non_hit : HitType

unfoldable pub is_hit : HitType → Bool
is_hit HitType.center = true
is_hit HitType.rim = true
is_hit HitType.non_hit = false

pub record TaikoDifficultyObject (Extra : Type 0) : Type 0 where
  pub base_hit_type : HitType
  pub extra : Extra

pub data FirstTwoCombos : Type 0 where
  neither only_first only_second both : FirstTwoCombos

pub record TaikoParts (Content Mods A R Slider Extra Skills : Type 0) : Type 0 where
  pub hit_objects : Content → List (HitObject A Slider)
  -- `DifficultyValues::create_difficulty_objects`
  pub create_difficulty_objects :
      Difficulty Mods A R → Beatmap Content → List (TaikoDifficultyObject Extra)
  -- the attributes at first, with the hit windows
  pub attrs : Difficulty Mods A R → Beatmap Content → TaikoDifficultyAttributes A
  pub skills : Difficulty Mods A R → Beatmap Content → Skills
  pub rhythm : TaikoDifficultyObject Extra → List (TaikoDifficultyObject Extra) → Skills → Skills
  pub reading : TaikoDifficultyObject Extra → List (TaikoDifficultyObject Extra) → Skills → Skills
  pub color : TaikoDifficultyObject Extra → List (TaikoDifficultyObject Extra) → Skills → Skills
  pub stamina : TaikoDifficultyObject Extra → List (TaikoDifficultyObject Extra) → Skills → Skills
  pub single_color_stamina :
      TaikoDifficultyObject Extra → List (TaikoDifficultyObject Extra) → Skills → Skills
  pub rx : Mods → Bool
  -- `DifficultyValues::eval`
  pub eval : TaikoDifficultyAttributes A → Skills → Bool → TaikoDifficultyAttributes A

pub record TaikoGradualDifficulty (Mods A R Extra Skills : Type 0) : Type 0 where
  pub idx : ℕ
  pub difficulty : Difficulty Mods A R
  pub attrs : TaikoDifficultyAttributes A
  pub diff_objects : List (TaikoDifficultyObject Extra)
  pub diff_objects_iter : List (TaikoDifficultyObject Extra)
  pub skills : Skills
  pub total_hits : ℕ
  pub first_combos : FirstTwoCombos

unfoldable pub count_circles : {A Slider : Type 0} → List (HitObject A Slider) → ℕ
unfolding is_circle
count_circles [] = 0
count_circles (h ∷ hs) = let rest = count_circles hs in if is_circle h.kind then suc rest else rest

-- Whether the first and the second object are circles, if there are such.
unfoldable pub first_two : Option Bool → Option Bool → FirstTwoCombos
first_two none _ = FirstTwoCombos.neither
first_two (some false) (some true) = FirstTwoCombos.only_second
first_two (some false) (some false) = FirstTwoCombos.neither
first_two (some false) none = FirstTwoCombos.neither
first_two (some true) (some true) = FirstTwoCombos.both
first_two (some true) (some false) = FirstTwoCombos.only_first
first_two (some true) none = FirstTwoCombos.only_first

-- The combo after the first object and after the second one, where `next` sets it.
unfoldable pub combo_after : FirstTwoCombos → Bool → ℕ → ℕ
combo_after FirstTwoCombos.neither first combo = combo
combo_after FirstTwoCombos.only_first first combo = 1
combo_after FirstTwoCombos.only_second first combo = if first then combo else 1
combo_after FirstTwoCombos.both first combo = if first then 1 else 2

-- The same in `nth` for the second object, or for both.
unfoldable pub combo_second : FirstTwoCombos → ℕ → ℕ
combo_second FirstTwoCombos.neither combo = combo
combo_second FirstTwoCombos.only_first combo = 1
combo_second FirstTwoCombos.only_second combo = 1
combo_second FirstTwoCombos.both combo = 2

module _ {Content Mods A R Slider Extra Skills : Type 0}
    (parts : TaikoParts Content Mods A R Slider Extra Skills) where
  abbrev pub Gradual : Type 0
  Gradual = TaikoGradualDifficulty Mods A R Extra Skills

  -- An object is processed.
  unfoldable pub process : TaikoDifficultyObject Extra → Gradual → Gradual
  process curr s =
      let skills = parts.rhythm curr s.diff_objects s.skills in
      let skills = parts.reading curr s.diff_objects skills in
      let skills = parts.color curr s.diff_objects skills in
      let skills = parts.stamina curr s.diff_objects skills in
      record s { skills = parts.single_color_stamina curr s.diff_objects skills }

  abbrev pub with_combo : ℕ → Gradual → Gradual
  with_combo combo s = record s { attrs = record s.attrs { max_combo = combo } }

  -- `loop` over what is left of the iterator, up to the next hit; `false` is the return of nothing where
  -- there is no more.
  unfoldable pub pass_hit : List (TaikoDifficultyObject Extra) → Gradual → Bool × Gradual
  unfolding process is_hit
  pass_hit [] s = (false, record s { diff_objects_iter = [] })
  pass_hit (curr ∷ rest) s =
      let s' = process curr s in
      let later = pass_hit rest s' in
      let hit = record (with_combo (s'.attrs.max_combo +u 1) s') { diff_objects_iter = rest } in
      if is_hit curr.base_hit_type then (true, hit) else later

  -- `next` from the line that increments `idx`.
  unfoldable pub finish : Gradual → Option (TaikoDifficultyAttributes A) × Gradual
  finish s =
      let s' : Gradual = record s { idx = s.idx + 1 } in
      (some (parts.eval s'.attrs s'.skills (parts.rx s'.difficulty.mods)), s')

  unfoldable pub next : Gradual → Option (TaikoDifficultyAttributes A) × Gradual
  unfolding pass_hit finish combo_after
  next s =
      let (found, after) = pass_hit s.diff_objects_iter s in
      let combo = combo_after s.first_combos (s.idx == 0) s.attrs.max_combo in
      if leb 2 s.idx
      then (if found then finish after else (none, after))
      else if length s.diff_objects == 0
      then (none, s)
      else finish (with_combo combo s)

  -- The difference wraps.
  unfoldable pub len : Gradual → ℕ
  len s = (s.total_hits + 2 ^ 64 - s.idx) % 2 ^ 64

  unfoldable pub size_hint : Gradual → ℕ × Option ℕ
  unfolding len
  size_hint s = let n = len s in (n, some n)

  -- `for _ in 0..take`, then `self.next()`; nothing is returned where there is no more.
  unfoldable pub pass_hits : ℕ → Gradual → Option (TaikoDifficultyAttributes A) × Gradual
  unfolding next
  pass_hits zero s = next s
  pass_hits (suc n) s =
      let (found, after) = pass_hit s.diff_objects_iter s in
      let rest = pass_hits n (record after { idx = after.idx + 1 }) in
      if found then rest else (none, after)

  -- `match (take, self.idx)`, the number left and the state.
  unfoldable pub pass_first : ℕ → Gradual → ℕ × Gradual
  unfolding combo_after combo_second
  pass_first n_take s =
      let combo = s.attrs.max_combo in
      if leb 2 s.idx
      then (n_take, s)
      else if n_take == 0
      then (n_take, s)
      else if s.idx == 1
      then (
        n_take - 1,
        record (with_combo (combo_second s.first_combos combo) s) { idx = s.idx + 1 },
      )
      else if n_take == 1
      then (
        n_take - 1,
        record (with_combo (combo_after s.first_combos true combo) s) { idx = s.idx + 1 },
      )
      else (
        n_take - 2,
        record (with_combo (combo_second s.first_combos combo) s) { idx = s.idx + 2 },
      )

  unfoldable pub nth : Gradual → ℕ → Option (TaikoDifficultyAttributes A) × Gradual
  unfolding len pass_first pass_hits
  nth s n = let (n_take, s') = pass_first (min n (len s - 1)) s in pass_hits n_take s'

  -- `new` from the line that has the map.
  unfoldable pub of_map : Difficulty Mods A R → Beatmap Content → Gradual
  unfolding first_two is_circle count_circles
  of_map difficulty beatmap =
      let hit_objects = parts.hit_objects beatmap.content in
      let circle = λ (i : ℕ). get_elem? hit_objects i >>= λ h. some (is_circle h.kind) in
      let diff_objects = parts.create_difficulty_objects difficulty beatmap in
      record {
        idx = 0;
        difficulty = difficulty;
        attrs = record (parts.attrs difficulty beatmap) { max_combo = 0 };
        diff_objects = diff_objects;
        diff_objects_iter = diff_objects;
        skills = parts.skills difficulty beatmap;
        total_hits = count_circles hit_objects;
        first_combos = first_two (circle 0) (circle 1);
      }

  unfoldable pub new :
      Converters Mods Content
      → Difficulty Mods A R
      → Beatmap Content
      → Option (Result Gradual ConvertError)
  unfolding convert_ref of_map
  new converters difficulty map = do
    r ← convert_ref converters map GameMode.taiko difficulty.mods
    elim r [ ok map' ↦ some (ok (of_map difficulty (cow_value map'))) | err e ↦ some (err e) ]
