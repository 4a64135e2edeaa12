-- ===== src/Model/Beatmap.antt =====
-- The conversion of a map to another mode: `convert_ref` and `convert_mut` of src/model/beatmap/mod.rs.
use mamestagram_pp_rs.Prelude.{
  Bool, true, false, Option, none, some, Result, ok, err, if◌then◌else◌, not,
}
use mamestagram_pp_rs.Any.Settings.{GameMode, ConvertError}

-- The mode and whether the map was converted; the other fields, which no code here reads, are its
-- content.
pub record Beatmap (Content : Type 0) : Type 0 where
  pub is_convert : Bool
  pub mode : GameMode
  pub content : Content

-- A map that a calculator refers to, or that it has.
pub data Cow (T : Type 0) : Type 0 where
  borrowed owned : T → Cow T

abbrev pub cow_value : {T : Type 0} → Cow T → T
cow_value (Cow.borrowed t) = t
cow_value (Cow.owned t) = t

-- The conversions of src/taiko, catch and mania/convert.
pub record Converters (Mods Content : Type 0) : Type 0 where
  pub taiko : Beatmap Content → Beatmap Content
  pub catch : Beatmap Content → Beatmap Content
  pub mania : Beatmap Content → Mods → Beatmap Content

-- `==` of modes
unfoldable pub same_mode : GameMode → GameMode → Bool
same_mode GameMode.osu GameMode.osu = true
same_mode GameMode.taiko GameMode.taiko = true
same_mode GameMode.catch GameMode.catch = true
same_mode GameMode.mania GameMode.mania = true
same_mode _ _ = false

-- The checks that `convert_mut` begins with: `some` is an early return.
unfoldable pub check_mode :
    {Content : Type 0} → Beatmap Content → GameMode → Option (Result (Unit {0}) ConvertError)
unfolding same_mode
check_mode map mode =
    if same_mode map.mode mode
    then some (ok tt)
    else if map.is_convert
    then some (err ConvertError.already_converted)
    else if same_mode map.mode GameMode.osu
    then none
    else some (err (ConvertError.convert map.mode mode))

module _ {Mods Content : Type 0} (converters : Converters Mods Content) where
  -- The `match mode` of `convert_mut`; `none` is `unreachable!()`, which panics.
  unfoldable pub run_convert : GameMode → Beatmap Content → Mods → Option (Beatmap Content)
  run_convert GameMode.taiko map mods = some (converters.taiko map)
  run_convert GameMode.catch map mods = some (converters.catch map)
  run_convert GameMode.mania map mods = some (converters.mania map mods)
  run_convert GameMode.osu map mods = none

  -- The map after the call, and what the call returns.
  unfoldable pub convert_mut :
      Beatmap Content → GameMode → Mods → Option (Beatmap Content × Result (Unit {0}) ConvertError)
  unfolding check_mode run_convert
  convert_mut map mode mods = elim (check_mode map mode) [
    | some r ↦ some (map, r)
    | none ↦ elim (run_convert mode map mods) [ none ↦ none | some map' ↦ some (map', ok tt) ]
  ]

  -- The `match mode` of `convert_ref`, on the map that it has cloned.
  unfoldable pub convert_owned : GameMode → Beatmap Content → Mods → Option (Beatmap Content)
  convert_owned GameMode.taiko map mods = some (converters.taiko map)
  convert_owned GameMode.catch map mods = some (converters.catch map)
  convert_owned GameMode.mania map mods = some (converters.mania map mods)
  convert_owned GameMode.osu map mods = none

  -- It has its own checks and its own match.
  unfoldable pub convert_ref :
      Beatmap Content → GameMode → Mods → Option (Result (Cow (Beatmap Content)) ConvertError)
  unfolding same_mode convert_owned
  convert_ref map mode mods =
      if same_mode map.mode mode
      then some (ok (Cow.borrowed map))
      else if map.is_convert
      then some (err ConvertError.already_converted)
      else if not (same_mode map.mode GameMode.osu)
      then some (err (ConvertError.convert map.mode mode))
      else (elim (convert_owned mode map mods) [
        | none ↦ none
        | some map' ↦ some (ok (Cow.owned map'))
      ])

  -- `convert`, which owns the map.
  unfoldable pub convert :
      Beatmap Content → GameMode → Mods → Option (Result (Beatmap Content) ConvertError)
  unfolding convert_mut
  convert map mode mods = elim (convert_mut map mode mods) [
    | none ↦ none
    | some (map', ok _) ↦ some (ok map')
    | some (map', err e) ↦ some (err e)
  ]
