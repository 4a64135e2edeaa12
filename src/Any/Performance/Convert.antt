-- ===== src/Any/Performance/Convert.antt =====
-- The conversion of a calculator to another mode: `try_mode` and `mode_or_ignore` of
-- src/any/performance/mod.rs and src/osu/performance/mod.rs, with `try_convert_map` and the `TryFrom` of
-- the other modes.
use mamestagram_pp_rs.Prelude.{Option, none, some, Result, ok, err}
use mamestagram_pp_rs.Any.Settings.{GameMode, MapOrAttrs, of_map, of_attrs}
use mamestagram_pp_rs.Any.Performance.{Performance, osu, taiko, catch, mania}
use mamestagram_pp_rs.Model.Beatmap.{Beatmap, Cow, Converters, convert_ref, convert_mut}
use mamestagram_pp_rs.Osu.Performance.{OsuPerformance}
use mamestagram_pp_rs.Taiko.Performance.{TaikoPerformance}
use mamestagram_pp_rs.Catch.Performance.{CatchPerformance}
use mamestagram_pp_rs.Mania.Performance.{ManiaPerformance}

-- Calculators that hold a map or refer to it.
abbrev pub OsuOf : (Mods Content A R : Type 0) → Type 0
OsuOf Mods Content A R = OsuPerformance (Cow (Beatmap Content)) Mods A R

abbrev pub AnyOf : (Mods Content A R : Type 0) → Type 0
AnyOf Mods Content A R = Performance (Cow (Beatmap Content)) Mods A R

-- A result that may be a panic, `none`.
abbrev pub Outcome : Type 0 → Type 0 → Type 0
Outcome T E = Option (Result T E)

-- `Result::map`
abbrev pub map_ok : {T U E : Type 0} → (T → U) → Outcome T E → Outcome U E
map_ok f none = none
map_ok f (some (ok t)) = some (ok (f t))
map_ok f (some (err e)) = some (err e)

abbrev pub map_err : {T E F : Type 0} → (E → F) → Outcome T E → Outcome T F
map_err f none = none
map_err f (some (ok t)) = some (ok t)
map_err f (some (err e)) = some (err (f e))

abbrev pub map_or_else : {T E U : Type 0} → (E → U) → (T → U) → Outcome T E → Option U
map_or_else f g none = none
map_or_else f g (some (ok t)) = some (g t)
map_or_else f g (some (err e)) = some (f e)

module _ {Mods Content : Type 0} (converters : Converters Mods Content) where
  unfoldable pub try_convert_map :
      {Attrs : Type 0}
      → MapOrAttrs (Cow (Beatmap Content)) Attrs
      → GameMode
      → Mods
      → Outcome (Cow (Beatmap Content)) (MapOrAttrs (Cow (Beatmap Content)) Attrs)
  unfolding convert_ref convert_mut
  try_convert_map (of_attrs attrs) mode mods = some (err (of_attrs attrs))
  try_convert_map (of_map (Cow.borrowed map)) mode mods =
      elim (convert_ref converters map mode mods) [
        | none ↦ none
        | some (ok map') ↦ some (ok map')
        | some (err _) ↦ some (err (of_map (Cow.borrowed map)))
      ]
  try_convert_map (of_map (Cow.owned map)) mode mods = elim (convert_mut converters map mode mods) [
    | none ↦ none
    | some (map', err _) ↦ some (err (of_map (Cow.owned map')))
    | some (map', ok _) ↦ some (ok (Cow.owned map'))
  ]

module _ {Mods Content A R : Type 0} (converters : Converters Mods Content) where
  -- `try_from` of each mode.
  unfoldable pub try_taiko :
      OsuOf Mods Content A R
      → Outcome (TaikoPerformance (Cow (Beatmap Content)) Mods A R) (OsuOf Mods Content A R)
  unfolding try_convert_map
  try_taiko o = elim (try_convert_map converters o.map_or_attrs GameMode.taiko o.difficulty.mods) [
    | none ↦ none
    | some (err m) ↦ some (err (record o { map_or_attrs = m }))
    | some (ok map) ↦ some (
        ok (record {
          map_or_attrs = of_map map;
          difficulty = o.difficulty;
          combo = o.combo;
          acc = o.acc;
          hitresult_priority = o.hitresult_priority;
          n300 = o.n300;
          n100 = o.n100;
          misses = o.misses;
        }))
  ]

  unfoldable pub try_catch :
      OsuOf Mods Content A R
      → Outcome (CatchPerformance (Cow (Beatmap Content)) Mods A R) (OsuOf Mods Content A R)
  unfolding try_convert_map
  try_catch o = elim (try_convert_map converters o.map_or_attrs GameMode.catch o.difficulty.mods) [
    | none ↦ none
    | some (err m) ↦ some (err (record o { map_or_attrs = m }))
    | some (ok map) ↦ some (
        ok (record {
          map_or_attrs = of_map map;
          difficulty = o.difficulty;
          acc = o.acc;
          combo = o.combo;
          fruits = o.n300;
          droplets = o.n100;
          tiny_droplets = o.n50;
          tiny_droplet_misses = none;
          misses = o.misses;
        }))
  ]

  unfoldable pub try_mania :
      OsuOf Mods Content A R
      → Outcome (ManiaPerformance (Cow (Beatmap Content)) Mods A R) (OsuOf Mods Content A R)
  unfolding try_convert_map
  try_mania o = elim (try_convert_map converters o.map_or_attrs GameMode.mania o.difficulty.mods) [
    | none ↦ none
    | some (err m) ↦ some (err (record o { map_or_attrs = m }))
    | some (ok map) ↦ some (
        ok (record {
          map_or_attrs = of_map map;
          difficulty = o.difficulty;
          n320 = none;
          n300 = o.n300;
          n200 = none;
          n100 = o.n100;
          n50 = o.n50;
          misses = o.misses;
          acc = o.acc;
          hitresult_priority = o.hitresult_priority;
        }))
  ]

  unfoldable pub osu_try_mode :
      OsuOf Mods Content A R → GameMode → Outcome (AnyOf Mods Content A R) (OsuOf Mods Content A R)
  unfolding try_taiko try_catch try_mania
  osu_try_mode o GameMode.osu = some (ok (osu o))
  osu_try_mode o GameMode.taiko = map_ok taiko (try_taiko o)
  osu_try_mode o GameMode.catch = map_ok catch (try_catch o)
  osu_try_mode o GameMode.mania = map_ok mania (try_mania o)

  unfoldable pub osu_mode_or_ignore :
      OsuOf Mods Content A R → GameMode → Option (AnyOf Mods Content A R)
  unfolding try_taiko try_catch try_mania
  osu_mode_or_ignore o GameMode.osu = some (osu o)
  osu_mode_or_ignore o GameMode.taiko = map_or_else osu taiko (try_taiko o)
  osu_mode_or_ignore o GameMode.catch = map_or_else osu catch (try_catch o)
  osu_mode_or_ignore o GameMode.mania = map_or_else osu mania (try_mania o)

  unfoldable pub try_mode :
      AnyOf Mods Content A R → GameMode → Outcome (AnyOf Mods Content A R) (AnyOf Mods Content A R)
  unfolding osu_try_mode
  try_mode (osu o) mode = map_err osu (osu_try_mode o mode)
  try_mode (taiko t) GameMode.taiko = some (ok (taiko t))
  try_mode (catch f) GameMode.catch = some (ok (catch f))
  try_mode (mania m) GameMode.mania = some (ok (mania m))
  try_mode (taiko t) _ = some (err (taiko t))
  try_mode (catch f) _ = some (err (catch f))
  try_mode (mania m) _ = some (err (mania m))

  unfoldable pub mode_or_ignore :
      AnyOf Mods Content A R → GameMode → Option (AnyOf Mods Content A R)
  unfolding osu_mode_or_ignore
  mode_or_ignore (osu o) mode = osu_mode_or_ignore o mode
  mode_or_ignore (taiko t) mode = some (taiko t)
  mode_or_ignore (catch f) mode = some (catch f)
  mode_or_ignore (mania m) mode = some (mania m)
