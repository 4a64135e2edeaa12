-- ===== src/Any/Performance/Generate.antt =====
-- `Performance::generate_state` of src/any/performance/mod.rs, over that of each mode.
use mamestagram_pp_rs.Prelude.{Bool, Option, none, some, Result, ok, err}
use mamestagram_pp_rs.F64.{F64}
use mamestagram_pp_rs.Any.Settings.{ConvertError}
use mamestagram_pp_rs.Any.ScoreState.{ScoreState, from_osu, from_taiko, from_catch, from_mania}
use mamestagram_pp_rs.Any.Performance.{Performance, osu, taiko, catch, mania}
use mamestagram_pp_rs.Osu.Performance.{OsuDifficultyAttributes}
use mamestagram_pp_rs.Osu.Performance.Complete as OsuState
use mamestagram_pp_rs.Taiko.Performance.{TaikoDifficultyAttributes}
use mamestagram_pp_rs.Taiko.Performance as TaikoState
use mamestagram_pp_rs.Catch.Performance.{CatchDifficultyAttributes}
use mamestagram_pp_rs.Catch.Performance as CatchState
use mamestagram_pp_rs.Mania.Performance.{ManiaDifficultyAttributes}
use mamestagram_pp_rs.Mania.Performance.Complete as ManiaState

-- `.expect("no conversion required").into()`; `none` is a panic.
unfoldable pub expect : {S : Type 0} → (S → ScoreState) → Result S ConvertError → Option ScoreState
expect into (ok s) = some (into s)
expect into (err _) = none

-- The calculation of the attributes of each mode.
pub record Calculations (Map A : Type 0) : Type 0 where
  pub osu : Map → Result (OsuDifficultyAttributes A) ConvertError
  pub taiko : Map → Result (TaikoDifficultyAttributes A) ConvertError
  pub catch : Map → Result (CatchDifficultyAttributes A) ConvertError
  pub mania : Map → Result (ManiaDifficultyAttributes A) ConvertError

module _ {Map Mods A R : Type 0} ⦃f : F64 A⦄ (no_slider_head_acc : Mods → Bool → Bool)
    (calculate : Calculations Map A) where
  unfoldable pub generate_state :
      Performance Map Mods A R → Performance Map Mods A R × Option ScoreState
  unfolding expect from_osu from_taiko from_catch from_mania OsuState.generate_state
      TaikoState.generate_state CatchState.generate_state ManiaState.generate_state
  generate_state (osu o) =
      let (o', r) = OsuState.generate_state no_slider_head_acc calculate.osu o in
      (osu o', expect from_osu r)
  generate_state (taiko t) =
      let (t', r) = TaikoState.generate_state calculate.taiko t in (taiko t', expect from_taiko r)
  generate_state (catch c) =
      let (c', r) = CatchState.generate_state calculate.catch c in (catch c', expect from_catch r)
  generate_state (mania m) =
      let (m', r) = ManiaState.generate_state calculate.mania m in (mania m', expect from_mania r)
