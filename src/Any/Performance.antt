-- ===== src/Any/Performance.antt =====
-- src/any/performance/mod.rs: `Performance`, which passes each value on to the calculator of its mode.
-- The methods that limit a float to a range, and those that calculate, are left out.
pub mod States
pub mod Convert
pub mod Converted
pub mod Commute
pub mod Generate
pub mod Generated
use mamestagram_pp_rs.Prelude.{ℕ, Bool}
use mamestagram_pp_rs.Any.Settings.{Difficulty, HitResultPriority}
use mamestagram_pp_rs.Any.ScoreState.{ScoreState, to_osu, to_taiko, to_catch, to_mania}
use mamestagram_pp_rs.Osu.Performance.{OsuPerformance}
use mamestagram_pp_rs.Osu.Performance.Complete as OsuState
use mamestagram_pp_rs.Osu.Performance.Setters as OsuSetters
use mamestagram_pp_rs.Taiko.Performance.{TaikoPerformance}
use mamestagram_pp_rs.Taiko.Performance as TaikoState
use mamestagram_pp_rs.Taiko.Performance.Setters as TaikoSetters
use mamestagram_pp_rs.Catch.Performance.{CatchPerformance}
use mamestagram_pp_rs.Catch.Performance as CatchState
use mamestagram_pp_rs.Catch.Performance.Setters as CatchSetters
use mamestagram_pp_rs.Mania.Performance.{ManiaPerformance}
use mamestagram_pp_rs.Mania.Performance as ManiaSetters

pub data Performance (Map Mods A R : Type 0) : Type 0 where
  osu : OsuPerformance Map Mods A R → Performance Map Mods A R
  taiko : TaikoPerformance Map Mods A R → Performance Map Mods A R
  catch : CatchPerformance Map Mods A R → Performance Map Mods A R
  mania : ManiaPerformance Map Mods A R → Performance Map Mods A R

module _ {Map Mods A R : Type 0} where
  unfoldable pub mods : Performance Map Mods A R → Mods → Performance Map Mods A R
  unfolding OsuSetters.mods TaikoSetters.mods CatchSetters.mods ManiaSetters.mods
  mods (osu o) x = osu (OsuSetters.mods o x)
  mods (taiko t) x = taiko (TaikoSetters.mods t x)
  mods (catch f) x = catch (CatchSetters.mods f x)
  mods (mania m) x = mania (ManiaSetters.mods m x)

  unfoldable pub difficulty :
      Performance Map Mods A R → Difficulty Mods A R → Performance Map Mods A R
  unfolding OsuSetters.difficulty TaikoSetters.difficulty CatchSetters.difficulty
      ManiaSetters.difficulty
  difficulty (osu o) x = osu (OsuSetters.difficulty o x)
  difficulty (taiko t) x = taiko (TaikoSetters.difficulty t x)
  difficulty (catch f) x = catch (CatchSetters.difficulty f x)
  difficulty (mania m) x = mania (ManiaSetters.difficulty m x)

  unfoldable pub passed_objects : Performance Map Mods A R → ℕ → Performance Map Mods A R
  unfolding OsuSetters.passed_objects TaikoSetters.passed_objects CatchSetters.passed_objects
      ManiaSetters.passed_objects
  passed_objects (osu o) x = osu (OsuSetters.passed_objects o x)
  passed_objects (taiko t) x = taiko (TaikoSetters.passed_objects t x)
  passed_objects (catch f) x = catch (CatchSetters.passed_objects f x)
  passed_objects (mania m) x = mania (ManiaSetters.passed_objects m x)

  unfoldable pub hardrock_offsets : Performance Map Mods A R → Bool → Performance Map Mods A R
  unfolding CatchSetters.hardrock_offsets
  hardrock_offsets (osu o) x = osu o
  hardrock_offsets (taiko t) x = taiko t
  hardrock_offsets (catch f) x = catch (CatchSetters.hardrock_offsets f x)
  hardrock_offsets (mania m) x = mania m

  unfoldable pub misses : Performance Map Mods A R → ℕ → Performance Map Mods A R
  unfolding OsuSetters.misses TaikoSetters.misses CatchSetters.misses ManiaSetters.misses
  misses (osu o) x = osu (OsuSetters.misses o x)
  misses (taiko t) x = taiko (TaikoSetters.misses t x)
  misses (catch f) x = catch (CatchSetters.misses f x)
  misses (mania m) x = mania (ManiaSetters.misses m x)

  unfoldable pub combo : Performance Map Mods A R → ℕ → Performance Map Mods A R
  unfolding OsuSetters.combo TaikoSetters.combo CatchSetters.combo
  combo (osu o) x = osu (OsuSetters.combo o x)
  combo (taiko t) x = taiko (TaikoSetters.combo t x)
  combo (catch f) x = catch (CatchSetters.combo f x)
  combo (mania m) x = mania m

  unfoldable pub hitresult_priority :
      Performance Map Mods A R → HitResultPriority → Performance Map Mods A R
  unfolding OsuSetters.hitresult_priority TaikoSetters.hitresult_priority
      ManiaSetters.hitresult_priority
  hitresult_priority (osu o) x = osu (OsuSetters.hitresult_priority o x)
  hitresult_priority (taiko t) x = taiko (TaikoSetters.hitresult_priority t x)
  hitresult_priority (catch f) x = catch f
  hitresult_priority (mania m) x = mania (ManiaSetters.hitresult_priority m x)

  unfoldable pub lazer : Performance Map Mods A R → Bool → Performance Map Mods A R
  unfolding OsuSetters.lazer ManiaSetters.lazer
  lazer (osu o) x = osu (OsuSetters.lazer o x)
  lazer (taiko t) x = taiko t
  lazer (catch f) x = catch f
  lazer (mania m) x = mania (ManiaSetters.lazer m x)

  unfoldable pub large_tick_hits : Performance Map Mods A R → ℕ → Performance Map Mods A R
  unfolding OsuSetters.large_tick_hits
  large_tick_hits (osu o) x = osu (OsuSetters.large_tick_hits o x)
  large_tick_hits (taiko t) x = taiko t
  large_tick_hits (catch f) x = catch f
  large_tick_hits (mania m) x = mania m

  unfoldable pub small_tick_hits : Performance Map Mods A R → ℕ → Performance Map Mods A R
  unfolding OsuSetters.small_tick_hits
  small_tick_hits (osu o) x = osu (OsuSetters.small_tick_hits o x)
  small_tick_hits (taiko t) x = taiko t
  small_tick_hits (catch f) x = catch f
  small_tick_hits (mania m) x = mania m

  unfoldable pub slider_end_hits : Performance Map Mods A R → ℕ → Performance Map Mods A R
  unfolding OsuSetters.slider_end_hits
  slider_end_hits (osu o) x = osu (OsuSetters.slider_end_hits o x)
  slider_end_hits (taiko t) x = taiko t
  slider_end_hits (catch f) x = catch f
  slider_end_hits (mania m) x = mania m

  unfoldable pub n300 : Performance Map Mods A R → ℕ → Performance Map Mods A R
  unfolding OsuSetters.n300 TaikoSetters.n300 CatchSetters.fruits ManiaSetters.n300
  n300 (osu o) x = osu (OsuSetters.n300 o x)
  n300 (taiko t) x = taiko (TaikoSetters.n300 t x)
  n300 (catch f) x = catch (CatchSetters.fruits f x)
  n300 (mania m) x = mania (ManiaSetters.n300 m x)

  unfoldable pub n100 : Performance Map Mods A R → ℕ → Performance Map Mods A R
  unfolding OsuSetters.n100 TaikoSetters.n100 CatchSetters.droplets ManiaSetters.n100
  n100 (osu o) x = osu (OsuSetters.n100 o x)
  n100 (taiko t) x = taiko (TaikoSetters.n100 t x)
  n100 (catch f) x = catch (CatchSetters.droplets f x)
  n100 (mania m) x = mania (ManiaSetters.n100 m x)

  unfoldable pub n50 : Performance Map Mods A R → ℕ → Performance Map Mods A R
  unfolding OsuSetters.n50 CatchSetters.tiny_droplets ManiaSetters.n50
  n50 (osu o) x = osu (OsuSetters.n50 o x)
  n50 (taiko t) x = taiko t
  n50 (catch f) x = catch (CatchSetters.tiny_droplets f x)
  n50 (mania m) x = mania (ManiaSetters.n50 m x)

  unfoldable pub n_katu : Performance Map Mods A R → ℕ → Performance Map Mods A R
  unfolding CatchSetters.tiny_droplet_misses ManiaSetters.n200
  n_katu (osu o) x = osu o
  n_katu (taiko t) x = taiko t
  n_katu (catch f) x = catch (CatchSetters.tiny_droplet_misses f x)
  n_katu (mania m) x = mania (ManiaSetters.n200 m x)

  unfoldable pub n_geki : Performance Map Mods A R → ℕ → Performance Map Mods A R
  unfolding ManiaSetters.n320
  n_geki (osu o) x = osu o
  n_geki (taiko t) x = taiko t
  n_geki (catch f) x = catch f
  n_geki (mania m) x = mania (ManiaSetters.n320 m x)

  unfoldable pub state : Performance Map Mods A R → ScoreState → Performance Map Mods A R
  unfolding OsuState.state TaikoState.state CatchState.state ManiaSetters.state to_osu to_taiko
      to_catch to_mania
  state (osu o) s = osu (OsuState.state o (to_osu s))
  state (taiko t) s = taiko (TaikoState.state t (to_taiko s))
  state (catch f) s = catch (CatchState.state f (to_catch s))
  state (mania m) s = mania (ManiaSetters.state m (to_mania s))
