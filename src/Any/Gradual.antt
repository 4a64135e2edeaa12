-- ===== src/Any/Gradual.antt =====
-- src/any/difficulty/gradual.rs: the gradual calculation of a map of any mode.
pub mod Nth
use mamestagram_pp_rs.Prelude.{ℕ, Option, none, some, Result, ok, err, ◌>>=◌}
use mamestagram_pp_rs.F64.{F64}
use mamestagram_pp_rs.Any.Settings.{GameMode, Difficulty, ConvertError}
use mamestagram_pp_rs.Model.Beatmap.{Beatmap, Converters}
use mamestagram_pp_rs.Osu.Performance.{OsuDifficultyAttributes}
use mamestagram_pp_rs.Osu.Gradual.{OsuParts, OsuGradualDifficulty}
use mamestagram_pp_rs.Osu.Gradual as Osu
use mamestagram_pp_rs.Taiko.Performance.{TaikoDifficultyAttributes}
use mamestagram_pp_rs.Taiko.Gradual.{TaikoParts, TaikoGradualDifficulty}
use mamestagram_pp_rs.Taiko.Gradual as Taiko
use mamestagram_pp_rs.Catch.Performance.{CatchDifficultyAttributes}
use mamestagram_pp_rs.Catch.Gradual.{GradualParts, CatchGradualDifficulty}
use mamestagram_pp_rs.Catch.Gradual as Catch
use mamestagram_pp_rs.Mania.Performance.{ManiaDifficultyAttributes}
use mamestagram_pp_rs.Mania.Objects.{ManiaParts}
use mamestagram_pp_rs.Mania.Gradual.{ManiaGradualDifficulty}
use mamestagram_pp_rs.Mania.Gradual as Mania

pub data DifficultyAttributes (A : Type 0) : Type 0 where
  osu : OsuDifficultyAttributes A → DifficultyAttributes A
  taiko : TaikoDifficultyAttributes A → DifficultyAttributes A
  catch : CatchDifficultyAttributes A → DifficultyAttributes A
  mania : ManiaDifficultyAttributes A → DifficultyAttributes A

-- What the four modes calculate with, and the types of their skills and objects.
pub record Modes (Content Mods A R : Type 0) : Type 1 where
  pub OsuSkills : Type 0
  pub OsuRest : Type 0
  pub OsuExtra : Type 0
  pub Slider : Type 0
  pub TaikoExtra : Type 0
  pub TaikoSkills : Type 0
  pub CatchObject : Type 0
  pub Movement : Type 0
  pub Strain : Type 0
  pub osu : OsuParts Content Mods A R OsuSkills OsuRest OsuExtra
  pub taiko : TaikoParts Content Mods A R Slider TaikoExtra TaikoSkills
  pub catch : GradualParts Content Mods A R Slider CatchObject Movement
  pub mania : ManiaParts Content Mods A R Slider Strain

-- `map` of an item, and of the iterator that is left.
unfoldable pub map_item : {S T I J : Type 0} → (I → J) → (S → T) → Option I × S → Option J × T
map_item item state (none, s) = (none, state s)
map_item item state (some i, s) = (some (item i), state s)

module _ {Content Mods A R : Type 0} ⦃f : F64 A⦄ (modes : Modes Content Mods A R) where
  pub data GradualDifficulty : Type 0 where
    osu_gradual : Osu.Gradual modes.osu → GradualDifficulty
    taiko_gradual : Taiko.Gradual modes.taiko → GradualDifficulty
    catch_gradual : Catch.Gradual modes.catch → GradualDifficulty
    mania_gradual : Mania.Gradual modes.mania → GradualDifficulty

  abbrev pub Item : Type 0
  Item = DifficultyAttributes A

  unfoldable pub next : GradualDifficulty → Option (Option Item × GradualDifficulty)
  unfolding Osu.next Taiko.next Catch.next Mania.next map_item
  next (osu_gradual s) =
      Osu.next modes.osu s >>= λ r. some (map_item DifficultyAttributes.osu osu_gradual r)
  next (taiko_gradual s) =
      some (map_item DifficultyAttributes.taiko taiko_gradual (Taiko.next modes.taiko s))
  next (catch_gradual s) =
      Catch.next modes.catch s >>= λ r. some (map_item DifficultyAttributes.catch catch_gradual r)
  next (mania_gradual s) =
      Mania.next modes.mania s >>= λ r. some (map_item DifficultyAttributes.mania mania_gradual r)

  unfoldable pub nth : GradualDifficulty → ℕ → Option (Option Item × GradualDifficulty)
  unfolding Osu.nth Taiko.nth Catch.nth Mania.nth map_item
  nth (osu_gradual s) n =
      Osu.nth modes.osu s n >>= λ r. some (map_item DifficultyAttributes.osu osu_gradual r)
  nth (taiko_gradual s) n =
      some (map_item DifficultyAttributes.taiko taiko_gradual (Taiko.nth modes.taiko s n))
  nth (catch_gradual s) n =
      Catch.nth modes.catch s n >>= λ r. some (map_item DifficultyAttributes.catch catch_gradual r)
  nth (mania_gradual s) n =
      Mania.nth modes.mania s n >>= λ r. some (map_item DifficultyAttributes.mania mania_gradual r)

  unfoldable pub len : GradualDifficulty → ℕ
  unfolding Osu.len Taiko.len Catch.len Mania.len
  len (osu_gradual s) = Osu.len modes.osu s
  len (taiko_gradual s) = Taiko.len modes.taiko s
  len (catch_gradual s) = Catch.len modes.catch s
  len (mania_gradual s) = Mania.len modes.mania s

  unfoldable pub size_hint : GradualDifficulty → ℕ × Option ℕ
  unfolding Osu.size_hint Taiko.size_hint Catch.size_hint Mania.size_hint
  size_hint (osu_gradual s) = Osu.size_hint modes.osu s
  size_hint (taiko_gradual s) = Taiko.size_hint modes.taiko s
  size_hint (catch_gradual s) = Catch.size_hint modes.catch s
  size_hint (mania_gradual s) = Mania.size_hint modes.mania s

  -- `Result::map`
  unfoldable pub wrap :
      {S : Type 0}
      → (S → GradualDifficulty)
      → Result S ConvertError
      → Result GradualDifficulty ConvertError
  wrap g (ok s) = ok (g s)
  wrap g (err e) = err e

  unfoldable pub new_with_mode :
      Converters Mods Content
      → Difficulty Mods A R
      → Beatmap Content
      → GameMode
      → Option (Result GradualDifficulty ConvertError)
  unfolding Osu.new Taiko.new Catch.new Mania.new wrap
  new_with_mode converters difficulty map GameMode.osu =
      Osu.new modes.osu converters difficulty map >>= λ r. some (wrap osu_gradual r)
  new_with_mode converters difficulty map GameMode.taiko =
      Taiko.new modes.taiko converters difficulty map >>= λ r. some (wrap taiko_gradual r)
  new_with_mode converters difficulty map GameMode.catch =
      Catch.new modes.catch converters difficulty map >>= λ r. some (wrap catch_gradual r)
  new_with_mode converters difficulty map GameMode.mania =
      Mania.new modes.mania converters difficulty map >>= λ r. some (wrap mania_gradual r)

  -- `expect`, which panics on an error.
  unfoldable pub expect : Option (Result GradualDifficulty ConvertError) → Option GradualDifficulty
  expect none = none
  expect (some (ok s)) = some s
  expect (some (err _)) = none

  unfoldable pub new :
      Converters Mods Content → Difficulty Mods A R → Beatmap Content → Option GradualDifficulty
  unfolding new_with_mode expect
  new converters difficulty map = expect (new_with_mode converters difficulty map map.mode)
