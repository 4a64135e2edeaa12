-- ===== src/Any/Settings.antt =====
-- src/any/difficulty/mod.rs (`Difficulty`), src/util/map_or_attrs.rs, src/model/mode.rs (`GameMode`,
-- `ConvertError`) and `HitResultPriority` of src/any/performance/mod.rs.
use mamestagram_pp_rs.Prelude.{ℕ, ◌^◌, ◌-◌, Bool, true, Option, none, map_or, Result, ok}

pub data GameMode : Type 0 where
  osu taiko catch mania : GameMode

pub data ConvertError : Type 0 where
  already_converted : ConvertError
  convert : GameMode → GameMode → ConvertError

pub data HitResultPriority : Type 0 where
  best_case worst_case : HitResultPriority

-- Generic in the mods and in `f64`, which are not the program's own, and in `f32`.
pub record ModsDependent (R : Type 0) : Type 0 where
  pub value : R
  pub with_mods : Bool

pub record Difficulty (Mods A R : Type 0) : Type 0 where
  pub mods : Mods
  pub passed_objects : Option ℕ
  pub clock_rate : Option A
  pub ar : Option (ModsDependent R)
  pub cs : Option (ModsDependent R)
  pub hp : Option (ModsDependent R)
  pub od : Option (ModsDependent R)
  pub hardrock_offsets : Option Bool
  pub lazer : Option Bool

module _ {Mods A R : Type 0} where
  -- `GameMods::DEFAULT` is an argument.
  unfoldable pub new : Mods → Difficulty Mods A R
  new default = record {
    mods = default;
    passed_objects = none;
    clock_rate = none;
    ar = none;
    cs = none;
    hp = none;
    od = none;
    hardrock_offsets = none;
    lazer = none;
  }

  -- A `usize` of 64 bits.
  unfoldable pub get_passed_objects : Difficulty Mods A R → ℕ
  get_passed_objects d = map_or d.passed_objects (2 ^ 64 - 1) (λ n. n)

  unfoldable pub get_lazer : Difficulty Mods A R → Bool
  get_lazer d = map_or d.lazer true (λ b. b)

pub data MapOrAttrs (Map Attrs : Type 0) : Type 0 where
  of_map : Map → MapOrAttrs Map Attrs
  of_attrs : Attrs → MapOrAttrs Map Attrs

-- `match self.map_or_attrs`, as each `generate_state` begins: attributes that are missing are
-- calculated from the map, and kept.
unfoldable pub load_attrs :
    {Map Attrs : Type 0}
    → (Map → Result Attrs ConvertError)
    → MapOrAttrs Map Attrs
    → Result Attrs ConvertError
load_attrs calculate (of_map m) = calculate m
load_attrs calculate (of_attrs a) = ok a
