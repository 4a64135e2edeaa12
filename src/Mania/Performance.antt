-- ===== src/Mania/Performance.antt =====
-- src/mania/performance/mod.rs: `ManiaPerformance` and the methods that set its values, but for those
-- that limit a float to a range, with the attributes of src/mania/attributes.rs.
pub mod Search
pub mod Complete
pub mod Range
pub mod Found
pub mod Finite
pub mod Totals
pub mod Filled
pub mod Repeat
use mamestagram_pp_rs.Prelude.{ℕ, Bool, Option, some}
use mamestagram_pp_rs.Any.Settings.{Difficulty, HitResultPriority, MapOrAttrs}
use mamestagram_pp_rs.Any.Setters as DifficultySetters
use mamestagram_pp_rs.Mania.ScoreState.{ManiaScoreState}

pub record ManiaDifficultyAttributes (A : Type 0) : Type 0 where
  pub stars : A
  pub n_objects : ℕ
  pub n_hold_notes : ℕ
  pub max_combo : ℕ
  pub is_convert : Bool

pub record ManiaPerformance (Map Mods A R : Type 0) : Type 0 where
  pub map_or_attrs : MapOrAttrs Map (ManiaDifficultyAttributes A)
  pub difficulty : Difficulty Mods A R
  pub n320 : Option ℕ
  pub n300 : Option ℕ
  pub n200 : Option ℕ
  pub n100 : Option ℕ
  pub n50 : Option ℕ
  pub misses : Option ℕ
  pub acc : Option A
  pub hitresult_priority : HitResultPriority

module _ {Map Mods A R : Type 0} where
  unfoldable pub mods : ManiaPerformance Map Mods A R → Mods → ManiaPerformance Map Mods A R
  unfolding DifficultySetters.mods
  mods p x = record p { difficulty = DifficultySetters.mods p.difficulty x }

  unfoldable pub difficulty :
      ManiaPerformance Map Mods A R → Difficulty Mods A R → ManiaPerformance Map Mods A R
  difficulty p d = record p { difficulty = d }

  unfoldable pub passed_objects : ManiaPerformance Map Mods A R → ℕ → ManiaPerformance Map Mods A R
  unfolding DifficultySetters.passed_objects
  passed_objects p x = record p { difficulty = DifficultySetters.passed_objects p.difficulty x }

  unfoldable pub hitresult_priority :
      ManiaPerformance Map Mods A R → HitResultPriority → ManiaPerformance Map Mods A R
  hitresult_priority p priority = record p { hitresult_priority = priority }

  unfoldable pub lazer : ManiaPerformance Map Mods A R → Bool → ManiaPerformance Map Mods A R
  unfolding DifficultySetters.lazer
  lazer p x = record p { difficulty = DifficultySetters.lazer p.difficulty x }

  unfoldable pub n320 : ManiaPerformance Map Mods A R → ℕ → ManiaPerformance Map Mods A R
  n320 p n = record p { n320 = some n }

  unfoldable pub n300 : ManiaPerformance Map Mods A R → ℕ → ManiaPerformance Map Mods A R
  n300 p n = record p { n300 = some n }

  unfoldable pub n200 : ManiaPerformance Map Mods A R → ℕ → ManiaPerformance Map Mods A R
  n200 p n = record p { n200 = some n }

  unfoldable pub n100 : ManiaPerformance Map Mods A R → ℕ → ManiaPerformance Map Mods A R
  n100 p n = record p { n100 = some n }

  unfoldable pub n50 : ManiaPerformance Map Mods A R → ℕ → ManiaPerformance Map Mods A R
  n50 p n = record p { n50 = some n }

  unfoldable pub misses : ManiaPerformance Map Mods A R → ℕ → ManiaPerformance Map Mods A R
  misses p n = record p { misses = some n }

  unfoldable pub state :
      ManiaPerformance Map Mods A R → ManiaScoreState → ManiaPerformance Map Mods A R
  state p s = record p {
    n320 = some s.n320;
    n300 = some s.n300;
    n200 = some s.n200;
    n100 = some s.n100;
    n50 = some s.n50;
    misses = some s.misses;
  }
