-- ===== src/Taiko/Performance/Setters.antt =====
-- src/taiko/performance/mod.rs: the methods that set a value of `TaikoPerformance`, but for those that
-- limit a float to a range.
use mamestagram_pp_rs.Prelude.{ℕ, some}
use mamestagram_pp_rs.Any.Settings.{Difficulty, HitResultPriority}
use mamestagram_pp_rs.Any.Setters as DifficultySetters
use mamestagram_pp_rs.Taiko.Performance.{TaikoPerformance}

module _ {Map Mods A R : Type 0} where
  unfoldable pub mods : TaikoPerformance Map Mods A R → Mods → TaikoPerformance Map Mods A R
  unfolding DifficultySetters.mods
  mods p x = record p { difficulty = DifficultySetters.mods p.difficulty x }

  unfoldable pub combo : TaikoPerformance Map Mods A R → ℕ → TaikoPerformance Map Mods A R
  combo p n = record p { combo = some n }

  unfoldable pub hitresult_priority :
      TaikoPerformance Map Mods A R → HitResultPriority → TaikoPerformance Map Mods A R
  hitresult_priority p priority = record p { hitresult_priority = priority }

  unfoldable pub n300 : TaikoPerformance Map Mods A R → ℕ → TaikoPerformance Map Mods A R
  n300 p n = record p { n300 = some n }

  unfoldable pub n100 : TaikoPerformance Map Mods A R → ℕ → TaikoPerformance Map Mods A R
  n100 p n = record p { n100 = some n }

  unfoldable pub misses : TaikoPerformance Map Mods A R → ℕ → TaikoPerformance Map Mods A R
  misses p n = record p { misses = some n }

  unfoldable pub difficulty :
      TaikoPerformance Map Mods A R → Difficulty Mods A R → TaikoPerformance Map Mods A R
  difficulty p d = record p { difficulty = d }

  unfoldable pub passed_objects : TaikoPerformance Map Mods A R → ℕ → TaikoPerformance Map Mods A R
  unfolding DifficultySetters.passed_objects
  passed_objects p x = record p { difficulty = DifficultySetters.passed_objects p.difficulty x }
