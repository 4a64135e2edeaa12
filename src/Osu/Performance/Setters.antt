-- ===== src/Osu/Performance/Setters.antt =====
-- src/osu/performance/mod.rs: the methods that set a value of `OsuPerformance`, but for those that
-- limit a float to a range.
use mamestagram_pp_rs.Prelude.{ℕ, Bool, some}
use mamestagram_pp_rs.Any.Settings.{Difficulty, HitResultPriority}
use mamestagram_pp_rs.Any.Setters as DifficultySetters
use mamestagram_pp_rs.Osu.Performance.Defs.{OsuPerformance}

module _ {Map Mods A R : Type 0} where
  unfoldable pub mods : OsuPerformance Map Mods A R → Mods → OsuPerformance Map Mods A R
  unfolding DifficultySetters.mods
  mods p x = record p { difficulty = DifficultySetters.mods p.difficulty x }

  unfoldable pub combo : OsuPerformance Map Mods A R → ℕ → OsuPerformance Map Mods A R
  combo p n = record p { combo = some n }

  unfoldable pub hitresult_priority :
      OsuPerformance Map Mods A R → HitResultPriority → OsuPerformance Map Mods A R
  hitresult_priority p priority = record p { hitresult_priority = priority }

  unfoldable pub lazer : OsuPerformance Map Mods A R → Bool → OsuPerformance Map Mods A R
  unfolding DifficultySetters.lazer
  lazer p x = record p { difficulty = DifficultySetters.lazer p.difficulty x }

  unfoldable pub large_tick_hits : OsuPerformance Map Mods A R → ℕ → OsuPerformance Map Mods A R
  large_tick_hits p n = record p { large_tick_hits = some n }

  unfoldable pub small_tick_hits : OsuPerformance Map Mods A R → ℕ → OsuPerformance Map Mods A R
  small_tick_hits p n = record p { small_tick_hits = some n }

  unfoldable pub slider_end_hits : OsuPerformance Map Mods A R → ℕ → OsuPerformance Map Mods A R
  slider_end_hits p n = record p { slider_end_hits = some n }

  unfoldable pub n300 : OsuPerformance Map Mods A R → ℕ → OsuPerformance Map Mods A R
  n300 p n = record p { n300 = some n }

  unfoldable pub n100 : OsuPerformance Map Mods A R → ℕ → OsuPerformance Map Mods A R
  n100 p n = record p { n100 = some n }

  unfoldable pub n50 : OsuPerformance Map Mods A R → ℕ → OsuPerformance Map Mods A R
  n50 p n = record p { n50 = some n }

  unfoldable pub misses : OsuPerformance Map Mods A R → ℕ → OsuPerformance Map Mods A R
  misses p n = record p { misses = some n }

  unfoldable pub difficulty :
      OsuPerformance Map Mods A R → Difficulty Mods A R → OsuPerformance Map Mods A R
  difficulty p d = record p { difficulty = d }

  unfoldable pub passed_objects : OsuPerformance Map Mods A R → ℕ → OsuPerformance Map Mods A R
  unfolding DifficultySetters.passed_objects
  passed_objects p x = record p { difficulty = DifficultySetters.passed_objects p.difficulty x }
