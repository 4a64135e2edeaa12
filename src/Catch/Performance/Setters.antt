-- ===== src/Catch/Performance/Setters.antt =====
-- src/catch/performance/mod.rs: the methods that set a value of `CatchPerformance`, but for those that
-- limit a float to a range.
use mamestagram_pp_rs.Prelude.{ℕ, Bool, some}
use mamestagram_pp_rs.Any.Settings.{Difficulty}
use mamestagram_pp_rs.Any.Setters as DifficultySetters
use mamestagram_pp_rs.Catch.Performance.{CatchPerformance}

module _ {Map Mods A R : Type 0} where
  unfoldable pub mods : CatchPerformance Map Mods A R → Mods → CatchPerformance Map Mods A R
  unfolding DifficultySetters.mods
  mods p x = record p { difficulty = DifficultySetters.mods p.difficulty x }

  unfoldable pub combo : CatchPerformance Map Mods A R → ℕ → CatchPerformance Map Mods A R
  combo p n = record p { combo = some n }

  unfoldable pub fruits : CatchPerformance Map Mods A R → ℕ → CatchPerformance Map Mods A R
  fruits p n = record p { fruits = some n }

  unfoldable pub droplets : CatchPerformance Map Mods A R → ℕ → CatchPerformance Map Mods A R
  droplets p n = record p { droplets = some n }

  unfoldable pub tiny_droplets : CatchPerformance Map Mods A R → ℕ → CatchPerformance Map Mods A R
  tiny_droplets p n = record p { tiny_droplets = some n }

  unfoldable pub tiny_droplet_misses :
      CatchPerformance Map Mods A R → ℕ → CatchPerformance Map Mods A R
  tiny_droplet_misses p n = record p { tiny_droplet_misses = some n }

  unfoldable pub misses : CatchPerformance Map Mods A R → ℕ → CatchPerformance Map Mods A R
  misses p n = record p { misses = some n }

  unfoldable pub difficulty :
      CatchPerformance Map Mods A R → Difficulty Mods A R → CatchPerformance Map Mods A R
  difficulty p d = record p { difficulty = d }

  unfoldable pub passed_objects : CatchPerformance Map Mods A R → ℕ → CatchPerformance Map Mods A R
  unfolding DifficultySetters.passed_objects
  passed_objects p x = record p { difficulty = DifficultySetters.passed_objects p.difficulty x }

  unfoldable pub hardrock_offsets :
      CatchPerformance Map Mods A R → Bool → CatchPerformance Map Mods A R
  unfolding DifficultySetters.hardrock_offsets
  hardrock_offsets p x = record p { difficulty = DifficultySetters.hardrock_offsets p.difficulty x }
