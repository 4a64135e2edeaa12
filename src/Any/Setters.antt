-- ===== src/Any/Setters.antt =====
-- src/any/difficulty/mod.rs: the methods that set a value of `Difficulty`, but for those that limit a
-- float to a range.
use mamestagram_pp_rs.Prelude.{ℕ, Bool, some}
use mamestagram_pp_rs.Any.Settings.{Difficulty}

module _ {Mods A R : Type 0} where
  unfoldable pub mods : Difficulty Mods A R → Mods → Difficulty Mods A R
  mods d m = record d { mods = m }

  unfoldable pub passed_objects : Difficulty Mods A R → ℕ → Difficulty Mods A R
  passed_objects d n = record d { passed_objects = some n }

  unfoldable pub hardrock_offsets : Difficulty Mods A R → Bool → Difficulty Mods A R
  hardrock_offsets d b = record d { hardrock_offsets = some b }

  unfoldable pub lazer : Difficulty Mods A R → Bool → Difficulty Mods A R
  lazer d b = record d { lazer = some b }
