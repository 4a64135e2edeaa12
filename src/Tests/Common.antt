-- ===== src/Tests/Common.antt =====
-- Values that the examples share: numbers between 0 and 1, and settings with nothing set.
use mamestagram_pp_rs.Prelude.{none, some}
use mamestagram_pp_rs.F64.Model.{Approx}
use mamestagram_pp_rs.Any.Settings.{Difficulty}

abbrev pub nil : Approx
nil = some (record { plus = 0; minus = 0 })

-- 95%
abbrev pub high : Approx
high = some (record { plus = 950_000; minus = 0 })

abbrev pub plain : Difficulty (Unit {0}) Approx (Unit {0})
plain = record {
  mods = tt;
  passed_objects = none;
  clock_rate = none;
  ar = none;
  cs = none;
  hp = none;
  od = none;
  hardrock_offsets = none;
  lazer = none;
}
