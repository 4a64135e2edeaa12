-- ===== src/Tests/Any.antt =====
-- Examples for src/any/performance/mod.rs.
use mamestagram_pp_rs.Prelude.{none, some}
use mamestagram_pp_rs.F64.Model.{Approx}
use mamestagram_pp_rs.Any.Settings.{of_map, best_case}
use mamestagram_pp_rs.Any.ScoreState.{ScoreState}
use mamestagram_pp_rs.Mania.Performance.{ManiaPerformance}
use mamestagram_pp_rs.Tests.Common.{plain}

abbrev empty : ManiaPerformance (Unit {0}) (Unit {0}) Approx (Unit {0})
empty = record {
  map_or_attrs = of_map tt;
  difficulty = plain;
  n320 = none;
  n300 = none;
  n200 = none;
  n100 = none;
  n50 = none;
  misses = some 3;
  acc = none;
  hitresult_priority = best_case;
}

abbrev counts : ScoreState
counts = record {
  max_combo = 100;
  osu_large_tick_hits = 9;
  osu_small_tick_hits = 8;
  slider_end_hits = 7;
  n_geki = 1;
  n_katu = 2;
  n300 = 3;
  n100 = 4;
  n50 = 5;
  misses = 6;
}
