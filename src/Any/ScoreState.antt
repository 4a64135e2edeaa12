-- ===== src/Any/ScoreState.antt =====
-- src/any/score_state.rs: the counts of a score of any mode, and the conversions from and to the
-- counts of one mode.
pub mod Modes
use mamestagram_pp_rs.Prelude.{ℕ, Bool, true, false, not, of_bool, ◌+u◌, ◌*u◌, if◌then◌else◌}
use mamestagram_pp_rs.Any.Settings.{GameMode, osu, taiko, catch, mania}
use mamestagram_pp_rs.Osu.ScoreState.{OsuScoreState}
use mamestagram_pp_rs.Taiko.Performance.{TaikoScoreState}
use mamestagram_pp_rs.Catch.Performance.{CatchScoreState}
use mamestagram_pp_rs.Mania.ScoreState.{ManiaScoreState}

pub record ScoreState : Type 0 where
  pub max_combo : ℕ
  pub osu_large_tick_hits : ℕ
  pub osu_small_tick_hits : ℕ
  pub slider_end_hits : ℕ
  pub n_geki : ℕ
  pub n_katu : ℕ
  pub n300 : ℕ
  pub n100 : ℕ
  pub n50 : ℕ
  pub misses : ℕ

unfoldable pub new : ScoreState
new = record {
  max_combo = 0;
  osu_large_tick_hits = 0;
  osu_small_tick_hits = 0;
  slider_end_hits = 0;
  n_geki = 0;
  n_katu = 0;
  n300 = 0;
  n100 = 0;
  n50 = 0;
  misses = 0;
}

-- The derived `==` of `GameMode`
unfoldable pub same_mode : GameMode → GameMode → Bool
same_mode osu osu = true
same_mode taiko taiko = true
same_mode catch catch = true
same_mode mania mania = true
same_mode _ _ = false

unfoldable pub total_hits : ScoreState → GameMode → ℕ
unfolding same_mode
total_hits s mode =
    let amount = s.n300 +u s.n100 +u s.misses in
    if not (same_mode mode taiko)
    then (let with_n50 = amount +u s.n50 in
        if not (same_mode mode osu)
        then with_n50 +u s.n_katu +u of_bool (not (same_mode mode catch)) *u s.n_geki
        else with_n50)
    else amount

unfoldable pub to_osu : ScoreState → OsuScoreState
to_osu s = record {
  max_combo = s.max_combo;
  large_tick_hits = s.osu_large_tick_hits;
  small_tick_hits = s.osu_small_tick_hits;
  slider_end_hits = s.slider_end_hits;
  n300 = s.n300;
  n100 = s.n100;
  n50 = s.n50;
  misses = s.misses;
}

unfoldable pub to_taiko : ScoreState → TaikoScoreState
to_taiko s = record { max_combo = s.max_combo; n300 = s.n300; n100 = s.n100; misses = s.misses }

unfoldable pub to_catch : ScoreState → CatchScoreState
to_catch s = record {
  max_combo = s.max_combo;
  fruits = s.n300;
  droplets = s.n100;
  tiny_droplets = s.n50;
  tiny_droplet_misses = s.n_katu;
  misses = s.misses;
}

unfoldable pub to_mania : ScoreState → ManiaScoreState
to_mania s = record {
  n320 = s.n_geki;
  n300 = s.n300;
  n200 = s.n_katu;
  n100 = s.n100;
  n50 = s.n50;
  misses = s.misses;
}

unfoldable pub from_osu : OsuScoreState → ScoreState
from_osu s = record {
  max_combo = s.max_combo;
  osu_large_tick_hits = s.large_tick_hits;
  osu_small_tick_hits = s.small_tick_hits;
  slider_end_hits = s.slider_end_hits;
  n_geki = 0;
  n_katu = 0;
  n300 = s.n300;
  n100 = s.n100;
  n50 = s.n50;
  misses = s.misses;
}

unfoldable pub from_taiko : TaikoScoreState → ScoreState
from_taiko s = record {
  max_combo = s.max_combo;
  osu_large_tick_hits = 0;
  osu_small_tick_hits = 0;
  slider_end_hits = 0;
  n_geki = 0;
  n_katu = 0;
  n300 = s.n300;
  n100 = s.n100;
  n50 = 0;
  misses = s.misses;
}

unfoldable pub from_catch : CatchScoreState → ScoreState
from_catch s = record {
  max_combo = s.max_combo;
  osu_large_tick_hits = 0;
  osu_small_tick_hits = 0;
  slider_end_hits = 0;
  n_geki = 0;
  n_katu = s.tiny_droplet_misses;
  n300 = s.fruits;
  n100 = s.droplets;
  n50 = s.tiny_droplets;
  misses = s.misses;
}

unfoldable pub from_mania : ManiaScoreState → ScoreState
from_mania s = record {
  max_combo = 0;
  osu_large_tick_hits = 0;
  osu_small_tick_hits = 0;
  slider_end_hits = 0;
  n_geki = s.n320;
  n_katu = s.n200;
  n300 = s.n300;
  n100 = s.n100;
  n50 = s.n50;
  misses = s.misses;
}
