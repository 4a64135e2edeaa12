-- ===== src/Catch/ScoreState.antt =====
-- src/catch/score_state.rs: the operations of `CatchScoreState`.
use mamestagram_pp_rs.Prelude.{ℕ, ◌+u◌, ◌==◌, if◌then◌else◌}
use mamestagram_pp_rs.F64.{F64}
use mamestagram_pp_rs.Catch.Performance.{CatchScoreState}

unfoldable pub new : CatchScoreState
new = record {
  max_combo = 0;
  fruits = 0;
  droplets = 0;
  tiny_droplets = 0;
  tiny_droplet_misses = 0;
  misses = 0;
}

unfoldable pub total_hits : CatchScoreState → ℕ
total_hits s = s.fruits +u s.droplets +u s.tiny_droplets +u s.tiny_droplet_misses +u s.misses

unfoldable pub accuracy : {A : Type 0} ⦃f : F64 A⦄ → CatchScoreState → A
unfolding total_hits
accuracy ⦃f⦄ s =
    let total_hits = total_hits s in
    if total_hits == 0
    then f.from_u32 0
    else f.div (f.from_u32 (s.fruits +u s.droplets +u s.tiny_droplets)) (f.from_u32 total_hits)
