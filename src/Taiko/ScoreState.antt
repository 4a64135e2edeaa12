-- ===== src/Taiko/ScoreState.antt =====
-- src/taiko/score_state.rs: the operations of `TaikoScoreState`.
use mamestagram_pp_rs.Prelude.{ℕ, ◌+u◌, ◌*u◌, ◌==◌, if◌then◌else◌}
use mamestagram_pp_rs.F64.{F64}
use mamestagram_pp_rs.Taiko.Performance.{TaikoScoreState}

unfoldable pub new : TaikoScoreState
new = record { max_combo = 0; n300 = 0; n100 = 0; misses = 0 }

unfoldable pub total_hits : TaikoScoreState → ℕ
total_hits s = s.n300 +u s.n100 +u s.misses

unfoldable pub accuracy : {A : Type 0} ⦃f : F64 A⦄ → TaikoScoreState → A
unfolding total_hits
accuracy ⦃f⦄ s =
    let total_hits = total_hits s in
    if total_hits == 0
    then f.from_u32 0
    else f.div (f.from_u32 (2 *u s.n300 +u s.n100)) (f.from_u32 (2 *u total_hits))
