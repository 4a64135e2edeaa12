-- ===== src/Mania/ScoreState.antt =====
-- src/mania/score_state.rs: the counts of an osu!mania score and its accuracy.
use mamestagram_pp_rs.Prelude.{ℕ, ◌+u◌, ◌*u◌, ◌==◌, if◌then◌else◌}
use mamestagram_pp_rs.F64.{F64}

pub record ManiaScoreState : Type 0 where
  pub n320 : ℕ
  pub n300 : ℕ
  pub n200 : ℕ
  pub n100 : ℕ
  pub n50 : ℕ
  pub misses : ℕ

unfoldable pub new : ManiaScoreState
new = record { n320 = 0; n300 = 0; n200 = 0; n100 = 0; n50 = 0; misses = 0 }

unfoldable pub total_hits : ManiaScoreState → ℕ
total_hits s = s.n320 +u s.n300 +u s.n200 +u s.n100 +u s.n50 +u s.misses

unfoldable pub accuracy : {A : Type 0} ⦃f : F64 A⦄ → ManiaScoreState → A
unfolding total_hits
accuracy ⦃f⦄ s =
    let total_hits = total_hits s in
    if total_hits == 0
    then f.from_u32 0
    else f.div (f.from_u32 (6 *u (s.n320 +u s.n300) +u 4 *u s.n200 +u 2 *u s.n100 +u s.n50))
        (f.from_u32 (6 *u total_hits))
