-- ===== src/Osu/ScoreState.antt =====
-- src/osu/score_state.rs: the counts of an osu!standard score and its accuracy.
use mamestagram_pp_rs.Prelude.{ℕ, ◌+u◌, ◌*u◌, min, ◌==◌, if◌then◌else◌}
use mamestagram_pp_rs.F64.{F64}

pub record OsuScoreState : Type 0 where
  pub max_combo : ℕ
  pub large_tick_hits : ℕ
  pub small_tick_hits : ℕ
  pub slider_end_hits : ℕ
  pub n300 : ℕ
  pub n100 : ℕ
  pub n50 : ℕ
  pub misses : ℕ

pub data OsuScoreOrigin : Type 0 where
  stable : OsuScoreOrigin
  -- `max_large_ticks`, `max_slider_ends`
  with_slider_acc : ℕ → ℕ → OsuScoreOrigin
  -- `max_large_ticks`, `max_small_ticks`
  without_slider_acc : ℕ → ℕ → OsuScoreOrigin

unfoldable pub new : OsuScoreState
new = record {
  max_combo = 0;
  large_tick_hits = 0;
  small_tick_hits = 0;
  slider_end_hits = 0;
  n300 = 0;
  n100 = 0;
  n50 = 0;
  misses = 0;
}

unfoldable pub total_hits : OsuScoreState → ℕ
total_hits s = s.n300 +u s.n100 +u s.n50 +u s.misses

-- What `origin` adds to the numerator and to the denominator.
unfoldable pub slider_part : OsuScoreOrigin → ℕ → ℕ → ℕ → ℕ × ℕ
slider_part stable large small ends = (0, 0)
slider_part (with_slider_acc max_large max_ends) large small ends =
    (150 *u min ends max_ends +u 30 *u min large max_large, 150 *u max_ends +u 30 *u max_large)
slider_part (without_slider_acc max_large max_small) large small ends =
    (30 *u min large max_large +u 10 *u min small max_small, 30 *u max_large +u 10 *u max_small)

unfoldable pub accuracy : {A : Type 0} ⦃f : F64 A⦄ → OsuScoreState → OsuScoreOrigin → A
unfolding slider_part
accuracy ⦃f⦄ s origin =
    let (n, d) = slider_part origin s.large_tick_hits s.small_tick_hits s.slider_end_hits in
    let numerator = 300 *u s.n300 +u 100 *u s.n100 +u 50 *u s.n50 +u n in
    let denominator = 300 *u (s.n300 +u s.n100 +u s.n50 +u s.misses) +u d in
    if denominator == 0 then f.from_u32 0 else f.div (f.from_u32 numerator) (f.from_u32 denominator)
