-- ===== src/Osu.antt =====
-- src/osu.
pub mod ScoreState
pub mod Performance
pub mod Gradual
