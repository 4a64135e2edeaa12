-- ===== src/Taiko.antt =====
-- src/taiko: the osu!taiko mode.
pub mod Gradual
pub mod Performance
pub mod ScoreState
