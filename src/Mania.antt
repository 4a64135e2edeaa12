-- ===== src/Mania.antt =====
-- src/mania: the osu!mania mode.
pub mod Gradual
pub mod Objects
pub mod ScoreState
pub mod Performance
