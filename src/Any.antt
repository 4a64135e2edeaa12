-- ===== src/Any.antt =====
-- src/any: what the four game modes share, scores (`ScoreState`), the settings of a calculation
-- (`Difficulty`, `MapOrAttrs`, `HitResultPriority`) and `Performance`, which has a mode at run time.
pub mod ScoreState
pub mod Settings
pub mod Gradual
pub mod Performance
pub mod Setters
