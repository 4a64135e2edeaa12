-- ===== src/Catch.antt =====
-- src/catch.
pub mod Counts
pub mod Gradual
pub mod JuiceStream
pub mod Objects
pub mod Performance
pub mod ScoreState
