-- ===== src/Osu/Performance.antt =====
-- src/osu/performance/mod.rs: `OsuPerformance::generate_state`. `calculate_for_mode` and
-- `GameMods::no_slider_head_acc` are arguments.
mod Defs
pub mod Search
pub mod Complete
pub mod Bounds
pub mod Totals
pub mod Repeat
pub mod Nearest
pub mod Setters
unfoldable pub use Defs.*
