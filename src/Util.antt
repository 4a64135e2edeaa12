-- ===== src/Util.antt =====
-- src/util: the containers that the difficulty calculations stand on.
pub mod LimitedQueue
pub mod StrainsVec
pub mod Random
pub mod IntervalGrouping
pub mod Sort
