-- ===== src/Model.antt =====
-- src/model: maps.
pub mod Beatmap
pub mod Conversion
pub mod HitObject
