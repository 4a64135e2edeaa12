-- ===== src/F64.antt =====
-- `f64` as an interface (`Defs`), and a value of it that shows the laws can be met (`Model`).
mod Defs
pub mod Model
pub mod Nearest
pub use Defs.*
