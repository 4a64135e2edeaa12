-- ===== src/Tests.antt =====
-- Runs of the modelled code on concrete inputs, and the theorems at inputs that meet their conditions.
pub mod Common
pub mod Taiko
pub mod Catch
pub mod Osu
pub mod Mania
pub mod Modes
mod Convert
mod Gradual
mod Grouping
mod Objects
mod Sort
mod Util
mod Any
