-- ===== src/Prelude.antt =====
-- Names shared by every module: the libraries', passed on, with tests, lists, machine words and
-- counted loops from the children.
mod Tests
mod Lists
mod Slices
mod Words
mod Loops
mod Iterators
pub use Tests.*
pub use Lists.*
pub use Slices.*
unfoldable pub use Words.*
unfoldable pub use Loops.*
unfoldable pub use Iterators.*
pub use Prim.Native.Nat.{
  ℕ, zero, suc, ◌+◌, ◌-◌, ◌*◌, ◌/◌, ◌%◌, ◌^◌, ◌≤◌, ◌<◌, min, max, compare, Ordering,
}
pub use mathlib.Core.Path.{◌≡◌, refl, sym, ap, ap₂, ◌∙◌, subst, ◌≡⟨◌⟩◌, ◌∎}
pub use mathlib.Core.Logic.{◌≢◌, ◌↔◌, ◌⊎◌, inl, inr}
pub use mathlib.Core.Bool.{Bool, true, false, ◌&&◌, ◌||◌, not}
pub use mathlib.Core.Option.{Option, none, some}
pub use mathlib.Core.List.{List, [], ◌∷◌, ◌++◌, map, append-nil, append_assoc}
pub use native.Mathlib.Omega.{arith}
