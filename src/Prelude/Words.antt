-- ===== src/Prelude/Words.antt =====
-- `u32` arithmetic as a release build computes it: sums, differences and products wrap at 2 ^ 32.
-- `saturating_sub` is the truncated subtraction of the native numbers.
use Prim.Native.Nat.{ℕ, ◌+◌, ◌-◌, ◌*◌, ◌%◌, ◌^◌, ◌≤◌, ◌<◌}
use mathlib.Core.Path.{◌≡◌}
use native.Mathlib.Omega.{arith}

abbrev pub u32_mod : ℕ
u32_mod = 2 ^ 32

abbrev pub u32_max : ℕ
u32_max = 2 ^ 32 - 1

infixl 65 ◌+u◌ ◌-u◌
infixl 70 ◌*u◌
unfoldable pub ◌+u◌ : ℕ → ℕ → ℕ
a +u b = (a + b) % u32_mod

unfoldable pub ◌-u◌ : ℕ → ℕ → ℕ
a -u b = (a + u32_mod - b) % u32_mod

unfoldable pub ◌*u◌ : ℕ → ℕ → ℕ
a *u b = a * b % u32_mod

-- Where no operation leaves the range, each is the exact one.
pub +u_exact : (a b : ℕ) → a + b < u32_mod → a +u b ≡ a + b
unfolding ◌+u◌
+u_exact a b h = omega arith

pub -u_exact : (a b : ℕ) → b ≤ a → a < u32_mod → a -u b ≡ a - b
unfolding ◌-u◌
-u_exact a b h k = omega arith
