-- ===== src/F64/Defs.antt =====
-- `f64`, which the program takes from the hardware: the operations that the modelled code calls, as an
-- interface that each definition takes as an instance, and the laws of IEEE 754 that proofs use.
use mamestagram_pp_rs.Prelude.{Option, none, some, ℕ, ◌≤◌, ◌<◌, ◌≡◌, Bool, true, false, u32_mod}

pub record F64 {ℓ} (A : Type ℓ) : Type ℓ where
  -- `f64::from(n)`
  pub from_u32 : ℕ → A
  pub add : A → A → A
  pub sub : A → A → A
  pub mul : A → A → A
  pub div : A → A → A
  pub abs : A → A
  pub floor : A → A
  pub ceil : A → A
  pub min : A → A → A
  -- `a < b` and `a <= b`, both false on NaN
  pub lt : A → A → Bool
  pub le : A → A → Bool
  -- `f64::MAX`, `f64::INFINITY`
  pub f64_max : A
  pub infinity : A
  -- `x as u32`: towards zero, saturating, NaN to 0
  pub as_u32 : A → ℕ

-- Between 0 and 1, so not NaN.
abbrev pub InUnit {ℓ} : {A : Type ℓ} ⦃f : F64 A⦄ → A → Type 0
InUnit ⦃f⦄ a = (f.le (f.from_u32 0) a ≡ true) × (f.le a (f.from_u32 1) ≡ true)

module _ {A : Type 0} ⦃f : F64 A⦄ where
  -- An accuracy, where one is given, lies between 0 and 1.
  abbrev pub AccOk : Option A → Type 0
  AccOk none = Unit {0}
  AccOk (some acc) = InUnit acc

-- Documented behaviour of binary64.
pub record IsIeee {ℓ} (A : Type ℓ) ⦃f : F64 A⦄ : Type ℓ where
  pub floor-le-ceil : (a : A) → f.as_u32 (f.floor a) ≤ f.as_u32 (f.ceil a)
  pub as_u32-lt : (a : A) → f.as_u32 a < u32_mod
  pub lt_irrefl : (a : A) → f.lt a a ≡ false
  pub lt_trans : (a b c : A) → f.lt a b ≡ true → f.lt b c ≡ true → f.lt a c ≡ true
  -- A quotient of counts that is at most 1 rounds to a number that is at most 1.
  pub ratio_unit :
      (n d : ℕ) → n ≤ d → 0 < d → d < u32_mod → InUnit (f.div (f.from_u32 n) (f.from_u32 d))
  pub zero_unit : InUnit (f.from_u32 0)
  -- Two numbers between 0 and 1 are less than `f64::MAX` apart.
  pub dist_finite : (a b : A) → InUnit a → InUnit b → f.lt (f.abs (f.sub a b)) f.f64_max ≡ true
  pub max-lt-infinity : f.lt f.f64_max f.infinity ≡ true
