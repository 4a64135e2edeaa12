-- ===== src/F64/Model.antt =====
-- A value of the interface `F64` that meets its laws and runs: signed multiples of a millionth, and
-- NaN. Examples and tests use it. It stands for no code.
use mamestagram_pp_rs.Prelude.{
  ℕ, ◌+◌, ◌-◌, ◌*◌, ◌/◌, ◌^◌, ◌≤◌, ◌<◌, ◌≡◌, refl, Bool, true, false, Option, none, some, arith,
  ltb, leb, if◌then◌else◌, min, u32_mod, u32_max,
}
use native.Mathlib.Nat.{div-le_of_le-mul}
use mamestagram_pp_rs.F64.Defs.{F64, IsIeee, InUnit}

-- `plus - minus` millionths.
pub record Micro : Type 0 where
  pub plus : ℕ
  pub minus : ℕ

abbrev pub scale : ℕ
scale = 1_000_000

abbrev pub Approx : Type 0
Approx = Option Micro

abbrev micro : ℕ → ℕ → Micro
micro p m = record { plus = p; minus = m }

abbrev lift : (Micro → Approx) → Approx → Approx
lift f none = none
lift f (some a) = f a

abbrev lift₂ : (Micro → Micro → Approx) → Approx → Approx → Approx
lift₂ f (some a) (some b) = f a b
lift₂ f _ _ = none

abbrev test : (Micro → Micro → Bool) → Approx → Approx → Bool
test f (some a) (some b) = f a b
test f _ _ = false

abbrev lt_micro : Micro → Micro → Bool
lt_micro a b = ltb (a.plus + b.minus) (b.plus + a.minus)

abbrev le_micro : Micro → Micro → Bool
le_micro a b = leb (a.plus + b.minus) (b.plus + a.minus)

abbrev abs_micro : Micro → Micro
abs_micro a = micro (a.plus - a.minus + (a.minus - a.plus)) 0

-- A signed quotient; the divisor's sign goes to the dividend.
abbrev div_micro : Micro → Micro → Approx
div_micro a b =
    if ltb b.minus b.plus
    then some (micro (a.plus * scale / (b.plus - b.minus)) (a.minus * scale / (b.plus - b.minus)))
    else if ltb b.plus b.minus
    then some (micro (a.minus * scale / (b.minus - b.plus)) (a.plus * scale / (b.minus - b.plus)))
    else none

abbrev up : ℕ → ℕ
up n = (n + 999_999) / scale * scale

abbrev down : ℕ → ℕ
down n = n / scale * scale

instance abbrev pub approx_f64 : F64 Approx
approx_f64 = record {
  from_u32 = λ n. some (micro (n * scale) 0);
  add = lift₂ λ a b. some (micro (a.plus + b.plus) (a.minus + b.minus));
  sub = lift₂ λ a b. some (micro (a.plus + b.minus) (a.minus + b.plus));
  mul = lift₂ λ a b. some (
      micro ((a.plus * b.plus + a.minus * b.minus) / scale)
        ((a.plus * b.minus + a.minus * b.plus) / scale));
  div = lift₂ div_micro;
  abs = lift λ a. some (abs_micro a);
  floor = lift λ a. some (micro (down (a.plus - a.minus)) (up (a.minus - a.plus)));
  ceil = lift λ a. some (micro (up (a.plus - a.minus)) (down (a.minus - a.plus)));
  min = lift₂ λ a b. some (if lt_micro a b then a else b);
  lt = test lt_micro;
  le = test le_micro;
  f64_max = some (micro (scale * 2 ^ 100) 0);
  infinity = some (micro (scale * 2 ^ 101) 0);
  as_u32 = λ a. elim a [ none ↦ 0 | some x ↦ min u32_max ((x.plus - x.minus) / scale) ];
}

floor-le-ceil :
    (a : Approx) → approx_f64.as_u32 (approx_f64.floor a) ≤ approx_f64.as_u32 (approx_f64.ceil a)
floor-le-ceil none = omega arith
floor-le-ceil (some a) = omega arith

as_u32-lt : (a : Approx) → approx_f64.as_u32 a < u32_mod
as_u32-lt none = omega arith
as_u32-lt (some a) = omega arith

lt_trans :
    (a b c : Approx)
    → approx_f64.lt a b ≡ true
    → approx_f64.lt b c ≡ true
    → approx_f64.lt a c ≡ true
lt_trans (some a) (some b) (some c) h k = ground arith
lt_trans (some a) (some b) none h k = k
lt_trans (some a) none c h k = ground arith
lt_trans none b c h k = h

quotient_le : (n d : ℕ) → n ≤ d → 0 < d → n * scale * scale / (d * scale) ≤ scale
quotient_le n d h k = div-le_of_le-mul (d * scale) (omega arith)

ratio_unit :
    (n d : ℕ)
    → n ≤ d
    → 0 < d
    → d < u32_mod
    → InUnit (approx_f64.div (approx_f64.from_u32 n) (approx_f64.from_u32 d))
ratio_unit n d h k _ = ground (arith, quotient_le n d h k)

dist_finite :
    (a b : Approx)
    → InUnit a
    → InUnit b
    → approx_f64.lt (approx_f64.abs (approx_f64.sub a b)) approx_f64.f64_max ≡ true
dist_finite (some a) (some b) h k = ground arith
dist_finite none b h k = ground arith
dist_finite (some a) none h k = ground arith

pub Approx-IsIeee : IsIeee Approx
Approx-IsIeee = record {
  floor-le-ceil = floor-le-ceil;
  as_u32-lt = as_u32-lt;
  lt_irrefl =
      λ a. elim a as (λ x. approx_f64.lt x x ≡ false) [ none ↦ refl | some x ↦ ground arith ];
  lt_trans = lt_trans;
  ratio_unit = ratio_unit;
  zero_unit = (refl, refl);
  dist_finite = dist_finite;
  max-lt-infinity = refl;
}
