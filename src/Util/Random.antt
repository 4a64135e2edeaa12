-- ===== src/Util/Random.antt =====
-- src/util/random.rs: the generator of osu!'s conversions, which draws words of 32 bits and hands them
-- out as numbers or bit by bit. Its numbers of type `f64` are left out.
pub mod Bits
use Prim.Native.Nat.{bit_xor}
use mamestagram_pp_rs.Prelude.{
  ℕ, ◌+◌, ◌-◌, ◌*◌, ◌/◌, ◌%◌, ◌^◌, Bool, ◌==◌, if◌then◌else◌, u32_mod, u32_max,
}

-- The integers: `negsuc n` is `-1 - n`.
pub data ℤ : Type 0 where
  pos negsuc : ℕ → ℤ

-- `bit_idx` lies between 1 and 32.
pub record Random : Type 0 where
  pub x : ℕ
  pub y : ℕ
  pub z : ℕ
  pub w : ℕ
  pub bit_buf : ℕ
  pub bit_idx : ℕ

-- `seed as u32` of an `i32`, which keeps the lower 32 bits.
unfoldable pub as_u32 : ℤ → ℕ
as_u32 (ℤ.pos n) = n % u32_mod
as_u32 (ℤ.negsuc n) = u32_max - n % u32_mod

unfoldable pub new : ℤ → Random
unfolding as_u32
new seed = record {
  x = as_u32 seed;
  y = 842_502_087;
  z = 3_579_807_591;
  w = 273_326_509;
  bit_buf = 0;
  bit_idx = 32;
}

-- The word drawn, and the generator after it. `<<` drops the bits above 32.
unfoldable pub gen_unsigned : Random → ℕ × Random
gen_unsigned r =
    let t = bit_xor r.x (r.x * 2 ^ 11 % u32_mod) in
    let w = bit_xor (bit_xor (bit_xor r.w (r.w / 2 ^ 19)) t) (t / 2 ^ 8) in
    (w, record r { x = r.y; y = r.z; z = r.w; w = w })

-- `INT_MASK &` keeps the lower 31 bits, so the cast to `i32` changes nothing.
unfoldable pub next_int : Random → ℕ × Random
unfolding gen_unsigned
next_int r = let (word, r') = gen_unsigned r in (word % 2 ^ 31, r')

-- `(self.bit_buf & 1) == 1`
unfoldable pub low_bit : ℕ → Bool
low_bit n = (n % 2) == 1

unfoldable pub next_bool : Random → Bool × Random
unfolding gen_unsigned low_bit
next_bool r =
    let (word, r') = gen_unsigned r in
    let fresh = record r' { bit_buf = word; bit_idx = 1 } in
    let shifted = record r { bit_buf = r.bit_buf / 2; bit_idx = r.bit_idx + 1 } in
    let after = if r.bit_idx == 32 then fresh else shifted in (low_bit after.bit_buf, after)
