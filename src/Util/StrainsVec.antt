-- ===== src/Util/StrainsVec.antt =====
-- src/util/strains_vec.rs: a vector of strains that stores a run of zeros as its length. An `f64` and a
-- `StrainsEntry` are both their 64 bits here: an entry with its sign bit is a run of zeros, whose
-- length is the other 63 bits (`& ZERO_COUNT_MASK` is `% 2 ^ 63`). `has_zero` is left out, which only
-- debug builds have.
pub mod Contents
pub mod IntoVec
pub mod Iterator
pub mod Retain
use mamestagram_pp_rs.Prelude.{
  ℕ, zero, suc, ◌+◌, ◌-◌, ◌%◌, ◌^◌, Bool, not, true, false, ◌&&◌, Option, none, some, List, [], ◌∷◌,
  ◌++◌, ltb, leb, ◌==◌, take, replicate, length, if◌then◌else◌,
}

abbrev pub u64_mod : ℕ
u64_mod = 2 ^ 64

-- `ZERO_COUNT_MASK + 1`
abbrev pub sign_bit : ℕ
sign_bit = 2 ^ 63

pub record StrainsVec : Type 0 where
  pub inner : List ℕ
  pub len : ℕ

unfoldable pub new_zero : ℕ
new_zero = sign_bit + 1

unfoldable pub is_zero : ℕ → Bool
is_zero e = leb sign_bit e

unfoldable pub is_value : ℕ → Bool
unfolding is_zero
is_value e = not (is_zero e)

unfoldable pub zero_count : ℕ → ℕ
zero_count e = e % sign_bit

unfoldable pub incr_zero_count : ℕ → ℕ
incr_zero_count e = (e + 1) % u64_mod

unfoldable pub decr_zero_count : ℕ → ℕ
decr_zero_count e = (e + u64_mod - 1) % u64_mod

unfoldable pub with_capacity : StrainsVec
with_capacity = record { inner = []; len = 0 }

-- `inner.last_mut().filter(is_zero)`: the last entry counts one more zero, if it is a run, and
-- otherwise a new run comes behind it.
unfoldable pub push_zero : List ℕ → List ℕ
unfolding is_zero incr_zero_count new_zero
push_zero [] = new_zero ∷ []
push_zero (e ∷ []) = if is_zero e then incr_zero_count e ∷ [] else e ∷ new_zero ∷ []
push_zero (e ∷ e' ∷ es) = e ∷ push_zero (e' ∷ es)

-- `value.to_bits() > 0 && value.is_sign_positive()`
unfoldable pub is_positive : ℕ → Bool
is_positive value = ltb 0 value && ltb value sign_bit

unfoldable pub push : StrainsVec → ℕ → StrainsVec
unfolding is_positive push_zero
push v value = record {
  inner = if is_positive value then v.inner ++ value ∷ [] else push_zero v.inner;
  len = (v.len + 1) % u64_mod;
}

unfoldable pub retain_values : List ℕ → List ℕ
unfolding is_value
retain_values [] = []
retain_values (e ∷ es) = let rest = retain_values es in if is_value e then e ∷ rest else rest

unfoldable pub retain_non_zero : StrainsVec → StrainsVec
unfolding retain_values
retain_non_zero v = record v { inner = retain_values v.inner }

-- `copy_non_zero`: the entries passed so far, then those of the iterator up to a run of zeros. Returns
-- the output, the length of the run and what is left to iterate.
unfoldable pub copy_non_zero : List ℕ → ℕ → List ℕ → List ℕ → List ℕ × Option ℕ × List ℕ
unfolding is_zero zero_count
copy_non_zero slice count [] dst = (dst ++ take count slice, none, [])
copy_non_zero slice count (e ∷ es) dst =
    let rest = copy_non_zero slice (suc count) es dst in
    if is_zero e then (dst ++ take count slice, some (zero_count e), es) else rest

-- `while let`, on fuel; `none` is out of fuel.
unfoldable pub copy_all : ℕ → List ℕ → List ℕ → Option (List ℕ)
unfolding copy_non_zero
copy_all zero iter dst = none
copy_all (suc fuel) iter dst =
    let (dst', zeros, rest) = copy_non_zero iter 0 iter dst in
    elim zeros [ none ↦ some dst' | some count ↦ copy_all fuel rest (dst' ++ replicate count 0) ]

-- Each round of the loop takes an entry or is the last.
unfoldable pub into_vec : StrainsVec → Option (List ℕ)
unfolding copy_all
into_vec v = copy_all (suc (length v.inner)) v.inner []

pub record StrainsIter : Type 0 where
  pub inner : List ℕ
  pub curr : Option ℕ
  pub len : ℕ

-- `inner.next()`
unfoldable pub advance : List ℕ → ℕ → StrainsIter
advance [] len = record { inner = []; curr = none; len = len }
advance (e ∷ es) len = record { inner = es; curr = some e; len = len }

unfoldable pub iter : StrainsVec → StrainsIter
unfolding advance
iter v = advance v.inner v.len

-- `loop`, with `curr` and the entries left; the number of elements left becomes `len'` where one is
-- returned.
unfoldable pub next_loop : Option ℕ → List ℕ → ℕ → ℕ → Option ℕ × StrainsIter
unfolding is_value zero_count decr_zero_count advance
next_loop none inner len len' = (none, record { inner = inner; curr = none; len = len })
next_loop (some e) [] len len' =
    if is_value e
    then (some e, advance [] len')
    else if ltb 0 (zero_count e)
    then (some 0, record { inner = []; curr = some (decr_zero_count e); len = len' })
    else (none, advance [] len)
next_loop (some e) (e' ∷ es) len len' =
    let rest = next_loop (some e') es len len' in
    if is_value e
    then (some e, advance (e' ∷ es) len')
    else if ltb 0 (zero_count e)
    then (some 0, record { inner = e' ∷ es; curr = some (decr_zero_count e); len = len' })
    else rest

unfoldable pub next : StrainsIter → Option ℕ × StrainsIter
unfolding next_loop
next it = next_loop it.curr it.inner it.len ((it.len + u64_mod - 1) % u64_mod)
