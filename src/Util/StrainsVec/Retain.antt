-- ===== src/Util/StrainsVec/Retain.antt =====
-- `StrainsVec::retain_non_zero` removes the zeros.
use mamestagram_pp_rs.Prelude.{
  ℕ, zero, suc, ◌%◌, ◌≤◌, ◌<◌, ◌≡◌, refl, ap, sym, ◌∙◌, List, [], ◌∷◌, ◌++◌, ◌==◌, replicate,
  if◌then◌else◌, arith,
}
use native.Mathlib.Decide.{dec_lt}
use mamestagram_pp_rs.Util.StrainsVec.{
  StrainsVec, sign_bit, is_zero, is_value, retain_values, retain_non_zero,
}
use mamestagram_pp_rs.Util.StrainsVec.Contents.{
  expand, expand_value, run_of_run, ArePositive, IsValid,
}

-- The elements that are not zero; `0` as bits is positive zero.
abbrev pub non_zeros : List ℕ → List ℕ
non_zeros [] = []
non_zeros (x ∷ xs) = if x == 0 then non_zeros xs else x ∷ non_zeros xs

non_zeros-append : (xs ys : List ℕ) → non_zeros (xs ++ ys) ≡ non_zeros xs ++ non_zeros ys
non_zeros-append [] ys = refl
non_zeros-append (x ∷ xs) ys = ground (arith, non_zeros-append xs ys)

non_zeros-replicate : (n : ℕ) → non_zeros (replicate n 0) ≡ []
non_zeros-replicate zero = refl
non_zeros-replicate (suc n) = non_zeros-replicate n

retain_values-value :
    (e : ℕ) (es : List ℕ) → e < sign_bit → retain_values (e ∷ es) ≡ e ∷ retain_values es
unfolding retain_values is_value is_zero
retain_values-value e es h = ground arith

retain_values-run : (e : ℕ) (es : List ℕ) → sign_bit ≤ e → retain_values (e ∷ es) ≡ retain_values es
unfolding retain_values is_value is_zero
retain_values-run e es h = ground arith

non_zeros-value : (e : ℕ) (xs : List ℕ) → 0 < e → non_zeros (e ∷ xs) ≡ e ∷ non_zeros xs
non_zeros-value e xs h = ground arith

-- Dropping the runs drops the zeros and nothing else.
retain_values-expand :
    (es : List ℕ) → ArePositive es → expand (retain_values es) ≡ non_zeros (expand es)
unfolding retain_values
retain_values-expand [] p = refl
retain_values-expand (e ∷ es) (h, p) = elim (dec_lt e sign_bit) [
  | yes lt ↦
      ap expand (retain_values-value e es lt)
      ∙ expand_value e (retain_values es) lt
      ∙ ap (◌∷◌ e) (retain_values-expand es p)
      ∙ sym (ap non_zeros (expand_value e es lt) ∙ non_zeros-value e (expand es) h)
  | no ge ↦
      let run : sign_bit ≤ e = omega arith in
      ap expand (retain_values-run e es run)
      ∙ retain_values-expand es p
      ∙ sym (
          ap (λ r. non_zeros (r ++ expand es)) (run_of_run e run)
          ∙ non_zeros-append (replicate (e % sign_bit) 0) (expand es)
          ∙ ap (λ r. r ++ non_zeros (expand es)) (non_zeros-replicate (e % sign_bit)))
]

-- `retain_non_zero` keeps the strains of a valid vector that are not zero, in their order, and `len`
-- still counts those that were removed.
pub retain_non_zero-contents :
    (v : StrainsVec)
    → IsValid v
    → (expand (retain_non_zero v).inner ≡ non_zeros (expand v.inner))
      × ((retain_non_zero v).len ≡ v.len)
unfolding retain_non_zero
retain_non_zero-contents v c = (retain_values-expand v.inner c.positive, refl)
