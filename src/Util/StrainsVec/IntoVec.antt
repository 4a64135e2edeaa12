-- ===== src/Util/StrainsVec/IntoVec.antt =====
-- `StrainsVec::into_vec` writes out the strains, zeros included.
use mamestagram_pp_rs.Prelude.{
  ℕ, zero, suc, ◌%◌, ◌≤◌, ◌<◌, ◌≡◌, refl, ap, subst, sym, ◌∙◌, Option, none, some, map_or, List, [],
  ◌∷◌, ◌++◌, append-nil, append_assoc, take, replicate, length, length-append, arith,
}
use native.Mathlib.Decide.{dec_lt}
use mamestagram_pp_rs.Util.StrainsVec.{
  StrainsVec, sign_bit, is_zero, zero_count, copy_non_zero, copy_all, into_vec,
}
use mamestagram_pp_rs.Util.StrainsVec.Contents.{expand, expand_value, run_of_run}

take-prefix : (xs ys : List ℕ) → take (length xs) (xs ++ ys) ≡ xs
take-prefix [] ys = refl
take-prefix (x ∷ xs) ys = ap (◌∷◌ x) (take-prefix xs ys)

-- What is written of the run that ended a round.
abbrev zeros_of : Option ℕ → List ℕ
zeros_of z = map_or z [] (λ c. replicate c 0)

abbrev Ends : List ℕ → Option ℕ → List ℕ → Type 0
Ends es none rest = rest ≡ []
Ends es (some _) rest = length rest < length es

Ends-cons :
    (e : ℕ) (es : List ℕ) (z : Option ℕ) (rest : List ℕ) → Ends es z rest → Ends (e ∷ es) z rest
Ends-cons e es none rest h = h
Ends-cons e es (some _) rest h = omega arith

-- A round has written out what it passed, and ends at the end or has taken an entry.
abbrev Copied : List ℕ → List ℕ → List ℕ → List ℕ × Option ℕ × List ℕ → Type 0
Copied dst pre es (dst', z, rest) =
    (dst' ++ (zeros_of z ++ expand rest) ≡ dst ++ (pre ++ expand es)) × Ends es z rest

copy_non_zero-value :
    (slice : List ℕ) (count e : ℕ) (es dst : List ℕ)
    → e < sign_bit
    → copy_non_zero slice count (e ∷ es) dst ≡ copy_non_zero slice (suc count) es dst
unfolding copy_non_zero is_zero
copy_non_zero-value slice count e es dst h = ground arith

copy_non_zero-run :
    (slice : List ℕ) (count e : ℕ) (es dst : List ℕ)
    → sign_bit ≤ e
    → copy_non_zero slice count (e ∷ es) dst ≡ (dst ++ take count slice, some (e % sign_bit), es)
unfolding copy_non_zero is_zero zero_count
copy_non_zero-run slice count e es dst h = ground arith

-- One more value passed.
Copied-value :
    (dst pre : List ℕ) (e : ℕ) (es : List ℕ) (r : List ℕ × Option ℕ × List ℕ)
    → e < sign_bit
    → Copied dst (pre ++ e ∷ []) es r
    → Copied dst pre (e ∷ es) r
Copied-value dst pre e es (d, z, rest) lt (written, end) =
    let same : (pre ++ e ∷ []) ++ expand es ≡ pre ++ expand (e ∷ es) =
      append_assoc pre (e ∷ []) (expand es) ∙ ap (◌++◌ pre) (sym (expand_value e es lt)) in
    (written ∙ ap (◌++◌ dst) same, Ends-cons e es z rest end)

copy_non_zero-Copied :
    (pre es dst : List ℕ) → Copied dst pre es (copy_non_zero (pre ++ es) (length pre) es dst)
unfolding copy_non_zero
copy_non_zero-Copied pre [] dst =
    (rw (take-prefix pre []) (append-nil (dst ++ pre) ∙ ap (◌++◌ dst) (sym (append-nil pre))), refl)
copy_non_zero-Copied pre (e ∷ es) dst = elim (dec_lt e sign_bit) [
  | yes lt ↦
      let longer : length (pre ++ e ∷ []) ≡ suc (length pre) = rw length-append (omega arith) in
      let split : (pre ++ e ∷ []) ++ es ≡ pre ++ e ∷ es = append_assoc pre (e ∷ []) es in
      let later : Copied dst (pre ++ e ∷ []) es
          (copy_non_zero (pre ++ e ∷ es) (suc (length pre)) es dst) =
        subst (λ n. Copied dst (pre ++ e ∷ []) es (copy_non_zero (pre ++ e ∷ es) n es dst)) longer
          (subst
            (λ s. Copied dst (pre ++ e ∷ []) es (copy_non_zero s (length (pre ++ e ∷ [])) es dst))
            split (copy_non_zero-Copied (pre ++ e ∷ []) es dst)) in
      subst (Copied dst pre (e ∷ es))
        (sym (copy_non_zero-value (pre ++ e ∷ es) (length pre) e es dst lt))
        (Copied-value dst pre e es _ lt later)
  | no ge ↦
      let run : sign_bit ≤ e = omega arith in
      subst (Copied dst pre (e ∷ es))
        (sym (copy_non_zero-run (pre ++ e ∷ es) (length pre) e es dst run))
        (
          rw (take-prefix pre (e ∷ es)) (
              append_assoc dst pre _
              ∙ ap (λ r. dst ++ (pre ++ (r ++ expand es))) (sym (run_of_run e run))),
          omega arith,
        )
]

-- A round of `while let`, and what comes after it.
finish :
    (fuel : ℕ) (iter dst : List ℕ) (r : List ℕ × Option ℕ × List ℕ)
    → ((rest d : List ℕ) → length rest < fuel → copy_all fuel rest d ≡ some (d ++ expand rest))
    → length iter ≤ fuel
    → copy_non_zero iter 0 iter dst ≡ r
    → Copied dst [] iter r
    → copy_all (suc fuel) iter dst ≡ some (dst ++ expand iter)
unfolding copy_all
finish fuel iter dst (d, none, rest) again h e (w, end) =
    rw (e, copy_all)
      (ap some (ap (λ t. t.0) e ∙ sym (append-nil d) ∙ ap (λ r. d ++ expand r) (sym end) ∙ w))
finish fuel iter dst (d, some c, rest) again h e (w, end) =
    rw (e, copy_all)
      (ap (λ t. copy_all fuel t.2 (t.0 ++ replicate c 0)) e
        ∙ again rest (d ++ replicate c 0) (omega (arith, end))
        ∙ ap some (append_assoc d (replicate c 0) (expand rest) ∙ w))

copy_all-expand :
    (fuel : ℕ) (iter dst : List ℕ)
    → length iter < fuel
    → copy_all fuel iter dst ≡ some (dst ++ expand iter)
copy_all-expand zero iter dst h = absurd (omega arith)
copy_all-expand (suc fuel) iter dst h =
    finish fuel iter dst (copy_non_zero iter 0 iter dst) (copy_all-expand fuel) (omega arith) refl
      (copy_non_zero-Copied [] iter dst)

-- `into_vec` returns a vector with the strains, each zero of a run included.
pub into_vec-expand : (v : StrainsVec) → into_vec v ≡ some (expand v.inner)
unfolding into_vec
into_vec-expand v = copy_all-expand (suc (length v.inner)) v.inner [] (omega arith)
