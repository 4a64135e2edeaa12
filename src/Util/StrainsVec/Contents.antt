-- ===== src/Util/StrainsVec/Contents.antt =====
-- The strains that a `StrainsVec` stands for, zeros included.
use mamestagram_pp_rs.Prelude.{
  ℕ, zero, suc, ◌+◌, ◌-◌, ◌%◌, ◌≤◌, ◌<◌, ◌≡◌, refl, ap, subst, sym, ◌∙◌, true, false, List, [], ◌∷◌,
  ◌++◌, append-nil, append_assoc, leb, replicate, length, length-append, length-replicate,
  if◌then◌else◌, arith, Bool-cases, inl, inr,
}
use Prim.{tt}
use native.Mathlib.Decide.{dec_lt}
use mamestagram_pp_rs.Util.StrainsVec.{
  StrainsVec, u64_mod, sign_bit, new_zero, is_zero, incr_zero_count, push_zero, is_positive, push,
  with_capacity,
}

abbrev pub run_of : ℕ → List ℕ
run_of e = if leb sign_bit e then replicate (e % sign_bit) 0 else e ∷ []

abbrev pub expand : List ℕ → List ℕ
expand [] = []
expand (e ∷ es) = run_of e ++ expand es

abbrev pub AreWords : List ℕ → Type 0
AreWords [] = Unit {0}
AreWords (e ∷ es) = (e < u64_mod) × AreWords es

-- No entry is the bits of zero.
abbrev pub ArePositive : List ℕ → Type 0
ArePositive [] = Unit {0}
ArePositive (e ∷ es) = (0 < e) × ArePositive es

pub record IsValid (v : StrainsVec) : Type 0 where
  pub words : AreWords v.inner
  pub positive : ArePositive v.inner
  pub len_is : v.len ≡ length (expand v.inner)

-- What is pushed: a value that is not positive counts as zero.
abbrev pub clamp : ℕ → ℕ
unfolding is_positive
clamp value = if is_positive value then value else 0

le→leb : (a b : ℕ) → a ≤ b → leb a b ≡ true
le→leb a b h = ground arith

lt→leb : (a b : ℕ) → a < b → leb b a ≡ false
lt→leb a b h = ground arith

replicate-snoc : (n : ℕ) → replicate {A = ℕ} (suc n) 0 ≡ replicate n 0 ++ 0 ∷ []
replicate-snoc zero = refl
replicate-snoc (suc n) = ap (◌∷◌ 0) (replicate-snoc n)

expand-length :
    (e : ℕ) (es : List ℕ) → length (expand (e ∷ es)) ≡ length (run_of e) + length (expand es)
expand-length e es = length-append (run_of e) (expand es)

expand-append : (xs ys : List ℕ) → expand (xs ++ ys) ≡ expand xs ++ expand ys
expand-append [] ys = refl
expand-append (x ∷ xs) ys = rw (expand-append xs ys) (sym (append_assoc _ (expand xs) (expand ys)))

pub run_of_run : (e : ℕ) → sign_bit ≤ e → run_of e ≡ replicate (e % sign_bit) 0
run_of_run e h = rw (le→leb sign_bit e h) refl

expand_run : (e : ℕ) → sign_bit ≤ e → expand (e ∷ []) ≡ replicate (e % sign_bit) 0
expand_run e h = rw (le→leb sign_bit e h) (append-nil (replicate (e % sign_bit) 0))

pub expand_value : (e : ℕ) (es : List ℕ) → e < sign_bit → expand (e ∷ es) ≡ e ∷ expand es
expand_value e es h = rw (lt→leb e sign_bit h) refl

-- A run that counts one more.
expand-incr :
    (e : ℕ)
    → sign_bit ≤ e
    → e < u64_mod - 1
    → expand (incr_zero_count e ∷ []) ≡ expand (e ∷ []) ++ 0 ∷ []
unfolding incr_zero_count
expand-incr e h b =
    let next : ℕ = (e + 1) % u64_mod in
    let counts : next % sign_bit ≡ suc (e % sign_bit) = omega arith in
    rw (expand_run next (omega arith), expand_run e h, counts) (replicate-snoc (e % sign_bit))

push_zero-value : (e : ℕ) → e < sign_bit → push_zero (e ∷ []) ≡ e ∷ new_zero ∷ []
unfolding push_zero is_zero
push_zero-value e h = ground arith

push_zero-run : (e : ℕ) → sign_bit ≤ e → push_zero (e ∷ []) ≡ incr_zero_count e ∷ []
unfolding push_zero is_zero
push_zero-run e h = ground arith

-- A run that is short enough can be counted up.
short_run :
    (e : ℕ) → sign_bit ≤ e → length (expand (e ∷ [])) < sign_bit - 1 → e % sign_bit < sign_bit - 1
short_run e run b =
    let short : length (replicate {A = ℕ} (e % sign_bit) 0) < sign_bit - 1 =
      subst (λ es. length es < sign_bit - 1) (expand_run e run) b in
    omega (arith, short, length-replicate {A = ℕ} (e % sign_bit) 0)

incr-positive :
    (e : ℕ) → sign_bit ≤ e → e < u64_mod → e % sign_bit < sign_bit - 1 → 0 < incr_zero_count e
unfolding incr_zero_count
incr-positive e h w b = omega arith

push_zero-last :
    (e : ℕ)
    → e < u64_mod
    → length (expand (e ∷ [])) < sign_bit - 1
    → expand (push_zero (e ∷ [])) ≡ expand (e ∷ []) ++ 0 ∷ []
unfolding new_zero
push_zero-last e w b = elim (dec_lt e sign_bit) [
  | yes lt ↦ ap expand (push_zero-value e lt) ∙ expand-append (e ∷ []) (new_zero ∷ [])
  | no ge ↦
      let run : sign_bit ≤ e = omega arith in
      let count : e % sign_bit < sign_bit - 1 = short_run e run b in
      ap expand (push_zero-run e run) ∙ expand-incr e run (omega arith)
]

push_zero-expand :
    (es : List ℕ)
    → AreWords es
    → length (expand es) < sign_bit - 1
    → expand (push_zero es) ≡ expand es ++ 0 ∷ []
unfolding push_zero new_zero
push_zero-expand [] w b = refl
push_zero-expand (e ∷ []) (w, _) b = push_zero-last e w b
push_zero-expand (e ∷ e' ∷ es) (w, ws) b =
    rw (push_zero-expand (e' ∷ es) ws (omega (arith, b, expand-length e (e' ∷ es))))
      (sym (append_assoc (run_of e) (expand (e' ∷ es)) (0 ∷ [])))

expand-positive : (value : ℕ) → is_positive value ≡ true → expand (value ∷ []) ≡ value ∷ []
unfolding is_positive
expand-positive value h = expand_value value [] (ground arith)

-- A strain that is pushed to a valid vector of fewer than 2 ^ 63 - 1 strains comes last, as zero if it
-- is not positive.
pub push-expand :
    (v : StrainsVec) (value : ℕ)
    → IsValid v
    → v.len < sign_bit - 1
    → expand (push v value).inner ≡ expand v.inner ++ clamp value ∷ []
unfolding push
push-expand v value c b = elim (Bool-cases (is_positive value)) [
  | inl p ↦
      rw p
        (expand-append v.inner (value ∷ []) ∙ ap (◌++◌ (expand v.inner)) (expand-positive value p))
  | inr z ↦ rw z (push_zero-expand v.inner c.words (omega (arith, c.len_is)))
]

AreWords-append : (es : List ℕ) (e : ℕ) → AreWords es → e < u64_mod → AreWords (es ++ e ∷ [])
AreWords-append [] e w h = (h, tt)
AreWords-append (x ∷ es) e (w, ws) h = (w, AreWords-append es e ws h)

push_zero-AreWords : (es : List ℕ) → AreWords es → AreWords (push_zero es)
unfolding push_zero is_zero incr_zero_count new_zero
push_zero-AreWords [] w = (omega arith, tt)
push_zero-AreWords (e ∷ []) (w, _) = elim (dec_lt e sign_bit) [
  | yes lt ↦ subst AreWords (sym (push_zero-value e lt)) (w, (omega arith, tt))
  | no ge ↦ subst AreWords (sym (push_zero-run e (omega arith))) (omega arith, tt)
]
push_zero-AreWords (e ∷ e' ∷ es) (w, ws) = (w, push_zero-AreWords (e' ∷ es) ws)

above_zero : (value : ℕ) → is_positive value ≡ true → 0 < value
unfolding is_positive
above_zero value h = ground arith

ArePositive-append : (es : List ℕ) (e : ℕ) → ArePositive es → 0 < e → ArePositive (es ++ e ∷ [])
ArePositive-append [] e w h = (h, tt)
ArePositive-append (x ∷ es) e (w, ws) h = (w, ArePositive-append es e ws h)

push_zero-ArePositive :
    (es : List ℕ)
    → AreWords es
    → ArePositive es
    → length (expand es) < sign_bit - 1
    → ArePositive (push_zero es)
unfolding push_zero new_zero
push_zero-ArePositive [] a w b = (omega arith, tt)
push_zero-ArePositive (e ∷ []) (a, _) (w, _) b = elim (dec_lt e sign_bit) [
  | yes lt ↦ subst ArePositive (sym (push_zero-value e lt)) (w, (omega arith, tt))
  | no ge ↦
      let run : sign_bit ≤ e = omega arith in
      subst ArePositive (sym (push_zero-run e run)) (incr-positive e run a (short_run e run b), tt)
]
push_zero-ArePositive (e ∷ e' ∷ es) (a, others) (w, ws) b =
    (w, push_zero-ArePositive (e' ∷ es) others ws (omega (arith, b, expand-length e (e' ∷ es))))

-- A valid vector of fewer than 2 ^ 63 - 1 strains stays valid when the bits of an `f64` are pushed:
-- each entry has 64 bits and is not zero, and `len` counts the strains, zeros included.
pub push-StrainsIsValid :
    (v : StrainsVec) (value : ℕ)
    → value < u64_mod
    → IsValid v
    → v.len < sign_bit - 1
    → IsValid (push v value)
unfolding push
push-StrainsIsValid v value h c b = record {
  words = elim (Bool-cases (is_positive value)) [
    | inl p ↦ rw p (AreWords-append v.inner value c.words h)
    | inr z ↦ rw z (push_zero-AreWords v.inner c.words)
  ];
  positive = elim (Bool-cases (is_positive value)) [
    | inl p ↦ rw p (ArePositive-append v.inner value c.positive (above_zero value p))
    | inr z ↦ rw z (push_zero-ArePositive v.inner c.words c.positive (omega (arith, c.len_is)))
  ];
  len_is =
      let longer : length (expand v.inner ++ clamp value ∷ []) ≡ length (expand v.inner) + 1 =
        length-append (expand v.inner) (clamp value ∷ []) in
      rw (push-expand v value c b) (omega (arith, c.len_is, longer));
}

pub with_capacity-IsValid : IsValid with_capacity
unfolding with_capacity
with_capacity-IsValid = record { words = tt; positive = tt; len_is = refl }
