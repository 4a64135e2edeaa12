-- ===== src/Util/StrainsVec/Iterator.antt =====
-- `StrainsIter::next` walks the strains, zeros included.
use Prim.{tt}
use mamestagram_pp_rs.Prelude.{
  ℕ, suc, ◌+◌, ◌-◌, ◌%◌, ◌≤◌, ◌<◌, ◌≡◌, refl, ap, subst, sym, ◌∙◌, Option, none, some, map_or, List,
  [], ◌∷◌, ◌++◌, get_elem?, drop, replicate, length, length-drop, arith,
}
use native.Mathlib.Decide.{dec_lt}
use mamestagram_pp_rs.Util.StrainsVec.{
  StrainsVec, StrainsIter, u64_mod, sign_bit, is_zero, is_value, zero_count, decr_zero_count,
  advance, iter, next_loop, next,
}
use mamestagram_pp_rs.Util.StrainsVec.Contents.{
  AreWords, IsValid, expand, expand_value, run_of_run, run_of,
}

-- The strains still to come.
abbrev pub to_come : Option ℕ → List ℕ → List ℕ
to_come none inner = expand inner
to_come (some e) inner = run_of e ++ expand inner

abbrev pub remaining : StrainsIter → List ℕ
remaining it = to_come it.curr it.inner

abbrev IsWord : Option ℕ → Type 0
IsWord none = Unit {0}
IsWord (some e) = e < u64_mod

-- Only an iterator at its end has no current entry.
pub record IterIsValid (it : StrainsIter) : Type 0 where
  pub words : AreWords it.inner
  pub word : IsWord it.curr
  pub len_is : it.len ≡ length (remaining it)
  pub in_range : it.len < u64_mod
  pub ended : it.curr ≡ none → it.inner ≡ []

-- What a call returns and leaves, of strains `left` to come; the length becomes `len'` where there
-- is one.
abbrev Walked : List ℕ → ℕ → ℕ → Option ℕ × StrainsIter → Type 0
Walked left len len' (o, it) =
    (o ≡ get_elem? left 0)
    × (remaining it ≡ drop 1 left)
    × (it.len ≡ map_or (get_elem? left 0) len (λ _. len'))
    × AreWords it.inner
    × IsWord it.curr
    × (it.curr ≡ none → it.inner ≡ [])

advance-remaining : (es : List ℕ) (len : ℕ) → remaining (advance es len) ≡ expand es
unfolding advance
advance-remaining [] len = refl
advance-remaining (e ∷ es) len = refl

next_loop-value :
    (e : ℕ) (es : List ℕ) (len len' : ℕ)
    → e < sign_bit
    → next_loop (some e) es len len' ≡ (some e, advance es len')
unfolding next_loop is_value is_zero
next_loop-value e [] len len' h = ground arith
next_loop-value e (_ ∷ _) len len' h = ground arith

next_loop-run :
    (e : ℕ) (es : List ℕ) (len len' : ℕ)
    → sign_bit ≤ e
    → 0 < e % sign_bit
    → next_loop (some e) es len len'
      ≡ (some 0, record { inner = es; curr = some (decr_zero_count e); len = len' })
unfolding next_loop is_value is_zero zero_count
next_loop-run e [] len len' h c = ground arith
next_loop-run e (_ ∷ _) len len' h c = ground arith

next_loop-empty_last :
    (e : ℕ) (len len' : ℕ)
    → sign_bit ≤ e
    → e % sign_bit ≡ 0
    → next_loop (some e) [] len len' ≡ (none, advance [] len)
unfolding next_loop is_value is_zero zero_count
next_loop-empty_last e len len' h c = ground arith

next_loop-empty :
    (e e' : ℕ) (es : List ℕ) (len len' : ℕ)
    → sign_bit ≤ e
    → e % sign_bit ≡ 0
    → next_loop (some e) (e' ∷ es) len len' ≡ next_loop (some e') es len len'
unfolding next_loop is_value is_zero zero_count
next_loop-empty e e' es len len' h c = ground arith

advance-Walked :
    (e : ℕ) (es : List ℕ) (len len' : ℕ)
    → AreWords es
    → Walked (e ∷ expand es) len len' (some e, advance es len')
unfolding advance
advance-Walked e [] len len' w = (refl, refl, refl, tt, tt, λ _. refl)
advance-Walked e (e' ∷ es) len len' (w, ws) =
    (refl, refl, refl, ws, w, λ h. absurd (ground (arith, h)))

run-Walked :
    (e : ℕ) (es : List ℕ) (len len' : ℕ)
    → AreWords es
    → e < u64_mod
    → sign_bit ≤ e
    → 0 < e % sign_bit
    → Walked
        (run_of e ++ expand es)
        len
        len'
        (some 0, record { inner = es; curr = some (decr_zero_count e); len = len' })
unfolding decr_zero_count
run-Walked e es len len' w b h c =
    let d : ℕ = (e + u64_mod - 1) % u64_mod in
    let one_less : e % sign_bit ≡ suc (d % sign_bit) = omega arith in
    let now : run_of e ≡ 0 ∷ replicate (d % sign_bit) 0 =
      run_of_run e h ∙ ap (λ n. replicate n 0) one_less in
    let later : run_of d ≡ replicate (d % sign_bit) 0 = run_of_run d (omega arith) in
    subst
      (λ r.
        Walked (r ++ expand es) len len' (some 0, record { inner = es; curr = some d; len = len' }))
      (sym now)
      (refl, ap (λ r. r ++ expand es) later, refl, w, omega arith, λ k. absurd (ground (arith, k)))

-- A run that is used up has no strain left.
run_of-empty : (e : ℕ) → sign_bit ≤ e → e % sign_bit ≡ 0 → run_of e ≡ []
run_of-empty e h c = run_of_run e h ∙ ap (λ n. replicate n 0) c

ended-Walked : (len len' : ℕ) → Walked [] len len' (none, advance [] len)
unfolding advance
ended-Walked len len' = (refl, refl, refl, tt, tt, λ _. refl)

-- One entry, where what follows a run that is used up is known.
entry-Walked :
    (e : ℕ) (es : List ℕ) (len len' : ℕ)
    → e < u64_mod
    → AreWords es
    → (sign_bit ≤ e
        → e % sign_bit ≡ 0
        → Walked (expand es) len len' (next_loop (some e) es len len'))
    → Walked (run_of e ++ expand es) len len' (next_loop (some e) es len len')
entry-Walked e es len len' b w empty = elim (dec_lt e sign_bit) [
  | yes lt ↦
      subst (Walked (run_of e ++ expand es) len len') (sym (next_loop-value e es len len' lt)) (
        subst (λ l. Walked l len len' (some e, advance es len')) (sym (expand_value e es lt))
          (advance-Walked e es len len' w))
  | no ge ↦
      let run : sign_bit ≤ e = omega arith in
      elim (dec_lt 0 (e % sign_bit)) [
        | yes c ↦
            subst (Walked (run_of e ++ expand es) len len')
              (sym (next_loop-run e es len len' run c)) (run-Walked e es len len' w b run c)
        | no z ↦
            let used_up : e % sign_bit ≡ 0 = omega arith in
            subst (λ r. Walked (r ++ expand es) len len' (next_loop (some e) es len len'))
              (sym (run_of-empty e run used_up)) (empty run used_up)
      ]
]

next_loop-Walked :
    (e : ℕ) (es : List ℕ) (len len' : ℕ)
    → e < u64_mod
    → AreWords es
    → Walked (run_of e ++ expand es) len len' (next_loop (some e) es len len')
next_loop-Walked e [] len len' b w = entry-Walked e [] len len' b w (λ run z.
    subst (Walked [] len len') (sym (next_loop-empty_last e len len' run z))
      (ended-Walked len len'))
next_loop-Walked e (e' ∷ es) len len' b (w, ws) =
    entry-Walked e (e' ∷ es) len len' b (w, ws)
      (λ run z.
        subst (Walked (expand (e' ∷ es)) len len') (sym (next_loop-empty e e' es len len' run z))
          (next_loop-Walked e' es len len' w ws))

advance-IterIsValid :
    (es : List ℕ) (len : ℕ)
    → AreWords es
    → len ≡ length (expand es)
    → len < u64_mod
    → IterIsValid (advance es len)
unfolding advance
advance-IterIsValid [] len w e b = record {
  words = tt;
  word = tt;
  len_is = e;
  in_range = b;
  ended = λ _. refl;
}
advance-IterIsValid (x ∷ es) len (w, ws) e b = record {
  words = ws;
  word = w;
  len_is = e;
  in_range = b;
  ended = λ h. absurd (ground (arith, h));
}

-- The length counts down with the strains.
length-drop_one :
    (left : List ℕ) (len len' n : ℕ)
    → len ≡ length left
    → (0 < len → len' ≡ len - 1)
    → n ≡ map_or (get_elem? left 0) len (λ _. len')
    → n ≡ length (drop 1 left)
length-drop_one [] len len' n e k h = omega arith
length-drop_one (x ∷ xs) len len' n e k h = omega (arith, k (omega arith))

next-Walked :
    (curr : Option ℕ) (inner : List ℕ) (len len' : ℕ)
    → AreWords inner
    → IsWord curr
    → (curr ≡ none → inner ≡ [])
    → Walked (to_come curr inner) len len' (next_loop curr inner len len')
unfolding next_loop
next-Walked none inner len len' w b e =
    let none_left : expand inner ≡ [] = ap expand (e refl) in
    subst (λ l. Walked l len len' (none, record { inner = inner; curr = none; len = len }))
      (sym none_left) (refl, none_left, refl, w, tt, e)
next-Walked (some x) inner len len' w b e = next_loop-Walked x inner len len' b w

pub iter-IterIsValid : (v : StrainsVec) → IsValid v → v.len < u64_mod → IterIsValid (iter v)
unfolding iter advance
iter-IterIsValid v c b = advance-IterIsValid v.inner v.len c.words c.len_is b

-- On a valid iterator, a call of `next` returns the first of the strains to come, zeros included, if
-- there is one, and leaves a valid iterator over the others.
pub next-remaining :
    (it : StrainsIter)
    → IterIsValid it
    → let (o, it') = next it in
      (o ≡ get_elem? (remaining it) 0) × (remaining it' ≡ drop 1 (remaining it)) × IterIsValid it'
unfolding next
next-remaining it c =
    let fewer : ℕ = (it.len + u64_mod - 1) % u64_mod in
    let (returned, left, count, words, word, ended) =
      next-Walked it.curr it.inner it.len fewer c.words c.word c.ended in
    let it' : StrainsIter = (next_loop it.curr it.inner it.len fewer).1 in
    let len_is : it'.len ≡ length (remaining it') =
      length-drop_one (remaining it) it.len fewer it'.len c.len_is
        (λ some_left. omega (arith, c.in_range)) count
      ∙ ap length (sym left) in
    let in_range : it'.len < u64_mod =
      omega (arith, len_is, ap length left, length-drop 1 (remaining it), c.len_is, c.in_range) in
    (
      returned,
      left,
      record { words = words; word = word; len_is = len_is; in_range = in_range; ended = ended },
    )
