-- ===== src/Mania/Gradual/Nth.antt =====
-- `ManiaGradualDifficulty`: `nth` does in one go what `next` does note by note.
use mamestagram_pp_rs.Prelude.{
  ℕ, zero, suc, ◌+◌, ◌-◌, ◌≤◌, ◌<◌, ◌≡◌, refl, sym, ap, ◌∙◌, subst, min, Bool, true, false, ◌&&◌,
  some, List, [], ◌∷◌, length, length-drop, get_elem?, take, drop, ltb, ◌==◌, ◌>>=◌, arith, inl,
  inr, Bool-cases, next_after, next_after_step, drop-cons, for_each, for_each-next_after, StepsTo,
}
use mamestagram_pp_rs.F64.{F64}
use mamestagram_pp_rs.Mania.Objects.{ManiaDifficultyObject, ManiaParts}
use mamestagram_pp_rs.Mania.Gradual.{
  ManiaGradualDifficulty, Gradual, zip, pass_note, current, finish, pass, next, len, nth,
}

-- The notes that the iterator goes through: the ones with a difficulty object and the first.
abbrev pub total : {Mods A R Strain : Type 0} → ManiaGradualDifficulty Mods A R Strain → ℕ
total s = min (length s.objects_is_circle) (length s.diff_objects + 1)

-- The objects with a difficulty object are no more than the ones but the first, and no more are passed
-- than there are.
pub record IsValid {Mods A R Strain : Type 0} (s : ManiaGradualDifficulty Mods A R Strain)
    : Type 0 where
  pub objects_len : length s.diff_objects ≤ length s.objects_is_circle - 1
  pub idx_le : s.idx ≤ total s

module _ {S T : Type 0} where
  length-zip : (xs : List S) (ys : List T) → length xs ≤ length ys → length (zip xs ys) ≡ length xs
  unfolding zip
  length-zip [] ys h = refl
  length-zip (x ∷ xs) [] h = absurd (omega arith)
  length-zip (x ∷ xs) (y ∷ ys) h = ap suc (length-zip xs ys (omega arith))

  zip-some :
      (xs : List S) (ys : List T) (i : ℕ) (x : S) (y : T)
      → get_elem? (zip xs ys) i ≡ some (x, y)
      → (get_elem? xs i ≡ some x) × (get_elem? ys i ≡ some y)
  unfolding zip
  zip-some [] ys i x y e = cc e
  zip-some (a ∷ xs) [] i x y e = cc e
  zip-some (a ∷ xs) (b ∷ ys) zero x y e = (cc e, cc e)
  zip-some (a ∷ xs) (b ∷ ys) (suc i) x y e = zip-some xs ys i x y e

module _ {T : Type 0} where
  get_elem?-drop_one : (xs : List T) (i : ℕ) → get_elem? (drop 1 xs) i ≡ get_elem? xs (suc i)
  get_elem?-drop_one [] i = refl
  get_elem?-drop_one (x ∷ xs) i = refl

module _ {Content Mods A R Slider Strain : Type 0} ⦃f : F64 A⦄
    (parts : ManiaParts Content Mods A R Slider Strain) where
  -- The notes with their difficulty objects.
  abbrev notes : Gradual parts → List (ManiaDifficultyObject A × Bool)
  notes s = zip s.diff_objects (drop 1 s.objects_is_circle)

  -- `xs` are the notes left, and a note was passed.
  abbrev At : List (ManiaDifficultyObject A × Bool) → Gradual parts → Type 0
  At xs s = IsValid s × (0 < s.idx) × (drop (s.idx - 1) (notes s) ≡ xs)

  abbrev pub passed : ManiaDifficultyObject A → Bool → Gradual parts → Gradual parts
  passed d c s = let s' = pass_note parts d c s in record s' { idx = s'.idx + 1 }

  pub next-run :
      (s : Gradual parts) (d : ManiaDifficultyObject A) (c : Bool)
      → 0 < s.idx
      → get_elem? s.diff_objects (s.idx - 1) ≡ some d
      → get_elem? s.objects_is_circle s.idx ≡ some c
      → next parts s ≡ some (some (current parts (passed d c s)), passed d c s)
  unfolding next finish pass_note
  next-run s d c p at circle =
      let started : ltb 0 s.idx ≡ true = ground arith in rw (started, at, circle) refl

  pass-StepsTo :
      (x : ManiaDifficultyObject A × Bool) (xs : List (ManiaDifficultyObject A × Bool))
      (s : Gradual parts)
      → At (x ∷ xs) s
      → StepsTo (next parts) (pass parts) At x xs s
  unfolding pass pass_note
  pass-StepsTo (d, c) xs s (v, p, e) =
      let (at, rest) = drop-cons (notes s) xs (s.idx - 1) (d, c) e in
      let (object, circle) =
        zip-some s.diff_objects (drop 1 s.objects_is_circle) (s.idx - 1) d c at in
      let here : suc (s.idx - 1) ≡ s.idx + 1 - 1 = omega arith in
      let now : suc (s.idx - 1) ≡ s.idx = omega arith in
      let circle' : get_elem? s.objects_is_circle s.idx ≡ some c =
        subst (λ i. get_elem? s.objects_is_circle i ≡ some c) now
          (sym (get_elem?-drop_one s.objects_is_circle (s.idx - 1)) ∙ circle) in
      let inside : s.idx < total s = omega (
        arith,
        v.objects_len,
        ap length e,
        length-drop (s.idx - 1) (notes s),
        length-zip s.diff_objects (drop 1 s.objects_is_circle)
            (omega (arith, v.objects_len, length-drop 1 s.objects_is_circle)),
      ) in
      (
        passed d c s,
        current parts (passed d c s),
        refl,
        next-run s d c p object circle',
        (
          record { objects_len = v.objects_len; idx_le = omega arith },
          omega arith,
          subst (λ i. drop i (notes s) ≡ xs) here rest,
        ),
      )

  pub next-first :
      (s : Gradual parts)
      → s.idx ≡ 0
      → 0 < length s.objects_is_circle
      → next parts s ≡ finish parts s
  unfolding next
  next-first s z h =
      let at_start : ltb 0 s.idx ≡ false = ground arith in
      let some_object : (length s.objects_is_circle == 0) ≡ false = ground arith in
      rw (at_start, some_object) refl

  -- Notes passed by `nth` where the first one was passed before, or none is to be passed.
  pass_some-next_after :
      (k : ℕ) (s : Gradual parts)
      → IsValid s
      → k ≤ len parts s - 1
      → (0 < k → 0 < s.idx)
      → (for_each (pass parts) (take k (drop (s.idx - 1) (notes s))) s >>= next parts)
        ≡ next_after (next parts) k s
  unfolding len for_each
  pass_some-next_after zero s v h p = refl
  pass_some-next_after (suc k) s v h p =
      let started = p (omega arith) in
      let size =
        length-zip s.diff_objects (drop 1 s.objects_is_circle)
          (omega (arith, v.objects_len, length-drop 1 s.objects_is_circle)) in
      for_each-next_after (next parts) (pass parts) At (suc k) (drop (s.idx - 1) (notes s)) s
        pass-StepsTo (v, started, refl) (omega (arith, size, length-drop (s.idx - 1) (notes s)))

  pass_first-next_after :
      (k : ℕ) (s : Gradual parts)
      → IsValid s
      → s.idx ≡ 0
      → suc k ≤ len parts s - 1
      → (for_each (pass parts) (take k (drop (s.idx - 1) (notes s))) (record s { idx = s.idx + 1 })
          >>= next parts)
        ≡ next_after (next parts) (suc k) s
  unfolding len finish
  pass_first-next_after k s v z h =
      let t : Gradual parts = record s { idx = s.idx + 1 } in
      let from_start : s.idx - 1 ≡ s.idx + 1 - 1 = omega arith in
      let v' : IsValid t = record {
        objects_len = v.objects_len;
        idx_le = omega (arith, v.objects_len);
      } in
      rw from_start (pass_some-next_after k t v' (omega arith) (λ p. omega arith))
      ∙ sym (next_after_step (next parts) k s t _ (next-first s z (omega (arith, v.objects_len))))

  -- `nth` is the call of `next` after the given number of others, or after all but one of the notes left
  -- if that is less. The notes with a difficulty object are no more than the ones but the first, and no
  -- more are passed than there are.
  pub nth-next_after_mania :
      (s : Gradual parts) (n : ℕ)
      → IsValid s
      → nth parts s n ≡ next_after (next parts) (min n (len parts s - 1)) s
  unfolding nth
  nth-next_after_mania s n v =
      let k : ℕ = min n (len parts s - 1) in
      elim (Bool-cases (s.idx == 0 && ltb 0 (min n (len parts s - 1)))) [
        | inl t ↦
            let positive : suc (k - 1) ≡ k = ground (arith, t) in
            rw (t, nth)
              (subst
                (λ j.
                  (for_each (pass parts) (take (k - 1) (drop (s.idx - 1) (notes s)))
                      (record s { idx = s.idx + 1 })
                    >>= next parts)
                  ≡ next_after (next parts) j s)
                positive (pass_first-next_after (k - 1) s v (ground (arith, t)) (omega arith)))
        | inr t ↦ rw (t, nth) (pass_some-next_after k s v (omega arith) (λ p. ground (arith, t)))
      ]
