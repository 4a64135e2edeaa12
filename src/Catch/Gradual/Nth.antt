-- ===== src/Catch/Gradual/Nth.antt =====
-- `CatchGradualDifficulty`: `nth` does in one go what `next` does object by object.
use mamestagram_pp_rs.Prelude.{
  ℕ, zero, suc, ◌+◌, ◌-◌, ◌≤◌, ◌<◌, ◌≡◌, refl, sym, ap, ◌∙◌, subst, min, true, false, ◌&&◌, some,
  List, ◌∷◌, length, length-drop, get_elem?, get_elem?-some, take, drop, ltb, ◌==◌, ◌>>=◌, arith,
  inl, inr, Bool-cases, next_after, next_after_step, drop-cons, for_each, for_each-next_after,
  StepsTo,
}
use mamestagram_pp_rs.Catch.Counts.{GradualObjectCount, add_object_count}
use mamestagram_pp_rs.Catch.Gradual.{
  GradualParts, CatchGradualDifficulty, Gradual, add_count, eval, pass, next, len, nth,
}

-- A count for each object, a difficulty object for each but the first, and no more objects passed than
-- there are.
pub record IsValid {Mods A R Object Movement : Type 0}
    (s : CatchGradualDifficulty Mods A R Object Movement) : Type 0 where
  pub objects_len : length s.diff_objects ≡ length s.count - 1
  pub idx_le : s.idx ≤ length s.count

-- The objects that are left.
abbrev pub left :
    {Mods A R Object Movement : Type 0} → CatchGradualDifficulty Mods A R Object Movement → ℕ
left s = length s.count - s.idx

module _ {Content Mods A R Slider Object Movement : Type 0}
    (parts : GradualParts Content Mods A R Slider Object Movement) where
  -- `xs` are the difficulty objects left, and an object was passed.
  abbrev At : List Object → Gradual parts → Type 0
  At xs s = IsValid s × (0 < s.idx) × (drop (s.idx - 1) s.diff_objects ≡ xs)

  -- The state after an object is counted.
  abbrev pub counted : GradualObjectCount → Gradual parts → Gradual parts
  counted c s = record s { attrs = add_object_count c s.attrs; idx = s.idx + 1 }

  pub add_count-some :
      (s : Gradual parts)
      → s.idx < length s.count
      → (c : GradualObjectCount) × (add_count parts s ≡ some (counted c s))
  unfolding add_count
  add_count-some s h = let (c, at) = get_elem?-some s.count s.idx h in (c, rw at refl)

  pub next-run :
      (s t : Gradual parts) (d : Object)
      → 0 < s.idx
      → get_elem? s.diff_objects (s.idx - 1) ≡ some d
      → pass parts d s ≡ some t
      → next parts s ≡ some (some (eval parts t), t)
  unfolding next
  next-run s t d p at passed =
      let started : ltb 0 s.idx ≡ true = ground arith in rw (started, at, passed) refl

  pub counted-IsValid :
      (c : GradualObjectCount) (s : Gradual parts)
      → IsValid s
      → s.idx < length s.count
      → IsValid (counted c s)
  counted-IsValid c s v h = record { objects_len = v.objects_len; idx_le = omega arith }

  pass-StepsTo :
      (d : Object) (xs : List Object) (s : Gradual parts)
      → At (d ∷ xs) s
      → StepsTo (next parts) (pass parts) At d xs s
  unfolding pass
  pass-StepsTo d xs s (v, p, e) =
      let (at, rest) = drop-cons s.diff_objects xs (s.idx - 1) d e in
      let here : suc (s.idx - 1) ≡ s.idx + 1 - 1 = omega arith in
      let s' : Gradual parts = record s { movement = parts.process d s.diff_objects s.movement } in
      let inside : s.idx < length s.count =
        omega (arith, ap length e, length-drop (s.idx - 1) s.diff_objects, v.objects_len) in
      let (c, run) = add_count-some s' inside in
      (
        counted c s',
        eval parts (counted c s'),
        run,
        next-run s (counted c s') d p at run,
        (
          counted-IsValid c s' (record { objects_len = v.objects_len; idx_le = v.idx_le }) inside,
          omega arith,
          subst (λ i. drop i s.diff_objects ≡ xs) here rest,
        ),
      )

  pub next-first :
      (s t : Gradual parts)
      → s.idx ≡ 0
      → 0 < length s.count
      → add_count parts s ≡ some t
      → next parts s ≡ some (some (eval parts t), t)
  unfolding next
  next-first s t z h run =
      let at_start : ltb 0 s.idx ≡ false = ground arith in
      let some_object : (length s.count == 0) ≡ false = ground arith in
      rw (at_start, some_object, run) refl

  -- Objects passed by `nth` where the first one was passed before, or none is to be passed.
  pass_some-next_after :
      (k : ℕ) (s : Gradual parts)
      → IsValid s
      → k ≤ len parts s - 1
      → (0 < k → 0 < s.idx)
      → (for_each (pass parts) (take k (drop (s.idx - 1) s.diff_objects)) s >>= next parts)
        ≡ next_after (next parts) k s
  unfolding len for_each
  pass_some-next_after zero s v h p = refl
  pass_some-next_after (suc k) s v h p =
      let started = p (omega arith) in
      for_each-next_after (next parts) (pass parts) At (suc k) (drop (s.idx - 1) s.diff_objects) s
        pass-StepsTo (v, started, refl) (omega (arith, length-drop (s.idx - 1) s.diff_objects))

  pass_first-next_after :
      (k : ℕ) (s : Gradual parts)
      → IsValid s
      → s.idx ≡ 0
      → suc k ≤ len parts s - 1
      → (add_count parts s >>= λ s'.
          for_each (pass parts) (take k (drop (s.idx - 1) s.diff_objects)) s' >>= next parts)
        ≡ next_after (next parts) (suc k) s
  unfolding len
  pass_first-next_after k s v z h =
      let inside : s.idx < length s.count = omega (arith, v.objects_len) in
      let (c, run) = add_count-some s inside in
      let from_start : s.idx - 1 ≡ s.idx + 1 - 1 = omega arith in
      rw (run, from_start)
        (pass_some-next_after k (counted c s) (counted-IsValid c s v inside) (omega arith)
          (λ p. omega arith))
      ∙ sym (
          next_after_step (next parts) k s (counted c s) _
            (next-first s (counted c s) z (omega arith) run))

  -- `nth` is the call of `next` after the given number of others, or after all but one of the objects
  -- left if that is less. There is a count for each object and a difficulty object for each but the
  -- first, and the objects passed are not more than there are.
  pub nth-next_after_catch :
      (s : Gradual parts) (n : ℕ)
      → IsValid s
      → nth parts s n ≡ next_after (next parts) (min n (len parts s - 1)) s
  unfolding nth
  nth-next_after_catch s n v =
      let k : ℕ = min n (len parts s - 1) in
      elim (Bool-cases (s.idx == 0 && ltb 0 (min n (len parts s - 1)))) [
        | inl t ↦
            let positive : suc (k - 1) ≡ k = ground (arith, t) in
            rw (t, nth)
              (subst
                (λ j.
                  (add_count parts s >>= λ s'.
                  for_each (pass parts) (take (k - 1) (drop (s.idx - 1) s.diff_objects)) s'
                  >>= next parts)
                  ≡ next_after (next parts) j s)
                positive (pass_first-next_after (k - 1) s v (ground (arith, t)) (omega arith)))
        | inr t ↦ rw (t, nth) (pass_some-next_after k s v (omega arith) (λ p. ground (arith, t)))
      ]
