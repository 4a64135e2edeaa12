-- ===== src/Osu/Gradual/Nth.antt =====
-- `OsuGradualDifficulty::nth` does in one go what `next` does object by object.
use mamestagram_pp_rs.Prelude.{
  ℕ, zero, suc, ◌+◌, ◌-◌, ◌≤◌, ◌<◌, ◌≡◌, refl, sym, ap, ◌∙◌, subst, min, true, false, ◌&&◌, some,
  List, [], ◌∷◌, length, length-drop, get_elem?, get_elem?-some, take, drop, ltb, leb, ◌==◌, arith,
  inl, inr, Bool-cases, ◌%◌, u32_mod, next_after, next_after_same, next_after_step, drop-cons,
}
use mamestagram_pp_rs.Osu.Gradual.{
  OsuObjectKind, OsuDifficultyObject, OsuParts, OsuGradualDifficulty, increment_combo, process,
  finish, pass, next, len, pass_all, nth, Gradual,
}

-- A difficulty object for each object but the first, and no more objects passed than there are.
pub record IsValid {Mods A R Skills Rest Extra : Type 0}
    (s : OsuGradualDifficulty Mods A R Skills Rest Extra) : Type 0 where
  pub objects_len : length s.diff_objects ≡ length s.osu_objects - 1
  pub idx_le : s.idx ≤ length s.osu_objects

module _ {Content Mods A R Skills Rest Extra : Type 0}
    (parts : OsuParts Content Mods A R Skills Rest Extra) where
  -- The attributes with other values for legacy scores.
  abbrev pub with_legacy : A → A → Gradual parts → Gradual parts
  with_legacy x y s = record s {
    attrs = record s.attrs { nested_score_per_object = x; maximum_legacy_combo_score = y };
  }

  -- The state that `finish` leaves.
  abbrev pub finished : Gradual parts → Gradual parts
  finished s =
      let objects = take (s.idx + 1) s.osu_objects in
      with_legacy (parts.nested_score objects ((s.idx + 1) % u32_mod))
        (parts.combo_score objects s.attrs.legacy_score_base_multiplier)
        (record s { idx = s.idx + 1 })

  pub finish-run :
      (s : Gradual parts)
      → s.idx < length s.osu_objects
      → finish parts s
        ≡ some (some (parts.eval (finished s).attrs s.difficulty.mods s.skills), finished s)
  unfolding finish
  finish-run s h =
      let inside : leb (s.idx + 1) (length s.osu_objects) ≡ true = ground arith in rw inside refl

  -- What `next` computes does not depend on the values for legacy scores before.
  finish-pass_legacy :
      (s : Gradual parts) (x y : A) (k : OsuObjectKind) (skills : Skills)
      → finish parts
          (record s { skills = skills; attrs = increment_combo k (with_legacy x y s).attrs })
        ≡ finish parts (record s { skills = skills; attrs = increment_combo k s.attrs })
  unfolding finish increment_combo
  finish-pass_legacy s x y OsuObjectKind.circle skills = refl
  finish-pass_legacy s x y (OsuObjectKind.slider z) skills = refl
  finish-pass_legacy s x y OsuObjectKind.spinner skills = refl

  pub next-run :
      (s : Gradual parts) (d : OsuDifficultyObject Rest Extra)
      → 0 < s.idx
      → get_elem? s.diff_objects (s.idx - 1) ≡ some d
      → next parts s ≡ finish parts (pass parts d s)
  unfolding next
  next-run s d p e = let started : ltb 0 s.idx ≡ true = ground arith in rw (started, e) refl

  next-legacy :
      (s : Gradual parts) (x y : A) (d : OsuDifficultyObject Rest Extra)
      → 0 < s.idx
      → get_elem? s.diff_objects (s.idx - 1) ≡ some d
      → next parts (with_legacy x y s) ≡ next parts s
  unfolding pass
  next-legacy s x y d p e =
      next-run (with_legacy x y s) d p e
      ∙ finish-pass_legacy s x y d.base.kind (process parts d s.diff_objects s.skills)
      ∙ sym (next-run s d p e)

  -- The state after a difficulty object in `nth`.
  abbrev passed : OsuDifficultyObject Rest Extra → Gradual parts → Gradual parts
  passed d s = let s' = pass parts d s in record s' { idx = s'.idx + 1 }

  pass_all-next_after :
      (m : ℕ) (xs : List (OsuDifficultyObject Rest Extra)) (s : Gradual parts)
      → IsValid s
      → 0 < s.idx
      → drop (s.idx - 1) s.diff_objects ≡ xs
      → m < length xs
      → next parts (pass_all parts (take m xs) s) ≡ next_after (next parts) m s
  unfolding pass_all pass
  pass_all-next_after zero xs s v p e h = refl
  pass_all-next_after (suc m) [] s v p e h = absurd (omega arith)
  pass_all-next_after (suc m) (d ∷ []) s v p e h = absurd (omega arith)
  pass_all-next_after (suc m) (d ∷ d' ∷ xs) s v p e h =
      let (at, rest) = drop-cons s.diff_objects (d' ∷ xs) (s.idx - 1) d e in
      let here : suc (s.idx - 1) ≡ s.idx + 1 - 1 = omega arith in
      let rest' : drop (s.idx + 1 - 1) s.diff_objects ≡ d' ∷ xs =
        subst (λ i. drop i s.diff_objects ≡ d' ∷ xs) here rest in
      let inside : s.idx < length s.osu_objects =
        omega (arith, ap length e, length-drop (s.idx - 1) s.diff_objects, v.objects_len) in
      let t = passed d s in
      let alike =
        next-legacy t _ _ d' (omega arith)
          (drop-cons s.diff_objects xs (s.idx + 1 - 1) d' rest').0 in
      pass_all-next_after m (d' ∷ xs) t
        (record { objects_len = v.objects_len; idx_le = omega arith }) (omega arith) rest'
        (omega arith)
      ∙ sym (
          next_after_step (next parts) m s _ _
            (next-run s d p at ∙ finish-run (pass parts d s) inside)
          ∙ next_after_same (next parts) m _ t alike)

  -- Objects passed by `nth` where the first one was passed before, or none is to be passed.
  pass_some-next_after :
      (k : ℕ) (s : Gradual parts)
      → IsValid s
      → k ≤ len parts s - 1
      → (0 < k → 0 < s.idx)
      → next parts (pass_all parts (take k (drop (s.idx - 1) s.diff_objects)) s)
        ≡ next_after (next parts) k s
  unfolding len pass_all
  pass_some-next_after zero s v h p = refl
  pass_some-next_after (suc m) s v h p =
      let started = p (omega arith) in
      pass_all-next_after (suc m) (drop (s.idx - 1) s.diff_objects) s v started refl
        (omega (arith, length-drop (s.idx - 1) s.diff_objects))

  next-first :
      (s : Gradual parts)
      → IsValid s
      → s.idx ≡ 0
      → 0 < length s.diff_objects
      → next parts s ≡ finish parts s
  unfolding next
  next-first s v z h =
      let at_start : ltb 0 s.idx ≡ false = ground arith in
      let some_object : (length s.osu_objects == 0) ≡ false = ground (arith, v.objects_len) in
      rw (at_start, some_object) refl

  -- The first object passed by `nth`, and the others.
  pass_first-next_after :
      (k : ℕ) (s : Gradual parts)
      → IsValid s
      → s.idx ≡ 0
      → suc k ≤ len parts s - 1
      → next parts
          (pass_all parts (take k (drop (s.idx - 1) s.diff_objects)) (record s { idx = s.idx + 1 }))
        ≡ next_after (next parts) (suc k) s
  unfolding len
  pass_first-next_after k s v z h =
      let (d, at) = get_elem?-some s.diff_objects (s.idx + 1 - 1) (omega arith) in
      let t : Gradual parts = record s { idx = s.idx + 1 } in
      let from_start : s.idx - 1 ≡ s.idx + 1 - 1 = omega arith in
      rw from_start (
        pass_some-next_after k t
          (record { objects_len = v.objects_len; idx_le = omega (arith, v.objects_len) })
          (omega arith) (λ p. omega arith))
      ∙ sym (
          next_after_step (next parts) k s _ _
            (next-first s v z (omega arith) ∙ finish-run s (omega (arith, v.objects_len)))
          ∙ next_after_same (next parts) k _ t (next-legacy t _ _ d (omega arith) at))

  -- `nth` is the call of `next` after the given number of others, or after all but one of the objects
  -- left if that is less. The objects passed are not more than there are, and each but the first has its
  -- difficulty object.
  pub nth-next_after_osu :
      (s : Gradual parts) (n : ℕ)
      → IsValid s
      → nth parts s n ≡ next_after (next parts) (min n (len parts s - 1)) s
  unfolding nth
  nth-next_after_osu s n v = elim (Bool-cases (s.idx == 0 && ltb 0 (min n (len parts s - 1)))) [
    | inl t ↦
        let z : s.idx ≡ 0 = ground (arith, t) in
        let k : ℕ = min n (len parts s - 1) in
        let positive : suc (k - 1) ≡ k = ground (arith, t) in
        rw (t, nth)
          (subst
            (λ j.
              next parts (
                pass_all parts (take (k - 1) (drop (s.idx - 1) s.diff_objects))
                  (record s { idx = s.idx + 1 }))
              ≡ next_after (next parts) j s)
            positive (pass_first-next_after (k - 1) s v z (omega arith)))
    | inr t ↦
        rw (t, nth)
          (pass_some-next_after (min n (len parts s - 1)) s v (omega arith)
            (λ p. ground (arith, t)))
  ]
