-- ===== src/Taiko/Gradual/Hits.antt =====
-- `TaikoGradualDifficulty`: the loops up to the next hits, as `next` and `nth` have them.
use mamestagram_pp_rs.Prelude.{
  ℕ, zero, suc, ◌+◌, ◌≤◌, ◌<◌, ◌≡◌, refl, sym, ap, ◌∙◌, subst, true, false, Option, none, some,
  List, [], ◌∷◌, length, leb, ◌==◌, ◌+u◌, arith, inl, inr, Bool-cases, next_after, next_after_step,
}
use mamestagram_pp_rs.Taiko.Performance.{TaikoDifficultyAttributes}
use mamestagram_pp_rs.Taiko.Gradual.{
  TaikoDifficultyObject, TaikoParts, Gradual, is_hit, combo_after, process, with_combo, pass_hit,
  finish, next, pass_hits,
}

module _ {Content Mods A R Slider Extra Skills : Type 0}
    (parts : TaikoParts Content Mods A R Slider Extra Skills) where
  -- `next`, which does not panic.
  abbrev pub called : Gradual parts → Option (Option (TaikoDifficultyAttributes A) × Gradual parts)
  called s = some (next parts s)

  module _ (x : TaikoDifficultyObject Extra) (xs : List (TaikoDifficultyObject Extra))
      (s : Gradual parts) where
    -- The state after a hit.
    abbrev pub hit : Gradual parts
    hit =
        let s' = process parts x s in
        record (with_combo parts (s'.attrs.max_combo +u 1) s') { diff_objects_iter = xs }

    pub pass_hit-found : is_hit x.base_hit_type ≡ true → pass_hit parts (x ∷ xs) s ≡ (true, hit)
    unfolding pass_hit
    pass_hit-found t = rw t refl

    pub pass_hit-passed :
        is_hit x.base_hit_type ≡ false
        → pass_hit parts (x ∷ xs) s ≡ pass_hit parts xs (process parts x s)
    unfolding pass_hit
    pass_hit-passed t = rw t refl

  pub pass_hit-idx :
      (xs : List (TaikoDifficultyObject Extra)) (s : Gradual parts)
      → (pass_hit parts xs s).1.idx ≡ s.idx
  unfolding pass_hit process
  pass_hit-idx [] s = refl
  pass_hit-idx (x ∷ xs) s = elim (Bool-cases (is_hit x.base_hit_type)) [
    | inl t ↦ ap (λ r. r.1.idx) (pass_hit-found x xs s t)
    | inr t ↦ ap (λ r. r.1.idx) (pass_hit-passed x xs s t) ∙ pass_hit-idx xs (process parts x s)
  ]

  pub pass_hit-exhausted :
      (xs : List (TaikoDifficultyObject Extra)) (s : Gradual parts)
      → (pass_hit parts xs s).0 ≡ false
      → (pass_hit parts xs s).1.diff_objects_iter ≡ []
  unfolding pass_hit
  pass_hit-exhausted [] s e = refl
  pass_hit-exhausted (x ∷ xs) s e = elim (Bool-cases (is_hit x.base_hit_type)) [
    | inl t ↦ cc (e, ap (λ r. r.0) (pass_hit-found x xs s t))
    | inr t ↦
        ap (λ r. r.1.diff_objects_iter) (pass_hit-passed x xs s t)
        ∙ pass_hit-exhausted xs (process parts x s)
            (sym (ap (λ r. r.0) (pass_hit-passed x xs s t)) ∙ e)
  ]

  pub next-late :
      (s : Gradual parts)
      → 2 ≤ s.idx
      → (pass_hit parts s.diff_objects_iter s).0 ≡ true
      → next parts s ≡ finish parts (pass_hit parts s.diff_objects_iter s).1
  unfolding next
  next-late s h found = let late : leb 2 s.idx ≡ true = ground arith in rw (late, found) refl

  pub next-end :
      (s : Gradual parts)
      → 2 ≤ s.idx
      → (pass_hit parts s.diff_objects_iter s).0 ≡ false
      → next parts s ≡ (none, (pass_hit parts s.diff_objects_iter s).1)
  unfolding next
  next-end s h found = let late : leb 2 s.idx ≡ true = ground arith in rw (late, found) refl

  pub next-early :
      (s : Gradual parts)
      → s.idx < 2
      → 0 < length s.diff_objects
      → next parts s
        ≡ finish parts
            (with_combo parts (combo_after s.first_combos (s.idx == 0) s.attrs.max_combo) s)
  unfolding next
  next-early s h p =
      let early : leb 2 s.idx ≡ false = ground arith in
      let some_object : (length s.diff_objects == 0) ≡ false = ground arith in
      rw (early, some_object) refl

  next-exhausted :
      (s : Gradual parts) → 2 ≤ s.idx → s.diff_objects_iter ≡ [] → next parts s ≡ (none, s)
  unfolding pass_hit
  next-exhausted s h e =
      let stay : pass_hit parts s.diff_objects_iter s ≡ (false, s) =
        subst (λ xs. pass_hit parts xs s ≡ (false, record s { diff_objects_iter = xs })) (sym e)
          refl in
      next-end s h (ap (λ r. r.0) stay) ∙ ap (λ r. (none, r.1)) stay

  -- After the last hit, nothing is returned.
  next_after-exhausted :
      (k : ℕ) (s : Gradual parts)
      → 2 ≤ s.idx
      → s.diff_objects_iter ≡ []
      → next_after called k s ≡ some (none, s)
  next_after-exhausted zero s h e = ap some (next-exhausted s h e)
  next_after-exhausted (suc k) s h e =
      next_after_step called k s s none (ap some (next-exhausted s h e))
      ∙ next_after-exhausted k s h e

  module _ (k : ℕ) (s : Gradual parts) where
    abbrev after : Gradual parts
    after = (pass_hit parts s.diff_objects_iter s).1

    pass_hits-found :
        (pass_hit parts s.diff_objects_iter s).0 ≡ true
        → pass_hits parts (suc k) s ≡ pass_hits parts k (record after { idx = after.idx + 1 })
    unfolding pass_hits
    pass_hits-found t = rw t refl

    pass_hits-end :
        (pass_hit parts s.diff_objects_iter s).0 ≡ false → pass_hits parts (suc k) s ≡ (none, after)
    unfolding pass_hits
    pass_hits-end t = rw t refl

  pub pass_hits-next_after :
      (k : ℕ) (s : Gradual parts) → 2 ≤ s.idx → some (pass_hits parts k s) ≡ next_after called k s
  unfolding pass_hits finish
  pass_hits-next_after zero s h = refl
  pass_hits-next_after (suc k) s h =
      let t : Gradual parts = (pass_hit parts s.diff_objects_iter s).1 in
      let same = pass_hit-idx s.diff_objects_iter s in
      elim (Bool-cases (pass_hit parts s.diff_objects_iter s).0) [
        | inl found ↦
            ap some (pass_hits-found k s found)
            ∙ pass_hits-next_after k (record t { idx = t.idx + 1 }) (omega arith)
            ∙ sym (next_after_step called k s _ _ (ap some (next-late s h found)))
        | inr found ↦
            ap some (pass_hits-end k s found)
            ∙ sym (
                next_after_step called k s _ _ (ap some (next-end s h found))
                ∙ next_after-exhausted k t (omega arith)
                    (pass_hit-exhausted s.diff_objects_iter s found))
      ]
