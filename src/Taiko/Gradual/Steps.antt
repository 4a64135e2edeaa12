-- ===== src/Taiko/Gradual/Steps.antt =====
-- `TaikoGradualDifficulty::next` goes through the hits of a map, and through its first two objects.
use mamestagram_pp_rs.Prelude.{
  ℕ, suc, ◌+◌, ◌-◌, ◌≤◌, ◌<◌, ◌≡◌, refl, sym, ap, ◌∙◌, subst, Bool, true, false, Option, none, some,
  List, [], ◌∷◌, length, leb, if◌then◌else◌, arith, inl, inr, Bool-cases,
}
use mamestagram_pp_rs.Taiko.Performance.{TaikoDifficultyAttributes}
use mamestagram_pp_rs.Taiko.Gradual.{
  TaikoDifficultyObject, TaikoParts, TaikoGradualDifficulty, Gradual, is_hit, process, pass_hit,
  finish, next,
}
use mamestagram_pp_rs.Taiko.Gradual.Hits.{
  pass_hit-found, pass_hit-passed, pass_hit-idx, pass_hit-exhausted, next-late, next-end,
  next-early,
}

unfoldable pub hits : {Extra : Type 0} → List (TaikoDifficultyObject Extra) → ℕ
hits [] = 0
hits (x ∷ xs) = if is_hit x.base_hit_type then suc (hits xs) else hits xs

abbrev pub one_if : Bool → ℕ
one_if true = 1
one_if false = 0

-- The hits that are left, with the first two objects, whether they are hits or not.
abbrev pub left :
    {Mods A R Extra Skills : Type 0} → TaikoGradualDifficulty Mods A R Extra Skills → ℕ
left s = hits s.diff_objects_iter + (2 - s.idx)

module _ {Content Mods A R Slider Extra Skills : Type 0}
    (parts : TaikoParts Content Mods A R Slider Extra Skills) where
  pass_hit-hits :
      (xs : List (TaikoDifficultyObject Extra)) (s : Gradual parts)
      → hits xs ≡ hits (pass_hit parts xs s).1.diff_objects_iter + one_if (pass_hit parts xs s).0
  unfolding hits pass_hit
  pass_hit-hits [] s = omega arith
  pass_hit-hits (x ∷ xs) s = elim (Bool-cases (is_hit x.base_hit_type)) [
    | inl t ↦ rw (t, hits, pass_hit) (omega arith)
    | inr t ↦ rw (t, hits, pass_hit) (pass_hit-hits xs (process parts x s))
  ]

  abbrev pub Passes : Gradual parts → Option (TaikoDifficultyAttributes A) × Gradual parts → Type 0
  Passes s (none, t) = (left s ≡ 0) × (left t ≡ 0)
  Passes s (some _, t) = (left s ≡ suc (left t)) × (t.diff_objects ≡ s.diff_objects)

  pass_hit-diff_objects :
      (xs : List (TaikoDifficultyObject Extra)) (s : Gradual parts)
      → (pass_hit parts xs s).1.diff_objects ≡ s.diff_objects
  unfolding pass_hit process
  pass_hit-diff_objects [] s = refl
  pass_hit-diff_objects (x ∷ xs) s = elim (Bool-cases (is_hit x.base_hit_type)) [
    | inl t ↦ ap (λ r. r.1.diff_objects) (pass_hit-found parts x xs s t)
    | inr t ↦
        ap (λ r. r.1.diff_objects) (pass_hit-passed parts x xs s t)
        ∙ pass_hit-diff_objects xs (process parts x s)
  ]

  next-Passes_late : (s : Gradual parts) → 2 ≤ s.idx → Passes s (next parts s)
  unfolding finish hits
  next-Passes_late s h =
      let counted = pass_hit-hits s.diff_objects_iter s in
      let t : Gradual parts = (pass_hit parts s.diff_objects_iter s).1 in
      let same = pass_hit-idx parts s.diff_objects_iter s in
      elim (Bool-cases (pass_hit parts s.diff_objects_iter s).0) [
        | inl found ↦
            let one : one_if (pass_hit parts s.diff_objects_iter s).0 ≡ 1 = ap one_if found in
            let fewer : left s ≡ suc (hits t.diff_objects_iter + (2 - (t.idx + 1))) = omega arith in
            subst (Passes s) (sym (next-late parts s h found))
              (fewer, pass_hit-diff_objects s.diff_objects_iter s)
        | inr found ↦
            let none_left : one_if (pass_hit parts s.diff_objects_iter s).0 ≡ 0 = ap one_if found in
            let end : hits t.diff_objects_iter ≡ 0 =
              ap hits (pass_hit-exhausted parts s.diff_objects_iter s found) in
            subst (Passes s) (sym (next-end parts s h found)) (omega arith, omega arith)
      ]

  -- `next` returns nothing once the hits are passed, and then nothing any more; otherwise it passes one
  -- hit more, or one of the first two objects. There is a difficulty object.
  pub next-Passes_taiko : (s : Gradual parts) → 0 < length s.diff_objects → Passes s (next parts s)
  unfolding finish
  next-Passes_taiko s p = elim (Bool-cases (leb 2 s.idx)) [
    | inl late ↦ next-Passes_late s (ground (arith, late))
    | inr early ↦
        subst (Passes s) (sym (next-early parts s (ground (arith, early)) p))
          (ground (arith, early), refl)
  ]
