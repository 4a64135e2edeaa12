-- ===== src/Mania/Gradual/Holds.antt =====
-- The hold notes of the attributes that `ManiaGradualDifficulty::next` returns.
use mamestagram_pp_rs.Prelude.{
  ℕ, suc, ◌+◌, ◌-◌, ◌%◌, ◌≤◌, ◌<◌, ◌≡◌, refl, sym, ap, ap₂, ◌∙◌, subst, Bool, true, false, Option,
  none, some, List, [], ◌∷◌, length, length-map, take, map, ltb, ◌==◌, ◌+u◌, u32_mod, arith, inl,
  inr, Bool-cases, get_elem?, get_elem?-some, get_elem?-none, next_after, next_after-reach,
}
use mamestagram_pp_rs.F64.{F64}
use mamestagram_pp_rs.Any.Settings.{Difficulty, get_passed_objects}
use mamestagram_pp_rs.Model.Beatmap.{Beatmap}
use mamestagram_pp_rs.Model.HitObject.{HitObject, is_circle}
use mamestagram_pp_rs.Mania.Performance.{ManiaDifficultyAttributes}
use mamestagram_pp_rs.Mania.Objects.{ManiaDifficultyObject, ObjectParams, ManiaParts, difficulty_of}
use mamestagram_pp_rs.Mania.Objects.Holds.{holds, holds-take, calculate-holds}
use mamestagram_pp_rs.Mania.Gradual.{
  NoteState, Gradual, increment_combo_raw, increment_combo, current, finish, pass_note, next,
  first_note, of_map,
}
use mamestagram_pp_rs.Mania.Gradual.Nth.{IsValid, passed, next-run, next-first}
use mamestagram_pp_rs.Mania.Gradual.Steps.{of_map-IsValid_mania}

increment_combo_raw-holds :
    {A : Type 0} ⦃f : F64 A⦄ (circle : Bool) (start end : A) (state : NoteState) (n : ℕ)
    → state.n_hold_notes ≡ n % u32_mod
    → (increment_combo_raw circle start end state).n_hold_notes
      ≡ (n + holds (circle ∷ [])) % u32_mod
unfolding increment_combo_raw holds ◌+u◌
increment_combo_raw-holds true start end state n e = omega arith
increment_combo_raw-holds false start end state n e = omega arith

module _ {Content Mods A R Slider Strain : Type 0} ⦃f : F64 A⦄
    (parts : ManiaParts Content Mods A R Slider Strain) where
  -- The hold notes counted are those of the notes passed, and of the first one at the start.
  abbrev HoldsCounted : Gradual parts → Type 0
  HoldsCounted s =
      s.note_state.n_hold_notes ≡ holds (take (s.idx + (1 - s.idx)) s.objects_is_circle) % u32_mod

  -- The map's notes, which no call changes.
  abbrev Counts : List Bool → Gradual parts → Type 0
  Counts circles s = (s.objects_is_circle ≡ circles) × IsValid s × HoldsCounted s

  passed-HoldsCounted :
      (s : Gradual parts) (d : ManiaDifficultyObject A) (c : Bool)
      → 0 < s.idx
      → get_elem? s.objects_is_circle s.idx ≡ some c
      → HoldsCounted s
      → HoldsCounted (passed parts d c s)
  unfolding pass_note increment_combo
  passed-HoldsCounted s d c p at e =
      let before : s.idx + (1 - s.idx) ≡ s.idx = omega arith in
      let after : suc s.idx ≡ s.idx + 1 + (1 - (s.idx + 1)) = omega arith in
      let counted =
        increment_combo_raw-holds {A = A} c _ _ s.note_state
          (holds (take s.idx s.objects_is_circle))
          (subst (λ i. s.note_state.n_hold_notes ≡ holds (take i s.objects_is_circle) % u32_mod)
            before e) in
      counted
      ∙ ap (λ m. m % u32_mod)
          (sym (holds-take s.objects_is_circle s.idx c at)
            ∙ ap (λ i. holds (take i s.objects_is_circle)) after)

  -- The attributes returned are those of the notes passed.
  abbrev Returned : Gradual parts → Option (ManiaDifficultyAttributes A) → Type 0
  Returned t none = Unit {0}
  Returned t (some attrs) =
      (0 < t.idx)
      × (attrs.n_objects ≡ t.idx % u32_mod)
      × (attrs.n_hold_notes ≡ t.note_state.n_hold_notes)

  abbrev Outcome :
      List Bool → Option (Option (ManiaDifficultyAttributes A) × Gradual parts) → Type 0
  Outcome circles none = ⊥
  Outcome circles (some (i, t)) = Counts circles t × Returned t i

  next-Outcome_started :
      (circles : List Bool) (s : Gradual parts)
      → Counts circles s
      → 0 < s.idx
      → Outcome circles (next parts s)
  unfolding next pass_note current
  next-Outcome_started circles s (m, v, e) p =
      let started : ltb 0 s.idx ≡ true = ground arith in
      elim (Bool-cases (ltb (s.idx - 1) (length s.diff_objects))) [
        | inl h ↦
            let (d, at) = get_elem?-some s.diff_objects (s.idx - 1) (ground (arith, h)) in
            let (c, circle) =
              get_elem?-some s.objects_is_circle s.idx (ground (arith, h, v.objects_len)) in
            subst (Outcome circles) (sym (next-run parts s d c p at circle)) (
              (
                m,
                record { objects_len = v.objects_len; idx_le = ground (arith, h, v.objects_len) },
                passed-HoldsCounted s d c p circle e,
              ),
              (omega arith, refl, refl),
            )
        | inr h ↦
            let none_left = get_elem?-none s.diff_objects (s.idx - 1) (ground (arith, h)) in
            rw (started, none_left, next) ((m, v, e), tt)
      ]

  next-Outcome :
      (circles : List Bool) (s : Gradual parts) → Counts circles s → Outcome circles (next parts s)
  unfolding next finish current
  next-Outcome circles s (m, v, e) = elim (Bool-cases (ltb 0 s.idx)) [
    | inl t ↦ next-Outcome_started circles s (m, v, e) (ground (arith, t))
    | inr t ↦ elim (Bool-cases (length s.objects_is_circle == 0)) [
      | inl z ↦ rw (t, z, next) ((m, v, e), tt)
      | inr z ↦
          let same : s.idx + (1 - s.idx) ≡ s.idx + 1 + (1 - (s.idx + 1)) = ground (arith, t) in
          subst (Outcome circles) (sym (next-first parts s (ground (arith, t)) (ground (arith, z))))
            (
              (
                m,
                record { objects_len = v.objects_len; idx_le = ground (arith, z, t) },
                subst
                    (λ i. s.note_state.n_hold_notes ≡ holds (take i s.objects_is_circle) % u32_mod)
                    same e,
              ),
              (omega arith, refl, refl),
            )
    ]
  ]

  first_note-holds :
      (beatmap : Beatmap Content) (columns : A) (hs : List (HitObject A Slider))
      (params : ObjectParams)
      → (first_note parts beatmap columns hs params).n_hold_notes
        ≡ holds (take 1 (map (λ h. is_circle h.kind) hs)) % u32_mod
  unfolding first_note holds
  first_note-holds beatmap columns [] params = refl
  first_note-holds beatmap columns (h ∷ hs) params =
      increment_combo_raw-holds {A = A} (is_circle h.kind) _ _
        (record { curr_combo = 0; n_hold_notes = 0 }) 0 refl
      ∙ ap (λ m. m % u32_mod) (omega arith)

  of_map-Counts :
      (difficulty : Difficulty Mods A R) (beatmap : Beatmap Content)
      → Counts
          (map (λ h. is_circle h.kind) (parts.hit_objects beatmap.content))
          (of_map parts difficulty beatmap)
  unfolding of_map
  of_map-Counts difficulty beatmap = (
    refl,
    of_map-IsValid_mania parts difficulty beatmap,
    first_note-holds beatmap (parts.total_columns beatmap.content)
        (parts.hit_objects beatmap.content) _,
  )

  -- The attributes that a call of `next` returns have the hold notes and the number of objects that the
  -- calculation with as many passed objects returns.
  pub next-difficulty_mania :
      (difficulty settings : Difficulty Mods A R) (beatmap : Beatmap Content) (k : ℕ)
      (s : Gradual parts) (attrs : ManiaDifficultyAttributes A)
      → next_after (next parts) k (of_map parts difficulty beatmap) ≡ some (some attrs, s)
      → get_passed_objects settings ≡ s.idx
      → (attrs.n_hold_notes ≡ (difficulty_of parts settings beatmap).n_hold_notes)
        × (attrs.n_objects ≡ (difficulty_of parts settings beatmap).n_objects)
  unfolding difficulty_of
  next-difficulty_mania difficulty settings beatmap k s attrs run e =
      let circles = map (λ h. is_circle h.kind) (parts.hit_objects beatmap.content) in
      let (t, counts, called) =
        next_after-reach (next parts) (Counts circles) k (of_map parts difficulty beatmap)
          (some attrs, s)
          (λ t u i c called. (subst (Outcome circles) called (next-Outcome circles t c)).0)
          (of_map-Counts difficulty beatmap) run in
      let ((same, v, counted), (started, objects, hold_notes)) =
        subst (Outcome circles) called (next-Outcome circles t counts) in
      let hs = parts.hit_objects beatmap.content in
      let notes : s.idx + (1 - s.idx) ≡ get_passed_objects settings = omega arith in
      let few : s.idx ≤ length hs =
        omega (arith, v.idx_le, ap length same, length-map (λ h. is_circle h.kind) hs) in
      (
        hold_notes
            ∙ counted
            ∙ ap₂ (λ i c. holds (take i c) % u32_mod) notes same
            ∙ sym (calculate-holds parts settings beatmap),
        objects ∙ ap (λ n. n % u32_mod) (omega arith),
      )
