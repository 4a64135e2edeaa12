-- ===== src/Mania/Objects/Holds.antt =====
-- The hold notes that `DifficultyValues::calculate` counts.
use mamestagram_pp_rs.Prelude.{
  ℕ, zero, suc, ◌+◌, ◌%◌, ◌≡◌, refl, ap, ◌∙◌, Bool, true, false, some, List, [], ◌∷◌, map, take,
  take-map, subst, get_elem?, ◌+u◌, u32_mod, arith,
}
use mamestagram_pp_rs.F64.{F64}
use mamestagram_pp_rs.Any.Settings.{Difficulty, get_passed_objects}
use mamestagram_pp_rs.Model.Beatmap.{Beatmap}
use mamestagram_pp_rs.Model.HitObject.{HitObjectKind, HitObject, is_circle}
use mamestagram_pp_rs.Mania.Objects.{
  ObjectParams, ManiaParts, no_params, hold_object, of_kind, mania_object, mania_objects, calculate,
}

-- How many of the notes are no circles.
unfoldable pub holds : List Bool → ℕ
holds [] = 0
holds (true ∷ xs) = holds xs
holds (false ∷ xs) = suc (holds xs)

holds-cons : (x : Bool) (xs : List Bool) → holds (x ∷ xs) ≡ holds (x ∷ []) + holds xs
unfolding holds
holds-cons true xs = omega arith
holds-cons false xs = omega arith

pub holds-take :
    (xs : List Bool) (i : ℕ) (x : Bool)
    → get_elem? xs i ≡ some x
    → holds (take (suc i) xs) ≡ holds (take i xs) + holds (x ∷ [])
unfolding holds
holds-take [] i x e = cc e
holds-take (y ∷ xs) zero x e =
    let same : y ≡ x = cc e in subst (λ z. holds (y ∷ []) ≡ 0 + holds (z ∷ [])) same (omega arith)
holds-take (y ∷ xs) (suc i) x e =
    omega (arith, holds-take xs i x e, holds-cons y (take i xs), holds-cons y (take (suc i) xs))

module _ {Content Mods A R Slider Strain : Type 0} ⦃f : F64 A⦄
    (parts : ManiaParts Content Mods A R Slider Strain) where
  of_kind-holds :
      (beatmap : Beatmap Content) (start_time : A) (column : ℕ) (kind : HitObjectKind A Slider)
      (params : ObjectParams) (n : ℕ)
      → params.n_hold_notes ≡ n % u32_mod
      → (of_kind parts beatmap start_time column kind params).1.n_hold_notes
        ≡ (n + holds (is_circle kind ∷ [])) % u32_mod
  unfolding of_kind hold_object holds is_circle ◌+u◌
  of_kind-holds beatmap start_time column HitObjectKind.circle params n e = omega arith
  of_kind-holds beatmap start_time column (HitObjectKind.slider s) params n e = omega arith
  of_kind-holds beatmap start_time column (HitObjectKind.spinner d) params n e = omega arith
  of_kind-holds beatmap start_time column (HitObjectKind.hold d) params n e = omega arith

  mania_objects-holds :
      (beatmap : Beatmap Content) (columns : A) (hs : List (HitObject A Slider))
      (params : ObjectParams) (n : ℕ)
      → params.n_hold_notes ≡ n % u32_mod
      → (mania_objects parts beatmap columns hs params).1.n_hold_notes
        ≡ (n + holds (map (λ h. is_circle h.kind) hs)) % u32_mod
  unfolding mania_objects mania_object holds
  mania_objects-holds beatmap columns [] params n e = omega arith
  mania_objects-holds beatmap columns (h ∷ hs) params n e =
      let counted =
        of_kind-holds beatmap h.start_time (parts.column h.pos_x columns) h.kind
          (record params { max_combo = params.max_combo +u 1 }) n e in
      mania_objects-holds beatmap columns hs (mania_object parts beatmap h columns params).1
        (n + holds (is_circle h.kind ∷ [])) counted
      ∙ ap (λ m. m % u32_mod)
          (omega (arith, holds-cons (is_circle h.kind) (map (λ h. is_circle h.kind) hs)))

  -- The hold notes counted are the notes passed that are no circles.
  pub calculate-holds :
      (difficulty : Difficulty Mods A R) (beatmap : Beatmap Content)
      → (calculate parts difficulty beatmap).n_hold_notes
        ≡ holds (
            take
              (get_passed_objects difficulty)
              (map (λ h. is_circle h.kind) (parts.hit_objects beatmap.content)))
          % u32_mod
  unfolding calculate
  calculate-holds difficulty beatmap =
      let n_take = get_passed_objects difficulty in
      let hs = parts.hit_objects beatmap.content in
      mania_objects-holds beatmap (parts.total_columns beatmap.content) (take n_take hs) no_params 0
        refl
      ∙ ap (λ m. m % u32_mod) (omega (arith, ap holds (take-map (λ h. is_circle h.kind) n_take hs)))
