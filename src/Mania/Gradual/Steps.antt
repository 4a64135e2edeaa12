-- ===== src/Mania/Gradual/Steps.antt =====
-- `ManiaGradualDifficulty::next` goes through the notes of a map one by one.
use mamestagram_pp_rs.Prelude.{
  ℕ, suc, ◌+◌, ◌-◌, ◌≤◌, ◌<◌, ◌≡◌, refl, sym, ap, subst, true, List, [], ◌∷◌, length, length-map,
  take_fewer, get_elem?-some, get_elem?-none, take, ltb, ◌==◌, arith, inl, inr, Bool-cases,
  CountsDown,
}
use mamestagram_pp_rs.F64.{F64}
use mamestagram_pp_rs.Any.Settings.{Difficulty, get_passed_objects}
use mamestagram_pp_rs.Model.Beatmap.{Beatmap}
use mamestagram_pp_rs.Model.HitObject.{HitObject, is_circle}
use mamestagram_pp_rs.Mania.Objects.{
  ManiaObject, ObjectParams, ManiaParts, no_params, mania_objects, create_from,
  create_difficulty_objects,
}
use mamestagram_pp_rs.Mania.Gradual.{
  ManiaGradualDifficulty, Gradual, finish, pass_note, next, len, of_map,
}
use mamestagram_pp_rs.Mania.Gradual.Nth.{IsValid, total, next-run, next-first}

-- The notes that are left.
abbrev pub left : {Mods A R Strain : Type 0} → ManiaGradualDifficulty Mods A R Strain → ℕ
left s = total s - s.idx

module _ {Content Mods A R Slider Strain : Type 0} ⦃f : F64 A⦄
    (parts : ManiaParts Content Mods A R Slider Strain) where
  next-CountsDown_started :
      (s : Gradual parts) → IsValid s → 0 < s.idx → CountsDown IsValid left s (next parts s)
  unfolding next pass_note
  next-CountsDown_started s v p =
      let started : ltb 0 s.idx ≡ true = ground arith in
      elim (Bool-cases (ltb (s.idx - 1) (length s.diff_objects))) [
        | inl h ↦
            let (d, at) = get_elem?-some s.diff_objects (s.idx - 1) (ground (arith, h)) in
            let (c, circle) =
              get_elem?-some s.objects_is_circle s.idx (ground (arith, h, v.objects_len)) in
            subst (CountsDown IsValid left s) (sym (next-run parts s d c p at circle)) (
              ground (arith, h, v.objects_len),
              record { objects_len = v.objects_len; idx_le = ground (arith, h, v.objects_len) },
            )
        | inr h ↦
            let none_left = get_elem?-none s.diff_objects (s.idx - 1) (ground (arith, h)) in
            rw (started, none_left, next) (ground (arith, h, v.objects_len), refl)
      ]

  -- `next` does not panic. It returns nothing once the notes are passed, and otherwise passes one more;
  -- so `len` is the number of calls that return something, for a map that has an object. The notes with a
  -- difficulty object are no more than the ones but the first, and no more are passed than there are.
  pub next-CountsDown_mania :
      (s : Gradual parts)
      → IsValid s
      → CountsDown IsValid left s (next parts s)
        × (0 < length s.objects_is_circle → len parts s ≡ left s)
  unfolding next len finish
  next-CountsDown_mania s v = (
    elim (Bool-cases (ltb 0 s.idx)) [
      | inl t ↦ next-CountsDown_started s v (ground (arith, t))
      | inr t ↦ elim (Bool-cases (length s.objects_is_circle == 0)) [
        | inl z ↦ rw (t, z, next) (ground (arith, z), refl)
        | inr z ↦
            subst (CountsDown IsValid left s)
              (sym (next-first parts s (ground (arith, t)) (ground (arith, z))))
              (
                ground (arith, z, t),
                record { objects_len = v.objects_len; idx_le = ground (arith, z, t) },
              )
      ]
    ],
    λ h. omega (arith, v.objects_len),
  )

  create_from-length :
      (clock_rate : A) (last : ManiaObject A) (rest : List (ManiaObject A)) (i : ℕ)
      → length (create_from parts clock_rate last rest i) ≡ length rest
  unfolding create_from
  create_from-length clock_rate last [] i = refl
  create_from-length clock_rate last (h ∷ rest) i =
      ap suc (create_from-length clock_rate h rest (i + 1))

  length-create_difficulty_objects :
      (clock_rate : A) (objects : List (ManiaObject A))
      → length (create_difficulty_objects parts clock_rate objects) ≡ length objects - 1
  unfolding create_difficulty_objects
  length-create_difficulty_objects clock_rate [] = refl
  length-create_difficulty_objects clock_rate (h ∷ rest) =
      omega (arith, create_from-length clock_rate h rest 0)

  mania_objects-length :
      (map : Beatmap Content) (columns : A) (hs : List (HitObject A Slider)) (params : ObjectParams)
      → length (mania_objects parts map columns hs params).0 ≡ length hs
  unfolding mania_objects
  mania_objects-length map columns [] params = refl
  mania_objects-length map columns (h ∷ hs) params = ap suc (mania_objects-length map columns hs _)

  -- `new` starts with no note passed, and no more difficulty objects than notes but the first.
  pub of_map-IsValid_mania :
      (difficulty : Difficulty Mods A R) (map : Beatmap Content)
      → IsValid (of_map parts difficulty map)
  unfolding of_map
  of_map-IsValid_mania difficulty map =
      let hs = parts.hit_objects map.content in
      let n_take = get_passed_objects difficulty in
      let columns = parts.total_columns map.content in
      let objects = (mania_objects parts map columns (take n_take hs) no_params).0 in
      let fewer : length (create_difficulty_objects parts (parts.clock_rate difficulty) objects)
          ≤ length hs - 1 =
        omega (
          arith,
          length-create_difficulty_objects (parts.clock_rate difficulty) objects,
          mania_objects-length map columns (take n_take hs) no_params,
          take_fewer n_take hs,
        ) in
      record {
        objects_len =
            subst
              (λ n.
                length (create_difficulty_objects parts (parts.clock_rate difficulty) objects)
                ≤ n - 1)
              (sym (length-map (λ h. is_circle h.kind) hs)) fewer;
        idx_le = omega arith;
      }
