-- ===== src/Osu/Gradual/Steps.antt =====
-- `OsuGradualDifficulty::next` goes through the objects of a map one by one.
use mamestagram_pp_rs.Prelude.{
  ℕ, ◌+◌, ◌-◌, ◌<◌, ◌≡◌, refl, sym, subst, true, List, [], ◌∷◌, ◌++◌, length, length-append,
  get_elem?-some, get_elem?-none, ltb, ◌==◌, arith, inl, inr, Bool-cases, CountsDown,
}
use mamestagram_pp_rs.F64.{F64}
use mamestagram_pp_rs.Any.Settings.{Difficulty}
use mamestagram_pp_rs.Model.Beatmap.{Beatmap}
use mamestagram_pp_rs.Osu.Gradual.{
  OsuObject, OsuDifficultyObject, OsuParts, OsuGradualDifficulty, finish, pass, next, len, Gradual,
  of_map, create_from, create_difficulty_objects,
}
use mamestagram_pp_rs.Osu.Gradual.Nth.{IsValid, finish-run, next-run}

-- The objects that are left.
abbrev pub left :
    {Mods A R Skills Rest Extra : Type 0} → OsuGradualDifficulty Mods A R Skills Rest Extra → ℕ
left s = length s.osu_objects - s.idx

module _ {Content Mods A R Skills Rest Extra : Type 0}
    (parts : OsuParts Content Mods A R Skills Rest Extra) where
  -- `finish` on a state with as many objects left as `s`.
  finish-CountsDown :
      (s t : Gradual parts)
      → IsValid t
      → t.idx < length t.osu_objects
      → left t ≡ left s
      → CountsDown IsValid left s (finish parts t)
  finish-CountsDown s t v h e =
      subst (CountsDown IsValid left s) (sym (finish-run parts t h))
        (omega arith, record { objects_len = v.objects_len; idx_le = omega arith })

  next-CountsDown_started :
      (s : Gradual parts) → IsValid s → 0 < s.idx → CountsDown IsValid left s (next parts s)
  unfolding next pass
  next-CountsDown_started s v p =
      let started : ltb 0 s.idx ≡ true = ground arith in
      elim (Bool-cases (ltb (s.idx - 1) (length s.diff_objects))) [
        | inl h ↦
            let (d, at) = get_elem?-some s.diff_objects (s.idx - 1) (ground (arith, h)) in
            subst (CountsDown IsValid left s) (sym (next-run parts s d p at)) (
              finish-CountsDown s (pass parts d s)
                (record { objects_len = v.objects_len; idx_le = v.idx_le })
                (ground (arith, h, v.objects_len)) refl)
        | inr h ↦
            let none_left = get_elem?-none s.diff_objects (s.idx - 1) (ground (arith, h)) in
            rw (started, none_left, next) (ground (arith, h, v.objects_len), refl)
      ]

  -- `next` does not panic. It returns nothing once the objects are passed, and otherwise passes one more;
  -- so `len` is the number of calls that return something, for a map that has an object. The objects
  -- passed are not more than there are, and each but the first has its difficulty object.
  pub next-CountsDown_osu :
      (s : Gradual parts)
      → IsValid s
      → CountsDown IsValid left s (next parts s) × (0 < length s.osu_objects → len parts s ≡ left s)
  unfolding next len pass
  next-CountsDown_osu s v = (
    elim (Bool-cases (ltb 0 s.idx)) [
      | inr t ↦
          rw (t, next)
            (elim (Bool-cases (length s.osu_objects == 0)) [
              | inl z ↦ rw z (ground (arith, z), refl)
              | inr z ↦ rw z (finish-CountsDown s s v (ground (arith, z, t)) refl)
            ])
      | inl t ↦ next-CountsDown_started s v (ground (arith, t))
    ],
    λ h. omega (arith, v.objects_len),
  )

  create_from-length :
      (difficulty : Difficulty Mods A R) (map : Beatmap Content) (last : OsuObject Rest)
      (rest : List (OsuObject Rest)) (done : List (OsuDifficultyObject Rest Extra))
      → length (create_from parts difficulty map last rest done) ≡ length done + length rest
  unfolding create_from
  create_from-length difficulty map last [] done = omega arith
  create_from-length difficulty map last (h ∷ rest) done = omega (
    arith,
    create_from-length difficulty map h rest
        (done ++ parts.difficulty_object difficulty map h last done (length done) ∷ []),
    length-append done (parts.difficulty_object difficulty map h last done (length done) ∷ []),
  )

  length-create_difficulty_objects :
      (difficulty : Difficulty Mods A R) (map : Beatmap Content) (objects : List (OsuObject Rest))
      → length (create_difficulty_objects parts difficulty map objects) ≡ length objects - 1
  unfolding create_difficulty_objects
  length-create_difficulty_objects difficulty map [] = refl
  length-create_difficulty_objects difficulty map (h ∷ rest) =
      omega (arith, create_from-length difficulty map h rest [])

  -- `new` starts with no object passed, and a difficulty object for each object but the first.
  pub of_map-IsValid_osu :
      ⦃f : F64 A⦄ (difficulty : Difficulty Mods A R) (map : Beatmap Content)
      → IsValid (of_map parts difficulty map)
  unfolding of_map
  of_map-IsValid_osu difficulty map = record {
    objects_len = length-create_difficulty_objects difficulty map (parts.objects difficulty map);
    idx_le = omega arith;
  }
