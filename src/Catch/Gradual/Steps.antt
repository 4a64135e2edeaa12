-- ===== src/Catch/Gradual/Steps.antt =====
-- `CatchGradualDifficulty::next` goes through the fruits and droplets of a map one by one.
use mamestagram_pp_rs.Prelude.{
  ℕ, suc, ◌+◌, ◌-◌, ◌<◌, ◌≡◌, refl, sym, ap, subst, true, some, List, [], ◌∷◌, length,
  get_elem?-some, get_elem?-none, ltb, ◌==◌, arith, inl, inr, Bool-cases, CountsDown,
}
use mamestagram_pp_rs.Any.Settings.{Difficulty}
use mamestagram_pp_rs.Model.Beatmap.{Beatmap}
use mamestagram_pp_rs.Catch.JuiceStream.{PalpableObject}
use mamestagram_pp_rs.Catch.Objects.Totals.{convert_objects-deltas}
use mamestagram_pp_rs.Catch.Gradual.{
  GradualParts, Gradual, pass, next, len, start, of_map, create_from, create_difficulty_objects,
}
use mamestagram_pp_rs.Catch.Gradual.Nth.{
  IsValid, left, add_count-some, counted-IsValid, next-run, next-first,
}

module _ {Content Mods A R Slider Object Movement : Type 0}
    (parts : GradualParts Content Mods A R Slider Object Movement) where
  next-CountsDown_started :
      (s : Gradual parts) → IsValid s → 0 < s.idx → CountsDown IsValid left s (next parts s)
  unfolding next pass
  next-CountsDown_started s v p =
      let started : ltb 0 s.idx ≡ true = ground arith in
      elim (Bool-cases (ltb (s.idx - 1) (length s.diff_objects))) [
        | inl h ↦
            let (d, at) = get_elem?-some s.diff_objects (s.idx - 1) (ground (arith, h)) in
            let s' : Gradual parts = record s {
              movement = parts.process d s.diff_objects s.movement;
            } in
            let inside : s.idx < length s.count = ground (arith, h, v.objects_len) in
            let v' : IsValid s' = record { objects_len = v.objects_len; idx_le = v.idx_le } in
            let (c, run) = add_count-some parts s' inside in
            subst (CountsDown IsValid left s) (sym (next-run parts s _ d p at run))
              (omega arith, counted-IsValid parts c s' v' inside)
        | inr h ↦
            let none_left = get_elem?-none s.diff_objects (s.idx - 1) (ground (arith, h)) in
            rw (started, none_left, next) (ground (arith, h, v.objects_len), refl)
      ]

  -- `next` does not panic. It returns nothing once the objects are passed, and otherwise passes one more;
  -- so `len` is the number of calls that return something, for a map that has an object. There is a
  -- count for each object and a difficulty object for each but the first, and the objects passed are not
  -- more than there are.
  pub next-CountsDown_catch :
      (s : Gradual parts)
      → IsValid s
      → CountsDown IsValid left s (next parts s) × (0 < length s.count → len parts s ≡ left s)
  unfolding next len
  next-CountsDown_catch s v = (
    elim (Bool-cases (ltb 0 s.idx)) [
      | inl t ↦ next-CountsDown_started s v (ground (arith, t))
      | inr t ↦ elim (Bool-cases (length s.count == 0)) [
        | inl z ↦ rw (t, z, next) (ground (arith, z), refl)
        | inr z ↦
            let inside : s.idx < length s.count = ground (arith, z, t) in
            let (c, run) = add_count-some parts s inside in
            subst (CountsDown IsValid left s)
              (sym (next-first parts s _ (ground (arith, t)) (omega arith) run))
              (omega arith, counted-IsValid parts c s v inside)
      ]
    ],
    λ h. omega (arith, v.objects_len),
  )

  create_from-length :
      (clock_rate width : A) (last : PalpableObject A) (rest : List (PalpableObject A)) (i : ℕ)
      → length (create_from parts clock_rate width last rest i) ≡ length rest
  unfolding create_from
  create_from-length clock_rate width last [] i = refl
  create_from-length clock_rate width last (h ∷ rest) i =
      ap suc (create_from-length clock_rate width h rest (i + 1))

  length-create_difficulty_objects :
      (clock_rate width : A) (objects : List (PalpableObject A))
      → length (create_difficulty_objects parts clock_rate width objects) ≡ length objects - 1
  unfolding create_difficulty_objects
  length-create_difficulty_objects clock_rate width [] = refl
  length-create_difficulty_objects clock_rate width (h ∷ rest) =
      omega (arith, create_from-length clock_rate width h rest 0)

  -- `new` does not panic on a map of the mode, and starts with a count for each object, a difficulty
  -- object for each but the first and none passed, where `sort_by` and `initialize_hyper_dash` keep the
  -- number of objects.
  pub of_map-IsValid_catch :
      (difficulty : Difficulty Mods A R) (map : Beatmap Content)
      → ((found : List (PalpableObject A))
          → length (parts.objects.arrange (parts.circle_size difficulty map) found) ≡ length found)
      → (s : Gradual parts) × (of_map parts difficulty map ≡ some s) × IsValid s × (s.idx ≡ 0)
  unfolding of_map start
  of_map-IsValid_catch difficulty map same_length =
      let cs = parts.circle_size difficulty map in
      let (objects, b, counts, run, made, size) =
        convert_objects-deltas parts.objects map (parts.reflection difficulty.mods)
          (parts.hardrock_offsets difficulty) cs same_length in
      let width = parts.catcher_width cs in
      (
        start parts difficulty map counts objects,
        rw (run, made) refl,
        record {
          objects_len = omega (
            arith,
            size,
            length-create_difficulty_objects (parts.clock_rate difficulty) width objects,
          );
          idx_le = omega arith;
        },
        refl,
      )
