-- ===== src/Util/IntervalGrouping/Collect.antt =====
-- The groups of src/util/interval_grouping.rs, collected, make up the objects.
use mamestagram_pp_rs.Prelude.{
  ℕ, zero, suc, ◌+◌, ◌-◌, ◌≤◌, ◌<◌, ◌≡◌, refl, ap, sym, ◌∙◌, Option, none, some, List, [], ◌∷◌,
  ◌++◌, length, length-append, length-drop, drop, drop_all, ltb, arith, inl, inr, Bool-cases, ◌>>=◌,
  get_elem?-some,
}
use mamestagram_pp_rs.F64.{F64}
use mamestagram_pp_rs.Util.IntervalGrouping.{
  GroupedByInterval, new, size_hint, create_next_group, next,
}
use mamestagram_pp_rs.Util.IntervalGrouping.Groups.{Cuts, move_one, extend_group-Cuts}

module _ {T : Type 0} where
  -- The groups one after another.
  abbrev pub concat : List (List T) → List T
  concat [] = []
  concat (g ∷ gs) = g ++ concat gs

  abbrev pub NoneEmpty : List (List T) → Type 0
  NoneEmpty [] = Unit
  NoneEmpty (g ∷ gs) = (0 < length g) × NoneEmpty gs

module _ {T A : Type 0} ⦃f : F64 A⦄ (interval : T → A) where
  -- What `create_next_group` cuts off.
  abbrev pub NextGroup : GroupedByInterval T → Option (List T × GroupedByInterval T) → Type 0
  NextGroup s none = ⊥
  NextGroup s (some (group, s')) =
      (s'.objects ≡ s.objects)
      × (s.i < s'.i)
      × (s'.i ≤ length s.objects)
      × (group ++ drop s'.i s.objects ≡ drop s.i s.objects)

  cut-NextGroup :
      (s : GroupedByInterval T) (r : Option (List T × ℕ))
      → Cuts s.objects (s.i + 1) (drop s.i s.objects) r
      → NextGroup s (r >>= λ (group, i). some (group, record s { i = i }))
  cut-NextGroup s none c = c
  cut-NextGroup s (some (group, i)) (l, h, e) = (refl, omega arith, h, e)

  create_next_group-NextGroup :
      (s : GroupedByInterval T)
      → s.i < length s.objects
      → NextGroup s (create_next_group interval s)
  unfolding create_next_group
  create_next_group-NextGroup s h =
      let (x, at) = get_elem?-some s.objects s.i h in
      rw (at, create_next_group)
        (cut-NextGroup s _ (
          extend_group-Cuts interval (length s.objects) s.objects (drop s.i s.objects) (x ∷ [])
            (s.i + 1) (s.i + 1) (omega arith) (omega arith) (omega arith)
            (move_one s.objects [] (drop s.i s.objects) s.i x at refl)))

  -- `collect` of the iterator.
  unfoldable pub collect : ℕ → GroupedByInterval T → Option (List (List T))
  unfolding next
  collect zero s = none
  collect (suc fuel) s = do
    (found, s') ← next interval s
    elim found [ none ↦ some [] | some group ↦ collect fuel s' >>= λ groups. some (group ∷ groups) ]

  abbrev pub Collects : GroupedByInterval T → Option (List (List T)) → Type 0
  Collects s none = ⊥
  Collects s (some groups) =
      (concat groups ≡ drop s.i s.objects)
      × NoneEmpty groups
      × (length groups ≤ length s.objects - s.i)

  cons-Collects :
      (s s' : GroupedByInterval T) (group : List T) (r : Option (List (List T)))
      → NextGroup s (some (group, s'))
      → Collects s' r
      → Collects s (r >>= λ groups. some (group ∷ groups))
  cons-Collects s s' group none c k = k
  cons-Collects s s' group (some groups) (same, more, le, cut) (whole, full, count) =
      let lengths = ap length cut in
      let parts = length-append group (drop s'.i s.objects) in
      let rest = length-drop s'.i s.objects in
      let all = length-drop s.i s.objects in
      let size = ap length same in
      (
        ap (◌++◌ group) (whole ∙ ap (drop s'.i) same) ∙ cut,
        (omega (arith, lengths, parts, rest, all), full),
        omega (arith, size),
      )

  step-Collects :
      (fuel : ℕ) (s : GroupedByInterval T) (r : Option (List T × GroupedByInterval T))
      → ((s' : GroupedByInterval T)
          → length s'.objects - s'.i < fuel
          → Collects s' (collect fuel s'))
      → length s.objects - s.i < suc fuel
      → NextGroup s r
      → Collects s (
          (r >>= λ (group, s'). some (some group, s')) >>= λ (found, s'). elim found [
            | none ↦ some []
            | some group ↦ collect fuel s' >>= λ groups. some (group ∷ groups)
          ])
  step-Collects fuel s none rest h c = c
  step-Collects fuel s (some (group, s')) rest h c =
      let size = ap length c.0 in
      cons-Collects s s' group (collect fuel s') c (rest s' (omega (arith, size, c.1, h)))

  collect-Collects :
      (fuel : ℕ) (s : GroupedByInterval T)
      → length s.objects - s.i < fuel
      → Collects s (collect fuel s)
  unfolding collect
  collect-Collects zero s h = absurd (omega arith)
  collect-Collects (suc fuel) s h = elim (Bool-cases (ltb s.i (length s.objects))) [
    | inr n ↦ rw (n, next) (sym (drop_all s.i s.objects (ground (arith, n))), tt, omega arith)
    | inl t ↦
        rw (t, next)
          (step-Collects fuel s _ (collect-Collects fuel) h
            (create_next_group-NextGroup s (ground (arith, t))))
  ]

  returned :
      (s : GroupedByInterval T) (r : Option (List (List T)))
      → Collects s r
      → (groups : List (List T)) × (r ≡ some groups) × Collects s (some groups)
  returned s none c = absurd c
  returned s (some groups) c = (groups, refl, c)

  -- The groups of all objects are none of them empty, make up the objects in their order, and are not
  -- more than `size_hint` says at first; each step of the iterator that is needed for them returns.
  pub collect-groups :
      (objects : List T)
      → (groups : List (List T)) × (collect (length objects + 1) (new objects) ≡ some groups)
        × (concat groups ≡ objects)
        × NoneEmpty groups
        × (length groups ≤ (size_hint (new objects)).1)
  unfolding new size_hint
  collect-groups objects =
      let (groups, e, c) =
        returned (new objects) (collect (length objects + 1) (new objects))
          (collect-Collects (length objects + 1) (new objects) (omega arith)) in
      (groups, e, c.0, c.1, c.2)
