-- ===== src/Util/IntervalGrouping/Groups.antt =====
-- Each group of src/util/interval_grouping.rs cuts the next objects off.
use mamestagram_pp_rs.Prelude.{
  ℕ, zero, suc, ◌+◌, ◌-◌, ◌≤◌, ◌<◌, ◌≡◌, ap, sym, ◌∙◌, Option, none, some, List, [], ◌∷◌, ◌++◌,
  length, get_elem?, get_elem?-some, drop, append_assoc, ltb, arith, inl, inr, Bool-cases, ◌&&◌,
}
use mamestagram_pp_rs.F64.{F64}
use mamestagram_pp_rs.Util.IntervalGrouping.{almost_eq, close_group, extend_group, margin_of_error}

module _ {T : Type 0} where
  drop-get :
      (xs : List T) (i : ℕ) (x : T) → get_elem? xs i ≡ some x → drop i xs ≡ x ∷ drop (suc i) xs
  drop-get [] i x e = cc e
  drop-get (y ∷ ys) zero x e = cc e
  drop-get (y ∷ ys) (suc i) x e = drop-get ys i x e

  -- An object moves from the rest to the group.
  pub move_one :
      (xs group start : List T) (i : ℕ) (x : T)
      → get_elem? xs i ≡ some x
      → group ++ drop i xs ≡ start
      → (group ++ x ∷ []) ++ drop (i + 1) xs ≡ start
  move_one xs group start i x e h =
      let next-eq : i + 1 ≡ suc i = omega arith in
      rw next-eq (
        append_assoc group (x ∷ []) (drop (suc i) xs)
        ∙ ap (◌++◌ group) (sym (drop-get xs i x e))
        ∙ h)

  -- A group that began where `start` is left, and the index behind it.
  abbrev pub Cuts : List T → ℕ → List T → Option (List T × ℕ) → Type 0
  Cuts objects low start none = ⊥
  Cuts objects low start (some (group, i)) =
      (low ≤ i) × (i ≤ length objects) × (group ++ drop i objects ≡ start)

module _ {T A : Type 0} ⦃f : F64 A⦄ (interval : T → A) where
  close_group-Cuts :
      (objects start group : List T) (low i : ℕ)
      → low ≤ i
      → i ≤ length objects
      → group ++ drop i objects ≡ start
      → Cuts objects low start (close_group interval objects i group)
  unfolding close_group
  close_group-Cuts objects start group low i l h e =
      elim (Bool-cases (ltb 2 (length objects) && ltb i (length objects))) [
        | inr n ↦ rw (n, close_group) (l, h, e)
        | inl t ↦
            let bounds : (2 < length objects) × (i < length objects) = ground (arith, t) in
            let (a, at_a) = get_elem?-some objects (length objects - 1) (omega arith) in
            let (b, at_b) = get_elem?-some objects (length objects - 2) (omega arith) in
            let (x, at_x) = get_elem?-some objects i bounds.1 in
            rw (t, at_a, at_b, at_x, close_group)
              (elim (Bool-cases (almost_eq interval a b)) [
                | inl close ↦
                    rw close (omega arith, omega arith, move_one objects group start i x at_x e)
                | inr far ↦ rw far (l, h, e)
              ])
      ]

  pub extend_group-Cuts :
      (fuel : ℕ) (objects start group : List T) (low i : ℕ)
      → low ≤ i
      → i ≤ length objects
      → length objects - i < fuel
      → group ++ drop i objects ≡ start
      → Cuts objects low start (extend_group interval fuel objects i group)
  unfolding extend_group
  extend_group-Cuts zero objects start group low i l h k e = absurd (omega arith)
  extend_group-Cuts (suc fuel) objects start group low i l h k e =
      elim (Bool-cases (ltb i (length objects - 1))) [
        | inr n ↦ rw (n, extend_group) (close_group-Cuts objects start group low i l h e)
        | inl t ↦
            let inside : i + 1 < length objects = ground (arith, t) in
            let (a, at_a) = get_elem?-some objects i (omega arith) in
            let (b, at_b) = get_elem?-some objects (i + 1) inside in
            rw (t, at_a, at_b, extend_group)
              (elim (Bool-cases (almost_eq interval a b)) [
                | inl close ↦ rw close (
                    extend_group-Cuts fuel objects start (group ++ a ∷ []) low (i + 1) (omega arith)
                      (omega arith) (omega arith) (move_one objects group start i a at_a e))
                | inr far ↦
                    rw far
                      (elim (Bool-cases
                        (f.lt (f.add (interval a) (margin_of_error interval)) (interval b))) [
                          | inl longer ↦
                              rw longer
                                (omega arith, omega arith, move_one objects group start i a at_a e)
                          | inr shorter ↦ rw shorter (l, h, e)
                        ])
              ])
      ]
