-- ===== src/Util/Sort/Swaps.antt =====
-- Lists that differ by exchanges within a range.
use mathlib.Core.List.{Perm}
use mathlib.Core.List.Perm
use mamestagram_pp_rs.Prelude.{
  ℕ, zero, suc, ◌≤◌, ◌<◌, ◌≡◌, ◌≢◌, refl, ap, ◌∙◌, subst, Option, none, some, List, [], ◌∷◌, length,
  get_elem?, get_elem?-some, set, length-set, get_elem?-set_self, get_elem?-set_ne, arith, ◌⊎◌, inl,
  inr,
}
use mamestagram_pp_rs.Util.Sort.{slice_swap}

abbrev pub InRange : ℕ → ℕ → ℕ → Type 0
InRange lo hi i = (lo ≤ i) × (i ≤ hi)

-- Exchanges of two entries, one after another, each at indices from `lo` to `hi`.
pub data Swaps {T : Type 0} (lo hi : ℕ) : List T → List T → Type 0 where
  done : {xs : List T} → Swaps lo hi xs xs
  swapped :
      {xs ys zs : List T} (i j : ℕ)
      → InRange lo hi i
      → InRange lo hi j
      → slice_swap xs i j ≡ some ys
      → Swaps lo hi ys zs
      → Swaps lo hi xs zs

same_or_not : (i j : ℕ) → (i ≡ j) ⊎ (i ≢ j)
same_or_not zero zero = inl refl
same_or_not zero (suc j) = inr (λ e. omega arith)
same_or_not (suc i) zero = inr (λ e. omega arith)
same_or_not (suc i) (suc j) = elim (same_or_not i j) [
  | inl e ↦ inl (ap suc e)
  | inr n ↦ inr (λ e. n (omega arith))
]

module _ {T : Type 0} where
  get_elem?-lt : (xs : List T) (i : ℕ) (x : T) → get_elem? xs i ≡ some x → i < length xs
  get_elem?-lt [] i x e = cc e
  get_elem?-lt (y ∷ xs) zero x e = omega arith
  get_elem?-lt (y ∷ xs) (suc i) x e = omega (arith, get_elem?-lt xs i x e)

  -- A write trades the old entry for the new one.
  set_trade :
      (xs : List T) (i : ℕ) (x v : T) → get_elem? xs i ≡ some x → Perm (x ∷ set xs i v) (v ∷ xs)
  set_trade [] i x v e = cc e
  set_trade (y ∷ xs) zero x v e =
      subst (λ z. Perm (z ∷ v ∷ xs) (v ∷ y ∷ xs)) (cc e) (Perm.swap v y xs)
  set_trade (y ∷ xs) (suc i) x v e =
      Perm.trans (Perm.swap y x _)
        (Perm.trans (Perm.cons y (set_trade xs i x v e)) (Perm.swap v y xs))

  slice_swap-run :
      (xs : List T) (i j : ℕ) (x y : T)
      → get_elem? xs i ≡ some x
      → get_elem? xs j ≡ some y
      → slice_swap xs i j ≡ some (set (set xs i y) j x)
  unfolding slice_swap
  slice_swap-run xs i j x y e e' = rw (e, e') refl

  -- An exchange within bounds returns.
  pub slice_swap-some :
      (xs : List T) (i j : ℕ)
      → i < length xs
      → j < length xs
      → (ys : List T) × (slice_swap xs i j ≡ some ys) × (length ys ≡ length xs)
  slice_swap-some xs i j h k =
      let (x, e) = get_elem?-some xs i h in
      let (y, e') = get_elem?-some xs j k in
      (
        set (set xs i y) j x,
        slice_swap-run xs i j x y e e',
        length-set (set xs i y) j x ∙ length-set xs i y,
      )

  entry_moved :
      (xs : List T) (i j : ℕ) (y : T)
      → i < length xs
      → get_elem? xs j ≡ some y
      → get_elem? (set xs i y) j ≡ some y
  entry_moved xs i j y h e = elim (same_or_not i j) [
    | inl same ↦ subst (λ k. get_elem? (set xs i y) k ≡ some y) same (get_elem?-set_self xs i y h)
    | inr other ↦ get_elem?-set_ne xs y other ∙ e
  ]

  no_first : (xs : List T) (i j : ℕ) → get_elem? xs i ≡ none → slice_swap xs i j ≡ none
  unfolding slice_swap
  no_first xs i j e = rw e refl

  no_second :
      (xs : List T) (i j : ℕ) (x : T)
      → get_elem? xs i ≡ some x
      → get_elem? xs j ≡ none
      → slice_swap xs i j ≡ none
  unfolding slice_swap
  no_second xs i j x e e' = rw (e, e') refl

  -- What an exchange keeps: the entries, how many they are, and those at other indices where they are.
  abbrev pub Keeps : List T → List T → ℕ → ℕ → Type 0
  Keeps xs ys i j =
      Perm xs ys
      × (length ys ≡ length xs)
      × ((k : ℕ) → i ≢ k → j ≢ k → get_elem? ys k ≡ get_elem? xs k)

  written-Keeps :
      (xs : List T) (i j : ℕ) (x y : T)
      → get_elem? xs i ≡ some x
      → get_elem? xs j ≡ some y
      → Keeps xs (set (set xs i y) j x) i j
  written-Keeps xs i j x y e e' =
      let moved = entry_moved xs i j y (get_elem?-lt xs i x e) e' in
      (
        Perm.cons_inv
            (Perm.symm (Perm.trans (set_trade (set xs i y) j y x moved) (set_trade xs i x y e))),
        length-set (set xs i y) j x ∙ length-set xs i y,
        λ k n m. get_elem?-set_ne (set xs i y) x m ∙ get_elem?-set_ne xs y n,
      )

  pub slice_swap-Keeps : (xs ys : List T) (i j : ℕ) → slice_swap xs i j ≡ some ys → Keeps xs ys i j
  slice_swap-Keeps xs ys i j run = by_entries (get_elem? xs i) (get_elem? xs j) refl refl
    where
      by_entries : (a b : Option T) → get_elem? xs i ≡ a → get_elem? xs j ≡ b → Keeps xs ys i j
      by_entries none b e e' = cc (no_first xs i j e, run)
      by_entries (some x) none e e' = cc (no_second xs i j x e e', run)
      by_entries (some x) (some y) e e' =
          let same : set (set xs i y) j x ≡ ys = cc (slice_swap-run xs i j x y e e', run) in
          subst (λ z. Keeps xs z i j) same (written-Keeps xs i j x y e e')

  pub Swaps-trans :
      {lo hi : ℕ} {xs ys zs : List T} → Swaps lo hi xs ys → Swaps lo hi ys zs → Swaps lo hi xs zs
  Swaps-trans done q = q
  Swaps-trans (swapped i j a b e p) q = swapped i j a b e (Swaps-trans p q)

  -- Exchanges keep the entries, and those outside the range where they are.
  pub Swaps-Keeps :
      (lo hi : ℕ) (xs ys : List T)
      → Swaps lo hi xs ys
      → Perm xs ys
        × (length ys ≡ length xs)
        × ((k : ℕ) → (k < lo) ⊎ (hi < k) → get_elem? ys k ≡ get_elem? xs k)
  Swaps-Keeps lo hi xs ys done = (Perm.rfl, refl, λ k h. refl)
  Swaps-Keeps lo hi xs ys (swapped {ys = zs} i j a b e p) =
      let (first, size, elsewhere) = slice_swap-Keeps xs zs i j e in
      let (rest, size', elsewhere') = Swaps-Keeps lo hi zs ys p in
      (
        Perm.trans first rest,
        size' ∙ size,
        λ k h. elsewhere' k h ∙ elsewhere k (λ q. ground (arith, q)) (λ q. ground (arith, q)),
      )
