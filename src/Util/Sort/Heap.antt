-- ===== src/Util/Sort/Heap.antt =====
-- The heap sort of src/util/sort/mod.rs returns, and only exchanges entries of its range.
use mathlib.Core.List.{Perm}
use mamestagram_pp_rs.Prelude.{
  ℕ, zero, suc, ◌+◌, ◌-◌, ◌*◌, ◌/◌, ◌≤◌, ◌<◌, ◌≡◌, refl, ◌∙◌, subst, sym, true, false, Option, none,
  some, List, length, get_elem?, get_elem?-some, Ordering, Bool, if◌then◌else◌, ltb, leb, ◌==◌,
  ◌>>=◌, arith, ◌⊎◌, inl, inr, Bool-cases,
}
use mamestagram_pp_rs.Util.Sort.{
  is_lt, is_ge, slice_swap, swap, larger_child, down_heap, build_heap, take_largest, heap_sort,
}
use mamestagram_pp_rs.Util.Sort.Swaps.{
  InRange, Swaps, done, swapped, slice_swap-some, Swaps-trans, Swaps-Keeps,
}

-- A call returns, and has exchanged entries of the range only.
abbrev pub Exchanges : {T : Type 0} → ℕ → ℕ → List T → Option (List T) → Type 0
Exchanges lo hi xs none = ⊥
Exchanges lo hi xs (some ys) = (length ys ≡ length xs) × Swaps lo hi xs ys

module _ {T : Type 0} where
  then_Exchanges :
      (lo hi : ℕ) (xs : List T) (r : Option (List T)) (k : List T → Option (List T))
      → Exchanges lo hi xs r
      → ((ys : List T) → length ys ≡ length xs → Exchanges lo hi ys (k ys))
      → Exchanges lo hi xs (r >>= k)
  then_Exchanges lo hi xs none k e next = e
  then_Exchanges lo hi xs (some ys) k (size, e) next = join (k ys) (next ys size)
    where
      join : (r : Option (List T)) → Exchanges lo hi ys r → Exchanges lo hi xs r
      join none f = f
      join (some zs) (size', f) = (size' ∙ size, Swaps-trans e f)

  slice_swap-Exchanges :
      (lo hi : ℕ) (xs : List T) (i j : ℕ)
      → hi < length xs
      → InRange lo hi i
      → InRange lo hi j
      → Exchanges lo hi xs (slice_swap xs i j)
  slice_swap-Exchanges lo hi xs i j h a b =
      let (ys, e, size) = slice_swap-some xs i j (omega arith) (omega arith) in
      subst (Exchanges lo hi xs) (sym e) (size, swapped i j a b e done)

  swap-Exchanges :
      (lo hi : ℕ) (xs : List T) (i j : ℕ)
      → hi < length xs
      → InRange lo hi i
      → InRange lo hi j
      → Exchanges lo hi xs (swap xs i j)
  unfolding swap
  swap-Exchanges lo hi xs i j h a b = elim (Bool-cases (i == j)) [
    | inl e ↦ rw (e, swap) (refl, done)
    | inr e ↦ rw (e, swap) (slice_swap-Exchanges lo hi xs i j h a b)
  ]

module _ {T : Type 0} (cmp : T → T → Ordering) where
  larger_child-some :
      (keys : List T) (i n lo : ℕ)
      → 1 ≤ i
      → 2 * i ≤ n
      → lo + n ≤ length keys
      → (c : ℕ) × (larger_child cmp keys i n lo ≡ some c) × (i < c) × (c ≤ n)
  unfolding larger_child
  larger_child-some keys i n lo p q h = elim (Bool-cases (ltb (2 * i) n)) [
    | inr e ↦ (2 * i, rw e refl, omega arith, q)
    | inl e ↦
        let inside : 2 * i < n = ground (arith, e) in
        let (x, ex) = get_elem?-some keys (lo + 2 * i - 1) (omega arith) in
        let (y, ey) = get_elem?-some keys (lo + 2 * i) (omega arith) in
        elim (Bool-cases (is_lt (cmp x y))) [
          | inl l ↦ (2 * i + 1, rw (e, ex, ey, l) refl, omega arith, omega arith)
          | inr l ↦ (2 * i, rw (e, ex, ey, l) refl, omega arith, q)
        ]
  ]

  -- A round of `down_heap`, with what it reads.
  down_heap-round :
      (fuel : ℕ) (keys : List T) (i n lo c : ℕ) (x y : T)
      → leb i (n / 2) ≡ true
      → larger_child cmp keys i n lo ≡ some c
      → get_elem? keys (lo + i - 1) ≡ some x
      → get_elem? keys (lo + c - 1) ≡ some y
      → down_heap cmp (suc fuel) keys i n lo ≡ (
          if is_ge (cmp x y)
          then some keys
          else (slice_swap keys (lo + i - 1) (lo + c - 1) >>= λ ys. down_heap cmp fuel ys c n lo))
  unfolding down_heap
  down_heap-round fuel keys i n lo c x y e ec ex ey = rw (e, ec, ex, ey, down_heap) refl

  either_Exchanges :
      (lo hi : ℕ) (keys : List T) (b : Bool) (r : Option (List T))
      → Exchanges lo hi keys r
      → Exchanges lo hi keys (if b then some keys else r)
  either_Exchanges lo hi keys true r e = (refl, done)
  either_Exchanges lo hi keys false r e = e

  pub down_heap-Exchanges :
      (fuel : ℕ) (keys : List T) (i n lo hi : ℕ)
      → 1 ≤ i
      → i ≤ n
      → n < fuel + i
      → lo + n ≤ hi + 1
      → hi < length keys
      → Exchanges lo hi keys (down_heap cmp fuel keys i n lo)
  unfolding down_heap
  down_heap-Exchanges zero keys i n lo hi p q f r h = absurd (omega arith)
  down_heap-Exchanges (suc fuel) keys i n lo hi p q f r h = elim (Bool-cases (leb i (n / 2))) [
    | inr e ↦ rw (e, down_heap) (refl, done)
    | inl e ↦
        let inside : 2 * i ≤ n = ground (arith, e) in
        let (c, ec, low, high) = larger_child-some keys i n lo p inside (omega arith) in
        let (x, ex) = get_elem?-some keys (lo + i - 1) (omega arith) in
        let (y, ey) = get_elem?-some keys (lo + c - 1) (omega arith) in
        subst (Exchanges lo hi keys) (sym (down_heap-round fuel keys i n lo c x y e ec ex ey)) (
          either_Exchanges lo hi keys (is_ge (cmp x y)) _ (
            then_Exchanges lo hi keys (slice_swap keys (lo + i - 1) (lo + c - 1)) _
              (slice_swap-Exchanges lo hi keys (lo + i - 1) (lo + c - 1) h
                (omega arith, omega arith) (omega arith, omega arith))
              (λ ys size.
                down_heap-Exchanges fuel ys c n lo hi (omega arith) high (omega arith) r
                  (omega (arith, size, h)))))
  ]

  build_heap-Exchanges :
      (k : ℕ) (keys : List T) (n lo hi : ℕ)
      → k ≤ n
      → lo + n ≤ hi + 1
      → hi < length keys
      → Exchanges lo hi keys (build_heap cmp k keys n lo)
  unfolding build_heap
  build_heap-Exchanges zero keys n lo hi q r h = (refl, done)
  build_heap-Exchanges (suc k) keys n lo hi q r h =
      then_Exchanges lo hi keys (down_heap cmp (n + 1) keys (suc k) n lo) _
        (down_heap-Exchanges (n + 1) keys (suc k) n lo hi (omega arith) q (omega arith) r h)
        (λ ys size. build_heap-Exchanges k ys n lo hi (omega arith) r (omega (arith, size)))

  take_largest-Exchanges :
      (k : ℕ) (keys : List T) (lo hi : ℕ)
      → lo + k ≤ hi
      → hi < length keys
      → Exchanges lo hi keys (take_largest cmp k keys lo)
  unfolding take_largest
  take_largest-Exchanges zero keys lo hi r h = (refl, done)
  take_largest-Exchanges (suc k) keys lo hi r h =
      then_Exchanges lo hi keys (swap keys lo (lo + suc (suc k) - 1)) _
        (swap-Exchanges lo hi keys lo (lo + suc (suc k) - 1) h (omega arith, omega arith)
          (omega arith, omega arith))
        (λ ys size.
          then_Exchanges lo hi ys (down_heap cmp (suc k + 1) ys 1 (suc k) lo) _
            (down_heap-Exchanges (suc k + 1) ys 1 (suc k) lo hi (omega arith) (omega arith)
              (omega arith) (omega arith) (omega (arith, size)))
            (λ zs size'.
              take_largest-Exchanges k zs lo hi (omega arith) (omega (arith, size, size'))))

  heap_sort-Exchanges :
      (keys : List T) (lo hi : ℕ)
      → lo ≤ hi
      → hi < length keys
      → Exchanges lo hi keys (heap_sort cmp keys lo hi)
  unfolding heap_sort
  heap_sort-Exchanges keys lo hi q h =
      then_Exchanges lo hi keys (build_heap cmp ((hi - lo + 1) / 2) keys (hi - lo + 1) lo) _
        (build_heap-Exchanges ((hi - lo + 1) / 2) keys (hi - lo + 1) lo hi (omega arith)
          (omega arith) h)
        (λ ys size.
          take_largest-Exchanges (hi - lo + 1 - 1) ys lo hi (omega arith) (omega (arith, size)))

  -- What a sort of a range does at least: it returns, keeps the entries, and leaves those outside the
  -- range where they are.
  abbrev pub Rearranges : ℕ → ℕ → List T → Option (List T) → Type 0
  Rearranges lo hi keys none = ⊥
  Rearranges lo hi keys (some sorted) =
      Perm keys sorted
      × (length sorted ≡ length keys)
      × ((k : ℕ) → (k < lo) ⊎ (hi < k) → get_elem? sorted k ≡ get_elem? keys k)

  rearranged :
      (lo hi : ℕ) (keys : List T) (r : Option (List T))
      → Exchanges lo hi keys r
      → Rearranges lo hi keys r
  rearranged lo hi keys none e = e
  rearranged lo hi keys (some ys) (size, e) = Swaps-Keeps lo hi keys ys e

  -- `heap_sort` of a range within the keys does not panic and its loops end, whatever the comparison
  -- says; it rearranges the keys of the range and leaves the others where they are.
  pub heap_sort-Rearranges :
      (keys : List T) (lo hi : ℕ)
      → lo ≤ hi
      → hi < length keys
      → Rearranges lo hi keys (heap_sort cmp keys lo hi)
  heap_sort-Rearranges keys lo hi q h = rearranged lo hi keys _ (heap_sort-Exchanges keys lo hi q h)
