-- ===== src/Util/Sort.antt =====
-- src/util/sort/mod.rs: the heap sort that both sorting algorithms fall back on, and its exchanges.
-- Indices that are out of bounds panic, which is `none`, as is a `while` that runs out of fuel.
pub mod Swaps
pub mod Heap
use mamestagram_pp_rs.Prelude.{
  ℕ, zero, suc, ◌+◌, ◌-◌, ◌*◌, ◌/◌, Bool, true, false, Option, none, some, List, set, length,
  get_elem?, Ordering, ltb, leb, ◌==◌, if◌then◌else◌, ◌>>=◌,
}

-- `slice::swap`
unfoldable pub slice_swap : {T : Type 0} → List T → ℕ → ℕ → Option (List T)
slice_swap keys i j = do x ← get_elem? keys i; y ← get_elem? keys j; some (set (set keys i y) j x)

unfoldable pub swap : {T : Type 0} → List T → ℕ → ℕ → Option (List T)
unfolding slice_swap
swap keys i j = if i == j then some keys else slice_swap keys i j

abbrev pub is_lt : Ordering → Bool
is_lt Ordering.lt = true
is_lt Ordering.eq = false
is_lt Ordering.gt = false

abbrev pub is_gt : Ordering → Bool
is_gt Ordering.lt = false
is_gt Ordering.eq = false
is_gt Ordering.gt = true

abbrev pub is_ge : Ordering → Bool
is_ge Ordering.lt = false
is_ge Ordering.eq = true
is_ge Ordering.gt = true

module _ {T : Type 0} (cmp : T → T → Ordering) where
  unfoldable pub swap_if_greater : List T → ℕ → ℕ → Option (List T)
  unfolding slice_swap
  swap_if_greater keys a b = if a == b then some keys else (do
    x ← get_elem? keys a
    y ← get_elem? keys b
    (if is_gt (cmp x y) then slice_swap keys a b else some keys))

  -- The larger child, if there are two.
  unfoldable pub larger_child : List T → ℕ → ℕ → ℕ → Option ℕ
  larger_child keys i n lo =
      let child = 2 * i in
      if ltb child n
      then (do
        x ← get_elem? keys (lo + child - 1)
        y ← get_elem? keys (lo + child)
        some (if is_lt (cmp x y) then child + 1 else child))
      else some child

  unfoldable pub down_heap : ℕ → List T → ℕ → ℕ → ℕ → Option (List T)
  unfolding larger_child slice_swap
  down_heap zero keys i n lo = none
  down_heap (suc fuel) keys i n lo =
      let rest : ℕ → List T → Option (List T) = λ child keys'. down_heap fuel keys' child n lo in
      if leb i (n / 2)
      then (do
        child ← larger_child keys i n lo
        x ← get_elem? keys (lo + i - 1)
        y ← get_elem? keys (lo + child - 1)
        (if is_ge (cmp x y)
            then some keys
            else (slice_swap keys (lo + i - 1) (lo + child - 1) >>= rest child)))
      else some keys

  -- `for i in (1..=k).rev()`
  unfoldable pub build_heap : ℕ → List T → ℕ → ℕ → Option (List T)
  unfolding down_heap
  build_heap zero keys n lo = some keys
  build_heap (suc k) keys n lo = do
    keys' ← down_heap (n + 1) keys (suc k) n lo
    build_heap k keys' n lo

  -- `for i in (2..=k + 1).rev()`
  unfoldable pub take_largest : ℕ → List T → ℕ → Option (List T)
  unfolding swap down_heap
  take_largest zero keys lo = some keys
  take_largest (suc k) keys lo = do
    keys' ← swap keys lo (lo + suc (suc k) - 1)
    keys'' ← down_heap (suc k + 1) keys' 1 (suc k) lo
    take_largest k keys'' lo

  unfoldable pub heap_sort : List T → ℕ → ℕ → Option (List T)
  unfolding build_heap take_largest
  heap_sort keys lo hi =
      let n = hi - lo + 1 in do keys' ← build_heap (n / 2) keys n lo; take_largest (n - 1) keys' lo
