-- ===== src/Tests/Sort.antt =====
-- Examples for src/util/sort/mod.rs.
use mamestagram_pp_rs.Prelude.{ℕ, List, [], ◌∷◌, compare, arith}
use mamestagram_pp_rs.Util.Sort.{heap_sort}
use mamestagram_pp_rs.Util.Sort.Heap.{Rearranges, heap_sort-Rearranges}

abbrev keys : List ℕ
keys = 5 ∷ 9 ∷ 2 ∷ 7 ∷ 1 ∷ 8 ∷ []

heap_sort-Rearranges_example : Rearranges compare 1 5 keys (heap_sort compare keys 1 5)
heap_sort-Rearranges_example = heap_sort-Rearranges compare keys 1 5 (omega arith) (omega arith)
