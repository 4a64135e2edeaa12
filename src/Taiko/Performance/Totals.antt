-- ===== src/Taiko/Performance/Totals.antt =====
-- What a completed osu!taiko score adds up to, and that completing it again changes nothing.
use mamestagram_pp_rs.Prelude.{
  ℕ, ◌+◌, ◌-◌, ◌^◌, ◌≤◌, ◌<◌, ◌≡◌, min, max, Option, none, some, map_or, arith, ◌+u◌, ◌-u◌,
}
use mamestagram_pp_rs.F64.{AccOk, F64, InUnit, IsIeee}
use mamestagram_pp_rs.Any.Settings.{HitResultPriority, best_case, worst_case}
use mamestagram_pp_rs.Taiko.Performance.{
  Hits, TaikoPerformance, fill, fill_acc, choose, complete, total_result_count,
}
use mamestagram_pp_rs.Taiko.Performance.Search.{closest-full}

abbrev pub given : Option ℕ → ℕ → ℕ
given o bound = map_or o 0 (λ n. min n bound)

abbrev pub sum_of : Hits → ℕ
sum_of h = h.n300 + h.n100

fill-sum :
    (p : HitResultPriority) (total misses : ℕ) (a b : Option ℕ) (h : Hits)
    → total < 2 ^ 30
    → misses ≤ total
    → h.n300 ≡ given a (total - misses)
    → h.n100 ≡ given b (total - misses)
    → sum_of (fill p total misses a b h) + misses ≡ max total (h.n300 + h.n100 + misses)
unfolding fill ◌+u◌
fill-sum best_case total misses none none h b m e3 e1 = ground arith
fill-sum best_case total misses none (some y) h b m e3 e1 = ground arith
fill-sum best_case total misses (some x) none h b m e3 e1 = ground arith
fill-sum best_case total misses (some x) (some y) h b m e3 e1 = ground arith
fill-sum worst_case total misses none none h b m e3 e1 = ground arith
fill-sum worst_case total misses none (some y) h b m e3 e1 = ground arith
fill-sum worst_case total misses (some x) none h b m e3 e1 = ground arith
fill-sum worst_case total misses (some x) (some y) h b m e3 e1 = ground arith

module _ {A : Type 0} ⦃f : F64 A⦄ (ieee : IsIeee A) where
  fill_acc-sum :
      (acc : A) (p : HitResultPriority) (total misses : ℕ) (a b : Option ℕ) (h : Hits)
      → InUnit acc
      → total < 2 ^ 30
      → misses ≤ total
      → h.n300 ≡ given a (total - misses)
      → h.n100 ≡ given b (total - misses)
      → sum_of (fill_acc acc p total (total -u misses) misses a b h) + misses
        ≡ max total (h.n300 + h.n100 + misses)
  unfolding fill_acc ◌+u◌ ◌-u◌
  fill_acc-sum acc best_case total misses (some x) (some y) h u b m e3 e1 = ground arith
  fill_acc-sum acc worst_case total misses (some x) (some y) h u b m e3 e1 = ground arith
  fill_acc-sum acc best_case total misses (some x) none h u b m e3 e1 = ground arith
  fill_acc-sum acc worst_case total misses (some x) none h u b m e3 e1 = ground arith
  fill_acc-sum acc best_case total misses none (some y) h u b m e3 e1 = ground arith
  fill_acc-sum acc worst_case total misses none (some y) h u b m e3 e1 = ground arith
  fill_acc-sum acc p total misses none none h u b m e3 e1 =
      ground (arith, closest-full ieee acc total (total -u misses) misses h)

  pub choose-sum :
      (acc : Option A) (p : HitResultPriority) (total misses : ℕ) (a b : Option ℕ) (h : Hits)
      → AccOk acc
      → total < 2 ^ 30
      → misses ≤ total
      → h.n300 ≡ given a (total - misses)
      → h.n100 ≡ given b (total - misses)
      → sum_of (choose acc p total misses a b h) + misses ≡ max total (h.n300 + h.n100 + misses)
  unfolding choose
  choose-sum none p total misses a b h _ = fill-sum p total misses a b h
  choose-sum (some acc) p total misses a b h u = fill_acc-sum acc p total misses a b h u

  module _ {Map Mods R : Type 0} (p : TaikoPerformance Map Mods A R) (max_combo : ℕ) where
    abbrev total : ℕ
    total = total_result_count p max_combo

    -- The counts of a completed score and its misses add up to the number of results, or to the counts
    -- given, each cut to what the misses leave, if these exceed it. A given accuracy lies between 0 and
    -- 1, and the map has fewer than 2 ^ 30 results.
    pub complete-sum :
        AccOk p.acc
        → max_combo < 2 ^ 30
        → let s = complete p max_combo in
          (s.n300 + s.n100 + s.misses
            ≡ max total
                (given p.n300 (total - s.misses) + given p.n100 (total - s.misses) + s.misses))
    unfolding complete total_result_count ◌-u◌
    complete-sum u b =
        let misses : ℕ = given p.misses total in
        let h : Hits = record {
          n300 = given p.n300 (total -u misses);
          n100 = given p.n100 (total -u misses);
        } in
        ground (arith, choose-sum p.acc p.hitresult_priority total misses p.n300 p.n100 h u)
