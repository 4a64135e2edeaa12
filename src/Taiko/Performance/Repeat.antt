-- ===== src/Taiko/Performance/Repeat.antt =====
-- Completing an osu!taiko score twice: the second call of `generate_state` finds everything given.
use mamestagram_pp_rs.Prelude.{
  ap, ◌∙◌, ℕ, ◌+◌, ◌-◌, ◌^◌, ◌≤◌, ◌<◌, ◌≡◌, refl, min, Option, none, some, Result, ok, arith, ◌+u◌,
  ◌-u◌,
}
use mamestagram_pp_rs.F64.{AccOk, F64, InUnit, IsIeee}
use mamestagram_pp_rs.Any.Settings.{
  ConvertError, load_attrs, HitResultPriority, best_case, worst_case, of_attrs,
}
use mamestagram_pp_rs.Taiko.Performance.{
  Hits, TaikoScoreState, TaikoPerformance, TaikoDifficultyAttributes, fill, fill_acc, choose,
  complete, total_result_count, generate_state, state,
}
use mamestagram_pp_rs.Taiko.Performance.Search.{closest-full}
use mamestagram_pp_rs.Taiko.Performance.Totals.{given, choose-sum}

-- Both counts leave room for the misses.
abbrev Fits : ℕ → ℕ → Hits → Type 0
Fits total misses h = (h.n300 + misses ≤ total) × (h.n100 + misses ≤ total)

-- What `complete` hands to `choose` as the counts given.
abbrev Given : ℕ → ℕ → Option ℕ → Option ℕ → Hits → Type 0
Given total misses a b h = (h.n300 ≡ given a (total - misses)) × (h.n100 ≡ given b (total - misses))

fill-Fits :
    (p : HitResultPriority) (total misses : ℕ) (a b : Option ℕ) (h : Hits)
    → total < 2 ^ 30
    → misses ≤ total
    → Given total misses a b h
    → Fits total misses (fill p total misses a b h)
unfolding fill ◌+u◌
fill-Fits best_case total misses none b h l m g = ground arith
fill-Fits best_case total misses (some _) none h l m g = ground arith
fill-Fits best_case total misses (some _) (some _) h l m g = ground arith
fill-Fits worst_case total misses none none h l m g = ground arith
fill-Fits worst_case total misses (some _) none h l m g = ground arith
fill-Fits worst_case total misses none (some _) h l m g = ground arith
fill-Fits worst_case total misses (some _) (some _) h l m g = ground arith

module _ {Map Mods A R : Type 0} (p : TaikoPerformance Map Mods A R) (max_combo : ℕ) where
  -- What every completed score satisfies.
  pub record IsComplete (s : TaikoScoreState) : Type 0 where
    pub misses_le : s.misses ≤ total_result_count p max_combo
    pub n300_le : s.n300 + s.misses ≤ total_result_count p max_combo
    pub n100_le : s.n100 + s.misses ≤ total_result_count p max_combo
    pub filled : total_result_count p max_combo ≤ s.n300 + s.n100 + s.misses
    pub combo_le : s.max_combo ≤ max_combo - s.misses

module _ {A : Type 0} ⦃f : F64 A⦄ (ieee : IsIeee A) where
  fill_acc-Fits :
      (acc : A) (p : HitResultPriority) (total misses : ℕ) (a b : Option ℕ) (h : Hits)
      → InUnit acc
      → total < 2 ^ 30
      → misses ≤ total
      → Given total misses a b h
      → Fits total misses (fill_acc acc p total (total -u misses) misses a b h)
  unfolding fill_acc ◌+u◌ ◌-u◌
  fill_acc-Fits acc best_case total misses (some _) (some _) h u l m g = ground arith
  fill_acc-Fits acc worst_case total misses (some _) (some _) h u l m g = ground arith
  fill_acc-Fits acc best_case total misses (some _) none h u l m g = ground arith
  fill_acc-Fits acc worst_case total misses (some _) none h u l m g = ground arith
  fill_acc-Fits acc best_case total misses none (some _) h u l m g = ground arith
  fill_acc-Fits acc worst_case total misses none (some _) h u l m g = ground arith
  fill_acc-Fits acc p total misses none none h u l m g =
      ground (arith, closest-full ieee acc total (total -u misses) misses h)

  choose-Fits :
      (acc : Option A) (p : HitResultPriority) (total misses : ℕ) (a b : Option ℕ) (h : Hits)
      → AccOk acc
      → total < 2 ^ 30
      → misses ≤ total
      → Given total misses a b h
      → Fits total misses (choose acc p total misses a b h)
  unfolding choose
  choose-Fits none p total misses a b h _ = fill-Fits p total misses a b h
  choose-Fits (some acc) p total misses a b h u = fill_acc-Fits acc p total misses a b h u

  -- With both counts given and no result left over, nothing is added.
  choose_given :
      (acc : Option A) (p : HitResultPriority) (total misses x y : ℕ) (h : Hits)
      → Fits total misses h
      → total < 2 ^ 30
      → total ≤ h.n300 + h.n100 + misses
      → choose acc p total misses (some x) (some y) h ≡ h
  unfolding choose fill fill_acc ◌+u◌
  choose_given none best_case total misses x y h g l t = ground arith
  choose_given none worst_case total misses x y h g l t = ground arith
  choose_given (some acc) best_case total misses x y h g l t = ground arith
  choose_given (some acc) worst_case total misses x y h g l t = ground arith

  module _ {Map Mods R : Type 0} (p : TaikoPerformance Map Mods A R) (max_combo : ℕ) where
    -- No count of a completed score exceeds what its misses leave of the results, none of the results is
    -- left out, and its combo is one that its misses allow. A given accuracy lies between 0 and 1, and
    -- the map has fewer than 2 ^ 30 results.
    pub complete-IsComplete :
        AccOk p.acc → max_combo < 2 ^ 30 → IsComplete p max_combo (complete p max_combo)
    unfolding complete total_result_count ◌-u◌
    complete-IsComplete u b =
        let total : ℕ = total_result_count p max_combo in
        let misses : ℕ = given p.misses total in
        let h : Hits = record {
          n300 = given p.n300 (total -u misses);
          n100 = given p.n100 (total -u misses);
        } in
        ground (
          arith,
          choose-sum ieee p.acc p.hitresult_priority total misses p.n300 p.n100 h u,
          choose-Fits p.acc p.hitresult_priority total misses p.n300 p.n100 h u,
        )

    complete-state :
        (s : TaikoScoreState)
        → max_combo < 2 ^ 30
        → IsComplete p max_combo s
        → complete (state p s) max_combo ≡ s
    unfolding complete state total_result_count ◌-u◌
    complete-state s b c =
        let total : ℕ = total_result_count p max_combo in
        let room : ℕ = total -u min s.misses total in
        let h : Hits = record { n300 = min s.n300 room; n100 = min s.n100 room } in
        ground (
          arith,
          choose_given p.acc p.hitresult_priority total (min s.misses total) s.n300 s.n100 h,
        )

  module _ {Map Mods R : Type 0}
      (calculate : Map → Result (TaikoDifficultyAttributes A) ConvertError) where
    pub generate_state-loaded :
        (p : TaikoPerformance Map Mods A R) (attrs : TaikoDifficultyAttributes A)
        → load_attrs calculate p.map_or_attrs ≡ ok attrs
        → generate_state calculate p ≡ (
          state (record p { map_or_attrs = of_attrs attrs }) (complete p attrs.max_combo),
          ok (complete p attrs.max_combo),
        )
    unfolding generate_state
    generate_state-loaded p attrs e = rw (e, generate_state)

    -- Where `generate_state` has its attributes, calling it again returns the same state and
    -- changes nothing, if the map has fewer than 2 ^ 30 results and a given accuracy lies between 0 and 1.
    pub generate_state_twice :
        (p : TaikoPerformance Map Mods A R) (attrs : TaikoDifficultyAttributes A)
        → AccOk p.acc
        → attrs.max_combo < 2 ^ 30
        → load_attrs calculate p.map_or_attrs ≡ ok attrs
        → let (p', result) = generate_state calculate p in
          generate_state calculate p' ≡ (p', result)
    unfolding state complete load_attrs
    generate_state_twice p attrs u b e =
        let loaded : TaikoPerformance Map Mods A R = record p { map_or_attrs = of_attrs attrs } in
        let s : TaikoScoreState = complete loaded attrs.max_combo in
        let again : complete (state loaded s) attrs.max_combo ≡ s =
          complete-state loaded attrs.max_combo s b
            (complete-IsComplete loaded attrs.max_combo u b) in
        rw (generate_state-loaded p attrs e) (
          generate_state-loaded (state loaded s) attrs refl
          ∙ ap (λ t. (state loaded t, ok t)) again)
