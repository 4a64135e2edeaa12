-- ===== src/Mania/Performance/Repeat.antt =====
-- `ManiaPerformance::generate_state`: what every completed score satisfies, and that completing it again
-- changes nothing.
use mamestagram_pp_rs.Prelude.{
  ℕ, ◌+◌, ◌-◌, ◌^◌, ◌≤◌, ◌<◌, ◌≡◌, refl, ap, ◌∙◌, max, min, Result, ok, arith, ◌+u◌, ◌-u◌,
}
use mamestagram_pp_rs.F64.{F64, IsIeee, AccOk}
use mamestagram_pp_rs.Any.Settings.{ConvertError, load_attrs, of_attrs}
use mamestagram_pp_rs.Mania.ScoreState.{ManiaScoreState}
use mamestagram_pp_rs.Mania.Performance.{ManiaDifficultyAttributes, ManiaPerformance, state}
use mamestagram_pp_rs.Mania.Performance.Search.{Hits}
use mamestagram_pp_rs.Mania.Performance.Complete.{n_notes, n_objects, complete, generate_state}
use mamestagram_pp_rs.Mania.Performance.Range.{given, given-le}
use mamestagram_pp_rs.Mania.Performance.Filled.{ChooseFinds, choose-IsFilled, choose_given}

-- A map with fewer than 2 ^ 26 objects, a hold note counted twice.
abbrev pub IsSane : {A : Type 0} → ManiaDifficultyAttributes A → Type 0
IsSane a = a.n_objects + a.n_hold_notes < 2 ^ 26

module _ {Map Mods A R : Type 0} (p : ManiaPerformance Map Mods A R)
    (attrs : ManiaDifficultyAttributes A) where
  -- The misses are notes of the map, hit results and misses leave none of its results out, and no
  -- count alone is more than what the misses leave.
  pub record IsComplete (s : ManiaScoreState) : Type 0 where
    pub misses_le : s.misses ≤ n_notes p attrs
    pub n320_le : s.n320 + s.misses ≤ n_objects p attrs
    pub n300_le : s.n300 + s.misses ≤ n_objects p attrs
    pub n200_le : s.n200 + s.misses ≤ n_objects p attrs
    pub n100_le : s.n100 + s.misses ≤ n_objects p attrs
    pub n50_le : s.n50 + s.misses ≤ n_objects p attrs
    pub filled : n_objects p attrs ≤ s.n320 + s.n300 + s.n200 + s.n100 + s.n50 + s.misses

  -- The counts given by the caller, each cut to what the misses leave.
  abbrev pub given_hits : ℕ → Hits
  given_hits n_remaining = record {
    n320 = given p.n320 n_remaining;
    n300 = given p.n300 n_remaining;
    n200 = given p.n200 n_remaining;
    n100 = given p.n100 n_remaining;
    n50 = given p.n50 n_remaining;
  }

  -- With an accuracy, n320 or n300, and at most one of n200, n100 and n50 given, the search has found
  -- something.
  abbrev pub AccFinds : ⦃f : F64 A⦄ → Type 0
  AccFinds =
      let total : ℕ = n_objects p attrs in
      let misses : ℕ = given p.misses (n_notes p attrs) in
      ChooseFinds total misses p.acc p.n320 p.n300 p.n200 p.n100 p.n50
        (given_hits (total -u misses))

  n_notes-bound :
      IsSane attrs → (n_notes p attrs ≤ n_objects p attrs) × (n_objects p attrs < 2 ^ 26)
  unfolding n_objects n_notes ◌+u◌
  n_notes-bound h = ground arith

  n_objects-state :
      (s : ManiaScoreState)
      → (n_notes (state p s) attrs ≡ n_notes p attrs)
        × (n_objects (state p s) attrs ≡ n_objects p attrs)
  unfolding n_objects n_notes state
  n_objects-state s = (refl, refl)

module _ {A : Type 0} ⦃f : F64 A⦄ (ieee : IsIeee A) where
  module _ {Map Mods R : Type 0} (p : ManiaPerformance Map Mods A R)
      (attrs : ManiaDifficultyAttributes A) (sane : IsSane attrs) (u : AccOk p.acc)
      (finds : AccFinds p attrs) where
    -- Hit results and misses of a completed score add up to the number of results, or to the counts
    -- given, each cut to what the misses leave, if these are more; no count alone is more than what
    -- the misses leave. A given accuracy lies between 0 and 1, the map has fewer than 2 ^ 26 objects
    -- with hold notes counted twice, and a search for an accuracy with n320 or n300 and at most one of
    -- the lower counts given has found a candidate.
    pub complete-sum_mania :
        let s = complete p attrs in
        let left = n_objects p attrs - s.misses in
        (s.n320 + s.n300 + s.n200 + s.n100 + s.n50 + s.misses
          ≡ max (n_objects p attrs) (
              given p.n320 left
              + given p.n300 left
              + given p.n200 left
              + given p.n100 left
              + given p.n50 left
              + s.misses))
        × IsComplete p attrs s
    unfolding complete ◌-u◌
    complete-sum_mania =
        let total : ℕ = n_objects p attrs in
        let misses : ℕ = given p.misses (n_notes p attrs) in
        let h : Hits = given_hits p attrs (total -u misses) in
        let b = n_notes-bound p attrs sane in
        let k = given-le p.misses (n_notes p attrs) in
        let m : misses ≤ total = omega arith in
        ground (
          arith,
          b,
          choose-IsFilled total misses b.1 m ieee p.acc p.hitresult_priority p.n320 p.n300 p.n200
              p.n100 p.n50 h u (refl, refl, refl, refl, refl) finds,
        )

    complete-state : complete (state p (complete p attrs)) attrs ≡ complete p attrs
    unfolding complete state ◌-u◌
    complete-state =
        let s : ManiaScoreState = complete p attrs in
        let total : ℕ = n_objects p attrs in
        let room : ℕ = total -u min s.misses (n_notes p attrs) in
        let h : Hits = record {
          n320 = min s.n320 room;
          n300 = min s.n300 room;
          n200 = min s.n200 room;
          n100 = min s.n100 room;
          n50 = min s.n50 room;
        } in
        let b = n_notes-bound p attrs sane in
        let done = complete-sum_mania in
        ground (
          arith,
          b,
          done,
          n_objects-state p attrs s,
          choose_given total (min s.misses (n_notes p attrs)) b.1 (omega (arith, b)) p.acc
              p.hitresult_priority s.n320 s.n300 s.n200 s.n100 s.n50 h,
        )

  module _ {Map Mods R : Type 0}
      (calculate : Map → Result (ManiaDifficultyAttributes A) ConvertError) where
    pub generate_state-loaded :
        (p : ManiaPerformance Map Mods A R) (attrs : ManiaDifficultyAttributes A)
        → load_attrs calculate p.map_or_attrs ≡ ok attrs
        → let s = complete p attrs in
          generate_state calculate p ≡ (state (record p { map_or_attrs = of_attrs attrs }) s, ok s)
    unfolding generate_state
    generate_state-loaded p attrs e = rw (e, generate_state)

    -- Where `generate_state` has its attributes, calling it again returns the same state and
    -- changes nothing, if the map has fewer than 2 ^ 26 objects with hold notes counted twice, a given
    -- accuracy lies between 0 and 1, and a search for it with n320 or n300 and at most one of the
    -- lower counts given has found a candidate.
    pub generate_state_twice_mania :
        (p : ManiaPerformance Map Mods A R) (attrs : ManiaDifficultyAttributes A)
        → AccOk p.acc
        → IsSane attrs
        → AccFinds p attrs
        → load_attrs calculate p.map_or_attrs ≡ ok attrs
        → let (p', result) = generate_state calculate p in
          generate_state calculate p' ≡ (p', result)
    unfolding state complete load_attrs n_objects n_notes
    generate_state_twice_mania p attrs u sane finds e =
        let loaded : ManiaPerformance Map Mods A R = record p { map_or_attrs = of_attrs attrs } in
        let s : ManiaScoreState = complete loaded attrs in
        let again : complete (state loaded s) attrs ≡ s =
          complete-state loaded attrs sane u finds in
        rw (generate_state-loaded p attrs e) (
          generate_state-loaded (state loaded s) attrs refl
          ∙ ap (λ t. (state loaded t, ok t)) again)
