-- ===== src/Osu/Performance/Repeat.antt =====
-- `OsuPerformance::generate_state`: what every completed score satisfies, and that completing it again
-- changes nothing.
use mamestagram_pp_rs.Prelude.{
  ℕ, ◌+◌, ◌-◌, ◌^◌, ◌≤◌, ◌<◌, ◌≡◌, refl, ap, ◌∙◌, max, min, Result, ok, arith, ◌+u◌, ◌-u◌, Bool,
  true, false,
}
use mamestagram_pp_rs.F64.{F64, IsIeee, AccOk}
use mamestagram_pp_rs.Any.Settings.{ConvertError, load_attrs, of_attrs, get_lazer}
use mamestagram_pp_rs.Osu.ScoreState.{OsuScoreState}
use mamestagram_pp_rs.Osu.Performance.Defs.{Hits, OsuDifficultyAttributes, OsuPerformance}
use mamestagram_pp_rs.Osu.Performance.Complete.{
  complete, state, generate_state, n_objects, origin_of, ticks_of,
}
use mamestagram_pp_rs.Osu.Performance.Bounds.{IsSmall}
use mamestagram_pp_rs.Osu.Performance.Totals.{given, given-le, choose-IsFilled, choose_given}

-- A map with fewer than 2 ^ 20 objects of each kind, and as few large ticks.
abbrev pub IsSane : {A : Type 0} → OsuDifficultyAttributes A → Type 0
IsSane a = a.n_circles + a.n_sliders + a.n_spinners + a.n_large_ticks < 2 ^ 20

origin_of-IsSmall :
    {A : Type 0} (attrs : OsuDifficultyAttributes A) (lazer classic : Bool)
    → IsSane attrs
    → IsSmall (origin_of attrs lazer classic)
unfolding origin_of ◌+u◌
origin_of-IsSmall attrs false classic h = tt
origin_of-IsSmall attrs true false h = omega arith
origin_of-IsSmall attrs true true h = omega arith

module _ {Map Mods A R : Type 0} (p : OsuPerformance Map Mods A R)
    (attrs : OsuDifficultyAttributes A) where
  -- The misses are results of the map, hit results and misses leave none of its results out, no
  -- count alone is more than what the misses leave, and the combo is one that they allow.
  pub record IsComplete (s : OsuScoreState) : Type 0 where
    pub misses_le : s.misses ≤ n_objects p attrs
    pub n300_le : s.n300 + s.misses ≤ n_objects p attrs
    pub n100_le : s.n100 + s.misses ≤ n_objects p attrs
    pub n50_le : s.n50 + s.misses ≤ n_objects p attrs
    pub filled : n_objects p attrs ≤ s.n300 + s.n100 + s.n50 + s.misses
    pub combo_le : s.max_combo ≤ attrs.max_combo - s.misses

  n_objects-bound : IsSane attrs → n_objects p attrs < 2 ^ 20
  unfolding n_objects ◌+u◌
  n_objects-bound h = omega arith

  n_objects-state : (s : OsuScoreState) → n_objects (state p s) attrs ≡ n_objects p attrs
  unfolding n_objects state
  n_objects-state s = refl

  -- The ticks that were written back are taken as they are.
  ticks_of-state :
      (s : OsuScoreState) (lazer classic : Bool)
      → (let t = ticks_of p attrs lazer classic in
          (s.slider_end_hits ≡ t.slider_end_hits)
          × (s.large_tick_hits ≡ t.large_tick_hits)
          × (s.small_tick_hits ≡ t.small_tick_hits))
      → ticks_of (state p s) attrs lazer classic ≡ ticks_of p attrs lazer classic
  unfolding ticks_of state
  ticks_of-state s false classic e = refl
  ticks_of-state s true false e = ground arith
  ticks_of-state s true true e = ground arith

module _ {A : Type 0} ⦃f : F64 A⦄ (ieee : IsIeee A) where
  module _ {Map Mods R : Type 0} (no_slider_head_acc : Mods → Bool → Bool)
      (p : OsuPerformance Map Mods A R) (attrs : OsuDifficultyAttributes A) (sane : IsSane attrs)
      (u : AccOk p.acc) where
    -- Hit results and misses of a completed score add up to the number of results, or to the counts
    -- given, each cut to what the misses leave, if these are more; no count alone is more than what the
    -- misses leave, and the combo is one that they allow. A given accuracy lies between 0 and 1, and the
    -- map has fewer than 2 ^ 20 objects and large ticks.
    pub complete-sum_osu :
        let s = complete no_slider_head_acc p attrs in
        let left = n_objects p attrs - s.misses in
        (s.n300 + s.n100 + s.n50 + s.misses
          ≡ max
              (n_objects p attrs)
              (given p.n300 left + given p.n100 left + given p.n50 left + s.misses))
        × IsComplete p attrs s
    unfolding complete ◌-u◌
    complete-sum_osu =
        let total : ℕ = n_objects p attrs in
        let misses : ℕ = given p.misses total in
        let h : Hits = record {
          n300 = given p.n300 (total -u misses);
          n100 = given p.n100 (total -u misses);
          n50 = given p.n50 (total -u misses);
        } in
        let lazer : Bool = get_lazer p.difficulty in
        let classic : Bool = no_slider_head_acc p.difficulty.mods lazer in
        let b = n_objects-bound p attrs sane in
        ground (
          arith,
          b,
          choose-IsFilled total misses (omega (arith, b)) (given-le p.misses total) ieee
              (origin_of attrs lazer classic) (ticks_of p attrs lazer classic)
              (origin_of-IsSmall attrs lazer classic sane) p.acc p.hitresult_priority p.n300 p.n100
              p.n50 h u,
        )

    complete-state :
        complete no_slider_head_acc (state p (complete no_slider_head_acc p attrs)) attrs
        ≡ complete no_slider_head_acc p attrs
    unfolding complete state ◌-u◌
    complete-state =
        let s : OsuScoreState = complete no_slider_head_acc p attrs in
        let total : ℕ = n_objects p attrs in
        let room : ℕ = total -u min s.misses total in
        let h : Hits = record {
          n300 = min s.n300 room;
          n100 = min s.n100 room;
          n50 = min s.n50 room;
        } in
        let lazer : Bool = get_lazer p.difficulty in
        let classic : Bool = no_slider_head_acc p.difficulty.mods lazer in
        let b = n_objects-bound p attrs sane in
        let done = complete-sum_osu in
        ground (
          arith,
          b,
          done,
          n_objects-state p attrs s,
          ticks_of-state p attrs s lazer classic,
          choose_given total (min s.misses total) (omega (arith, b)) (omega arith)
              (origin_of attrs lazer classic) (ticks_of (state p s) attrs lazer classic) p.acc
              p.hitresult_priority s.n300 s.n100 s.n50 h,
        )

  module _ {Map Mods R : Type 0} (no_slider_head_acc : Mods → Bool → Bool)
      (calculate : Map → Result (OsuDifficultyAttributes A) ConvertError) where
    pub generate_state-loaded :
        (p : OsuPerformance Map Mods A R) (attrs : OsuDifficultyAttributes A)
        → load_attrs calculate p.map_or_attrs ≡ ok attrs
        → let s = complete no_slider_head_acc p attrs in
          generate_state no_slider_head_acc calculate p
          ≡ (state (record p { map_or_attrs = of_attrs attrs }) s, ok s)
    unfolding generate_state
    generate_state-loaded p attrs e = rw (e, generate_state)

    -- Where `generate_state` has its attributes, calling it again returns the same state and
    -- changes nothing, if the map has fewer than 2 ^ 20 objects and large ticks and a given accuracy
    -- lies between 0 and 1.
    pub generate_state_twice_osu :
        (p : OsuPerformance Map Mods A R) (attrs : OsuDifficultyAttributes A)
        → AccOk p.acc
        → IsSane attrs
        → load_attrs calculate p.map_or_attrs ≡ ok attrs
        → let (p', result) = generate_state no_slider_head_acc calculate p in
          generate_state no_slider_head_acc calculate p' ≡ (p', result)
    unfolding state complete load_attrs n_objects ticks_of
    generate_state_twice_osu p attrs u sane e =
        let loaded : OsuPerformance Map Mods A R = record p { map_or_attrs = of_attrs attrs } in
        let s : OsuScoreState = complete no_slider_head_acc loaded attrs in
        let again : complete no_slider_head_acc (state loaded s) attrs ≡ s =
          complete-state no_slider_head_acc loaded attrs sane u in
        rw (generate_state-loaded p attrs e) (
          generate_state-loaded (state loaded s) attrs refl
          ∙ ap (λ t. (state loaded t, ok t)) again)
