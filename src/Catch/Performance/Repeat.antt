-- ===== src/Catch/Performance/Repeat.antt =====
-- What a completed osu!catch score adds up to, and that completing it again changes nothing.
use mamestagram_pp_rs.Prelude.{ℕ, ◌+◌, ◌^◌, ◌≤◌, ◌<◌, ◌≡◌, refl, ap, ◌∙◌, Result, ok, arith, ◌+u◌}
use mamestagram_pp_rs.F64.{F64, IsIeee, AccOk}
use mamestagram_pp_rs.Any.Settings.{ConvertError, load_attrs, of_attrs}
use mamestagram_pp_rs.Catch.Performance.{
  CatchDifficultyAttributes, CatchPerformance, CatchScoreState, Caught, fit, misses_of, complete,
  state, generate_state,
}
use mamestagram_pp_rs.Catch.Performance.Fruits.{Small, fit-sum, fit-full}
use mamestagram_pp_rs.Catch.Performance.Tiny.{FilledOrOver, choose_tiny-sum, choose_tiny-full}

module _ {A : Type 0} (attrs : CatchDifficultyAttributes A) where
  abbrev pub IsSmall : Type 0
  IsSmall = attrs.n_fruits + attrs.n_droplets + attrs.n_tiny_droplets < 2 ^ 30

module _ {Map Mods A R : Type 0} ⦃f : F64 A⦄ (p : CatchPerformance Map Mods A R) where
  -- An accuracy between 0 and 1, and counts below 2 ^ 30, where any are given.
  pub record IsSane : Type 0 where
    pub acc : AccOk p.acc
    pub fruits : Small p.fruits
    pub droplets : Small p.droplets
    pub tiny_droplets : Small p.tiny_droplets
    pub tiny_droplet_misses : Small p.tiny_droplet_misses

module _ {A : Type 0} ⦃f : F64 A⦄ (ieee : IsIeee A) where
  module _ {Map Mods R : Type 0} (p : CatchPerformance Map Mods A R)
      (attrs : CatchDifficultyAttributes A) (small : IsSmall attrs) where
    misses_le : misses_of p attrs ≤ attrs.n_fruits + attrs.n_droplets
    unfolding misses_of ◌+u◌
    misses_le = ground arith

    -- Fruits, droplets and misses of a completed score make up the map's; so do tiny droplets and
    -- their misses, unless both were given, with no accuracy, and exceed it. The map's counts and those
    -- given are below 2 ^ 30, and a given accuracy lies between 0 and 1.
    pub complete-sum_catch :
        IsSane p
        → let s = complete p attrs in
          (s.fruits + s.droplets + s.misses ≡ attrs.n_fruits + attrs.n_droplets)
          × FilledOrOver attrs p.acc p.tiny_droplets p.tiny_droplet_misses
              (record { droplets = s.tiny_droplets; misses = s.tiny_droplet_misses })
    unfolding complete
    complete-sum_catch h =
        let misses : ℕ = misses_of p attrs in
        let c : Caught = fit attrs.n_fruits attrs.n_droplets misses p.fruits p.droplets in
        let sum =
          fit-sum attrs.n_fruits attrs.n_droplets misses (omega arith) misses_le p.fruits p.droplets
            h.fruits h.droplets in
        (
          sum,
          choose_tiny-sum ieee attrs c misses p.acc p.tiny_droplets p.tiny_droplet_misses h.acc
              h.tiny_droplets h.tiny_droplet_misses (omega (arith, sum)),
        )

    -- A completed score that is completed again stays as it is.
    complete-state : IsSane p → complete (state p (complete p attrs)) attrs ≡ complete p attrs
    unfolding complete state misses_of ◌+u◌
    complete-state h =
        let s : CatchScoreState = complete p attrs in
        let c : Caught = record { fruits = s.fruits; droplets = s.droplets } in
        ground (
          arith,
          complete-sum_catch h,
          fit-full attrs.n_fruits attrs.n_droplets s.misses (omega arith) misses_le s.fruits
              s.droplets,
          choose_tiny-full ieee attrs c s.misses p.acc s.tiny_droplets s.tiny_droplet_misses,
        )

  module _ {Map Mods R : Type 0}
      (calculate : Map → Result (CatchDifficultyAttributes A) ConvertError) where
    pub generate_state-loaded :
        (p : CatchPerformance Map Mods A R) (attrs : CatchDifficultyAttributes A)
        → load_attrs calculate p.map_or_attrs ≡ ok attrs
        → generate_state calculate p ≡ (
          state (record p { map_or_attrs = of_attrs attrs }) (complete p attrs),
          ok (complete p attrs),
        )
    unfolding generate_state
    generate_state-loaded p attrs e = rw (e, generate_state)

    -- Where `generate_state` has its attributes, calling it again returns the same state and
    -- changes nothing, if the map's counts and those given are below 2 ^ 30 and a given accuracy lies
    -- between 0 and 1.
    pub generate_state_twice_catch :
        (p : CatchPerformance Map Mods A R) (attrs : CatchDifficultyAttributes A)
        → IsSane p
        → IsSmall attrs
        → load_attrs calculate p.map_or_attrs ≡ ok attrs
        → let (p', result) = generate_state calculate p in
          generate_state calculate p' ≡ (p', result)
    unfolding state complete load_attrs
    generate_state_twice_catch p attrs h small e =
        let loaded : CatchPerformance Map Mods A R = record p { map_or_attrs = of_attrs attrs } in
        let s : CatchScoreState = complete loaded attrs in
        let sane : IsSane loaded = record {
          acc = h.acc;
          fruits = h.fruits;
          droplets = h.droplets;
          tiny_droplets = h.tiny_droplets;
          tiny_droplet_misses = h.tiny_droplet_misses;
        } in
        let again : complete (state loaded s) attrs ≡ s = complete-state loaded attrs small sane in
        rw (generate_state-loaded p attrs e) (
          generate_state-loaded (state loaded s) attrs refl
          ∙ ap (λ t. (state loaded t, ok t)) again)
