-- ===== src/Catch/Performance/Tiny.antt =====
-- The tiny droplets of a completed osu!catch score, and the search for the nearest accuracy.
use mamestagram_pp_rs.Prelude.{
  ℕ, ◌+◌, ◌^◌, ◌≤◌, ◌<◌, ◌≡◌, refl, Option, none, some, arith, true, false, ◌+u◌, ◌-u◌, for_incl,
  inl, inr, for_incl_first, ◌⊎◌,
}
use native.Mathlib.Decide.{dec_lt}
use mamestagram_pp_rs.F64.{F64, InUnit, IsIeee, AccOk}
use mamestagram_pp_rs.F64.Nearest.{IsNearest, for_incl-IsNearest}
use mamestagram_pp_rs.Catch.Performance.{
  CatchDifficultyAttributes, Caught, Tinies, accuracy, find_best, try_tiny, min_tiny_droplets,
  max_tiny_droplets, choose_tiny,
}
use mamestagram_pp_rs.Catch.Performance.Fruits.{Small}

module _ {A : Type 0} ⦃f : F64 A⦄ (attrs : CatchDifficultyAttributes A) where
  abbrev pub candidate : ℕ → Tinies
  candidate i = record { droplets = i; misses = attrs.n_tiny_droplets -u i }

  abbrev pub distance : Caught → ℕ → A → Tinies → A
  distance caught misses acc t =
      f.abs (f.sub acc (accuracy caught.fruits caught.droplets t.droplets t.misses misses))

  abbrev pub Filled : Tinies → Type 0
  Filled t = t.droplets + t.misses ≡ attrs.n_tiny_droplets

module _ {A : Type 0} (attrs : CatchDifficultyAttributes A) where
  -- The droplets and misses make up the map's, or exceed it because both were given so, with no
  -- accuracy.
  abbrev pub FilledOrOver : Option A → Option ℕ → Option ℕ → Tinies → Type 0
  FilledOrOver acc a b t =
      (t.droplets + t.misses ≡ attrs.n_tiny_droplets)
      ⊎ ((acc ≡ none)
          × (a ≡ some t.droplets)
          × (b ≡ some t.misses)
          × (attrs.n_tiny_droplets < t.droplets + t.misses))

module _ {A : Type 0} ⦃f : F64 A⦄ (ieee : IsIeee A) where
  open ieee use {ratio_unit, dist_finite, floor-le-ceil, lt_trans, max-lt-infinity}

  -- An accuracy of at least one result lies between 0 and 1.
  pub accuracy-unit_catch :
      (a b c d e : ℕ)
      → 0 < a + b + c + d + e
      → a + b + c + d + e < 2 ^ 32
      → InUnit (accuracy {A = A} a b c d e)
  unfolding accuracy ◌+u◌
  accuracy-unit_catch a b c d e p h =
      ratio_unit (a +u b +u c) (a +u b +u c +u d +u e) (omega arith) (omega arith) (omega arith)

  module _ (attrs : CatchDifficultyAttributes A) (caught : Caught) (misses : ℕ) (acc : A)
      (u : InUnit acc)
      (bound : caught.fruits + caught.droplets + attrs.n_tiny_droplets + misses < 2 ^ 32)
      (some_result : 0 < caught.fruits + caught.droplets + attrs.n_tiny_droplets + misses) where
    distance-finite :
        (i : ℕ)
        → i ≤ attrs.n_tiny_droplets
        → f.lt (distance attrs caught misses acc (candidate attrs i)) f.infinity ≡ true
    unfolding ◌-u◌
    distance-finite i h =
        let m : ℕ = attrs.n_tiny_droplets -u i in
        lt_trans _ f.f64_max _
          (dist_finite acc _ u (
            accuracy-unit_catch caught.fruits caught.droplets i m misses (omega arith)
              (omega arith)))
          max-lt-infinity

    loop-IsNearest :
        IsNearest ieee
          (λ i. distance attrs caught misses acc (candidate attrs i))
          (candidate attrs)
          (min_tiny_droplets attrs caught misses acc)
          (max_tiny_droplets attrs caught misses acc + 1)
          (for_incl
            (min_tiny_droplets attrs caught misses acc)
            (max_tiny_droplets attrs caught misses acc)
            (try_tiny attrs caught misses acc)
            (f.infinity, record { droplets = 0; misses = 0 }))
    unfolding try_tiny
    loop-IsNearest =
        for_incl-IsNearest ieee _ _ _ _ f.infinity _ (omega (arith, floor-le-ceil _))
          (distance-finite (min_tiny_droplets attrs caught misses acc) (omega arith))

    -- No number of tiny droplets in the searched range gives an accuracy nearer to the one asked for,
    -- which lies between 0 and 1, where there are between 1 and 2 ^ 32 - 1 results.
    pub find_best-nearest :
        (j : ℕ)
        → min_tiny_droplets attrs caught misses acc ≤ j
        → j ≤ max_tiny_droplets attrs caught misses acc
        → f.lt
            (distance attrs caught misses acc (candidate attrs j))
            (distance attrs caught misses acc (find_best attrs caught misses acc))
          ≡ false
    unfolding find_best
    find_best-nearest j p q =
        let n = loop-IsNearest in rw (n.is_pick, ← n.is_dist) (n.nearest j p (omega arith))

    find_best-Filled : Filled attrs (find_best attrs caught misses acc)
    unfolding find_best ◌-u◌
    find_best-Filled = ground (arith, loop-IsNearest.is_pick, loop-IsNearest.below)

  module _ (attrs : CatchDifficultyAttributes A) (caught : Caught) (misses : ℕ) where
    -- A map with no result at all has no tiny droplets to search for.
    find_best-none :
        (acc : A) → attrs.n_tiny_droplets ≡ 0 → Filled attrs (find_best attrs caught misses acc)
    unfolding find_best try_tiny ◌-u◌
    find_best-none acc e =
        for_incl_first (λ t. Filled attrs t.1) (try_tiny attrs caught misses acc) _ _ _
          (omega (arith, floor-le-ceil _)) (ground arith) (λ j t p q h. ground arith)

    best-Filled :
        (acc : A)
        → InUnit acc
        → caught.fruits + caught.droplets + attrs.n_tiny_droplets + misses < 2 ^ 32
        → Filled attrs (find_best attrs caught misses acc)
    best-Filled acc u b =
        elim (dec_lt 0 (caught.fruits + caught.droplets + attrs.n_tiny_droplets + misses)) [
          | yes p ↦ find_best-Filled attrs caught misses acc u b p
          | no p ↦ find_best-none acc (omega arith)
        ]

    -- Tiny droplets and their misses make up the map's, unless both were given, with no accuracy,
    -- and exceed it; then they stay as given.
    pub choose_tiny-sum :
        (acc : Option A) (a b : Option ℕ)
        → AccOk acc
        → Small a
        → Small b
        → caught.fruits + caught.droplets + attrs.n_tiny_droplets + misses < 2 ^ 30
        → let t = choose_tiny attrs caught misses acc a b in FilledOrOver attrs acc a b t
    unfolding choose_tiny ◌+u◌
    choose_tiny-sum (some acc) (some a) (some b) u p q h = ground (arith, best-Filled acc u)
    choose_tiny-sum none (some a) (some b) u p q h = elim (dec_lt attrs.n_tiny_droplets (a + b)) [
      | yes e ↦ inr (refl, ground arith, refl, ground arith)
      | no e ↦ inl (ground arith)
    ]
    choose_tiny-sum (some acc) (some a) none u p q h = inl (omega arith)
    choose_tiny-sum none (some a) none u p q h = inl (omega arith)
    choose_tiny-sum (some acc) none (some b) u p q h = inl (omega arith)
    choose_tiny-sum none none (some b) u p q h = inl (omega arith)
    choose_tiny-sum (some acc) none none u p q h = inl (best-Filled acc u (omega arith))
    choose_tiny-sum none none none u p q h = inl (omega arith)

    -- Tiny droplets that make up the map's are kept.
    pub choose_tiny-full :
        (acc : Option A) (x y : ℕ)
        → x + y ≡ attrs.n_tiny_droplets
        → attrs.n_tiny_droplets < 2 ^ 30
        → choose_tiny attrs caught misses acc (some x) (some y)
          ≡ record { droplets = x; misses = y }
    unfolding choose_tiny ◌+u◌
    choose_tiny-full none x y e h = ground arith
    choose_tiny-full (some acc) x y e h = ground arith

    -- So are those that exceed it, where no accuracy is given.
    pub choose_tiny-over :
        (x y : ℕ)
        → attrs.n_tiny_droplets < x + y
        → x < 2 ^ 30
        → y < 2 ^ 30
        → choose_tiny attrs caught misses none (some x) (some y)
          ≡ record { droplets = x; misses = y }
    unfolding choose_tiny ◌+u◌
    choose_tiny-over x y e h k = ground arith
