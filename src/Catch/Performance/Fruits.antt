-- ===== src/Catch/Performance/Fruits.antt =====
-- The fruits and droplets of a completed osu!catch score.
use mamestagram_pp_rs.Prelude.{ℕ, ◌+◌, ◌^◌, ◌≤◌, ◌<◌, ◌≡◌, Option, none, some, arith, ◌+u◌, ◌-u◌}
use mamestagram_pp_rs.Catch.Performance.{fit_both, fit}

-- What is given of a count that exists is at most 2 ^ 30.
abbrev pub Small : Option ℕ → Type 0
Small none = Unit {0}
Small (some n) = n < 2 ^ 30

module _ (all_fruits all_droplets misses : ℕ) (bound : all_fruits + all_droplets < 2 ^ 30)
    (m : misses ≤ all_fruits + all_droplets) where
  fit_both-sum :
      (a b : ℕ)
      → a < 2 ^ 30
      → b < 2 ^ 30
      → let c = fit_both all_fruits all_droplets misses a b in
        c.fruits + c.droplets + misses ≡ all_fruits + all_droplets
  unfolding fit_both ◌+u◌ ◌-u◌
  fit_both-sum a b ha hb = ground arith

  -- Fruits, droplets and misses make up the map's, whatever was given.
  pub fit-sum :
      (a b : Option ℕ)
      → Small a
      → Small b
      → let c = fit all_fruits all_droplets misses a b in
        c.fruits + c.droplets + misses ≡ all_fruits + all_droplets
  unfolding fit ◌+u◌ ◌-u◌
  fit-sum (some a) (some b) ha hb = fit_both-sum a b ha hb
  fit-sum (some a) none ha hb = ground arith
  fit-sum none (some b) ha hb = ground arith
  fit-sum none none ha hb = ground arith

  -- Counts that make up the map's are kept.
  pub fit-full :
      (a b : ℕ)
      → a + b + misses ≡ all_fruits + all_droplets
      → fit all_fruits all_droplets misses (some a) (some b) ≡ record { fruits = a; droplets = b }
  unfolding fit fit_both ◌+u◌ ◌-u◌
  fit-full a b e = ground arith
