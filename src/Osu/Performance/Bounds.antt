-- ===== src/Osu/Performance/Bounds.antt =====
-- What the searches of osu!standard find fills what the misses leave; the shift between hit results
-- keeps their number and their worth.
use mamestagram_pp_rs.Prelude.{
  ℕ, ◌+◌, ◌*◌, ◌^◌, ◌≤◌, ◌<◌, ◌≡◌, min, true, arith, ◌+u◌, ◌-u◌, ◌*u◌, for_incl_first, for_incl_inv,
  for_incl,
}
use mamestagram_pp_rs.F64.{F64, InUnit, IsIeee}
use mamestagram_pp_rs.F64.Nearest.{consider-keep, consider-first, nearest_in-all, nearest_in}
use mamestagram_pp_rs.Any.Settings.{HitResultPriority, best_case, worst_case}
use mamestagram_pp_rs.Osu.ScoreState.{
  OsuScoreOrigin, stable, with_slider_acc, without_slider_acc, slider_part,
}
use mamestagram_pp_rs.Osu.Performance.Defs.{Hits, Ticks, shift}
use mamestagram_pp_rs.Osu.Performance.Search.{
  no_combo_accuracy, distance, given_n300, given_n100, given_n50, given_none, try_n300, all_of,
  raw_n100, raw_n300,
}

abbrev pub sum_of : Hits → ℕ
sum_of h = h.n300 + h.n100 + h.n50

-- What the hit results count towards the accuracy.
abbrev pub worth : Hits → ℕ
worth h = 300 * h.n300 + 100 * h.n100 + 50 * h.n50

-- Shifting hit results keeps how many there are and what they are worth, if there are fewer than
-- 2 ^ 28.
pub shift_keeps :
    (p : HitResultPriority) (h : Hits)
    → sum_of h < 2 ^ 28
    → (sum_of (shift p h) ≡ sum_of h) × (worth (shift p h) ≡ worth h)
unfolding shift ◌+u◌ ◌-u◌ ◌*u◌
shift_keeps best_case h b = ground arith
shift_keeps worst_case h b = ground arith

-- The ticks of an origin are few enough that no numerator wraps.
abbrev pub IsSmall : OsuScoreOrigin → Type 0
IsSmall stable = Unit {0}
IsSmall (with_slider_acc large ends) = large + ends < 2 ^ 22
IsSmall (without_slider_acc large small) = large + small < 2 ^ 22

slider_part-bound :
    (origin : OsuScoreOrigin) (large small ends : ℕ)
    → IsSmall origin
    → let (n, d) = slider_part origin large small ends in (n ≤ d) × (d < 2 ^ 30)
unfolding slider_part ◌+u◌ ◌*u◌
slider_part-bound stable large small ends h = omega arith
slider_part-bound (with_slider_acc a b) large small ends h = omega arith
slider_part-bound (without_slider_acc a b) large small ends h = omega arith

module _ {A : Type 0} ⦃f : F64 A⦄ (ieee : IsIeee A) where
  open ieee use {ratio_unit, zero_unit, dist_finite, floor-le-ceil}

  -- The accuracy lies between 0 and 1, where results and ticks are fewer than 2 ^ 22 each.
  pub no_combo_accuracy-unit :
      (origin : OsuScoreOrigin) (ticks : Ticks) (h : Hits) (misses : ℕ)
      → IsSmall origin
      → sum_of h + misses < 2 ^ 22
      → InUnit (no_combo_accuracy {A = A} origin ticks h misses)
  unfolding no_combo_accuracy ◌+u◌ ◌*u◌
  no_combo_accuracy-unit origin ticks h misses small b =
      let part =
        slider_part origin ticks.large_tick_hits ticks.small_tick_hits ticks.slider_end_hits in
      ground (
        arith,
        zero_unit,
        slider_part-bound origin ticks.large_tick_hits ticks.small_tick_hits ticks.slider_end_hits
            small,
        ratio_unit (300 *u h.n300 +u 100 *u h.n100 +u 50 *u h.n50 +u part.0)
            (300 *u (h.n300 +u h.n100 +u h.n50 +u misses) +u part.1),
      )

  module _ (acc : A) (origin : OsuScoreOrigin) (ticks : Ticks) (n_objects misses n_remaining : ℕ)
      (u : InUnit acc) (small : IsSmall origin) (b : n_remaining + misses < 2 ^ 22) where
    pub distance-finite :
        (h : Hits)
        → sum_of h ≡ n_remaining
        → f.lt (distance acc origin ticks n_objects misses n_remaining h) f.f64_max ≡ true
    unfolding distance
    distance-finite h e =
        dist_finite acc _ u (no_combo_accuracy-unit origin ticks h misses small (omega arith))

    abbrev Fills : Hits → Type 0
    Fills h = sum_of h ≡ n_remaining

    -- One of the single loops: its picks fill what is left, so its result does.
    around-Fills :
        (raw : A) (bound : ℕ) (pick : ℕ → Hits) (h : Hits)
        → ((i : ℕ) → i ≤ bound → Fills (pick i))
        → Fills (
            nearest_in f.f64_max
              (min bound (f.as_u32 (f.floor raw)))
              (min bound (f.as_u32 (f.ceil raw)))
              (λ i. distance acc origin ticks n_objects misses n_remaining (pick i))
              pick
              h)
    around-Fills raw bound pick h all =
        nearest_in-all Fills f.f64_max _ _ _ pick h (omega (arith, floor-le-ceil raw))
          (distance-finite (pick (min bound (f.as_u32 (f.floor raw)))) (all _ (omega arith)))
          (λ i p q. all i (omega arith))

    pub given_n300-sum :
        (h : Hits)
        → sum_of (given_n300 acc origin ticks n_objects misses n_remaining h) ≡ n_remaining
    unfolding given_n300 ◌-u◌
    given_n300-sum h = around-Fills _ _ _ _ (λ i p. omega arith)

    pub given_n100-sum :
        (h : Hits)
        → sum_of (given_n100 acc origin ticks n_objects misses n_remaining h) ≡ n_remaining
    unfolding given_n100 ◌-u◌
    given_n100-sum h = around-Fills _ _ _ _ (λ i p. omega arith)

    pub given_n50-sum :
        (h : Hits)
        → sum_of (given_n50 acc origin ticks n_objects misses n_remaining h) ≡ n_remaining
    unfolding given_n50 ◌-u◌
    given_n50-sum h = around-Fills _ _ _ _ (λ i p. omega arith)

    all_of-Fills :
        (a c : ℕ)
        → a ≤ n_remaining
        → c ≤ n_remaining -u a
        → Fills (all_of acc origin ticks n_objects misses n_remaining a c)
    unfolding ◌-u◌
    all_of-Fills a c h k = omega arith

    inner-first :
        (a : ℕ) (h : Hits)
        → a ≤ n_remaining
        → Fills (try_n300 acc origin ticks n_objects misses n_remaining a (f.f64_max, h)).1
    unfolding try_n300
    inner-first a h k =
        let raw : A = raw_n100 acc origin ticks n_objects misses n_remaining a in
        let lo : ℕ = min (n_remaining -u a) (f.as_u32 (f.floor raw)) in
        let first : Hits = all_of acc origin ticks n_objects misses n_remaining a lo in
        for_incl_first (λ t. Fills t.1) _ lo (min (n_remaining -u a) (f.as_u32 (f.ceil raw)))
          (f.f64_max, h) (omega (arith, floor-le-ceil raw))
          (consider-first {A = A} Fills _ f.f64_max first h
            (distance-finite first (all_of-Fills a lo k (omega arith)))
            (all_of-Fills a lo k (omega arith)))
          (λ c t p q. consider-keep {A = A} Fills _ _ t (all_of-Fills a c k (omega arith)))

    inner-keep :
        (a : ℕ) (t : A × Hits)
        → a ≤ n_remaining
        → Fills t.1
        → Fills (try_n300 acc origin ticks n_objects misses n_remaining a t).1
    unfolding try_n300
    inner-keep a t k h =
        for_incl_inv (λ s. Fills s.1) _ _ _ t
          (λ c s p q. consider-keep Fills _ _ s (all_of-Fills a c k (omega arith))) h

    pub given_none-sum :
        (p : HitResultPriority) (h : Hits)
        → sum_of (given_none acc origin ticks n_objects misses n_remaining p h) ≡ n_remaining
    unfolding given_none
    given_none-sum p h =
        let raw : A = raw_n300 acc origin ticks n_objects misses n_remaining in
        let lo : ℕ = min n_remaining (f.as_u32 (f.floor raw)) in
        let hi : ℕ = min n_remaining (f.as_u32 (f.ceil raw)) in
        let body = try_n300 acc origin ticks n_objects misses n_remaining in
        let hits : Hits = (for_incl lo hi body (f.f64_max, h)).1 in
        let found : Fills hits =
          for_incl_first (λ t. Fills t.1) body lo hi (f.f64_max, h)
            (omega (arith, floor-le-ceil raw)) (inner-first lo h (omega arith))
            (λ a t q r. inner-keep a t (omega arith)) in
        omega (arith, found, (shift_keeps p hits (omega (arith, found))).0)
