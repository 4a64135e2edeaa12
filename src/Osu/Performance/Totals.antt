-- ===== src/Osu/Performance/Totals.antt =====
-- What a completed osu!standard score adds up to, and that completing it again changes nothing.
use mamestagram_pp_rs.Prelude.{
  ℕ, ◌+◌, ◌-◌, ◌^◌, ◌≤◌, ◌<◌, ◌≡◌, max, Option, none, some, map_or, min, arith, ◌+u◌, ◌-u◌,
}
use mamestagram_pp_rs.F64.{F64, InUnit, IsIeee, AccOk}
use mamestagram_pp_rs.Any.Settings.{HitResultPriority, best_case, worst_case}
use mamestagram_pp_rs.Osu.ScoreState.{OsuScoreOrigin}
use mamestagram_pp_rs.Osu.Performance.Defs.{Hits, Ticks}
use mamestagram_pp_rs.Osu.Performance.Complete.{fill, fill_acc, choose}
use mamestagram_pp_rs.Osu.Performance.Bounds.{
  sum_of, IsSmall, given_n300-sum, given_n100-sum, given_n50-sum, given_none-sum,
}

abbrev pub given : Option ℕ → ℕ → ℕ
given o bound = map_or o 0 (λ n. min n bound)

pub given-le : (o : Option ℕ) (n : ℕ) → given o n ≤ n
given-le none n = omega arith
given-le (some a) n = omega arith

-- The counts as `generate_state` takes them from the caller.
abbrev pub Given : ℕ → Option ℕ → Option ℕ → Option ℕ → Hits → Type 0
Given bound a b c h = (h.n300 ≡ given a bound) × (h.n100 ≡ given b bound) × (h.n50 ≡ given c bound)

-- The hit results fill what the misses leave, or are what was given if that is more; no count alone
-- is more than what the misses leave.
pub record IsFilled (total misses : ℕ) (h t : Hits) : Type 0 where
  pub sum : sum_of t + misses ≡ max total (sum_of h + misses)
  pub n300_le : t.n300 + misses ≤ total
  pub n100_le : t.n100 + misses ≤ total
  pub n50_le : t.n50 + misses ≤ total

module _ (total misses : ℕ) (bound : total < 2 ^ 22) (m : misses ≤ total) where
  fill-IsFilled :
      (p : HitResultPriority) (a b c : Option ℕ) (h : Hits)
      → Given (total - misses) a b c h
      → IsFilled total misses h (fill total misses p a b c h)
  unfolding fill ◌+u◌
  fill-IsFilled best_case none b c h g = ground arith
  fill-IsFilled best_case (some a) none c h g = ground arith
  fill-IsFilled best_case (some a) (some b) none h g = ground arith
  fill-IsFilled best_case (some a) (some b) (some c) h g = ground arith
  fill-IsFilled worst_case a b none h g = ground arith
  fill-IsFilled worst_case a none (some c) h g = ground arith
  fill-IsFilled worst_case none (some b) (some c) h g = ground arith
  fill-IsFilled worst_case (some a) (some b) (some c) h g = ground arith

  module _ {A : Type 0} ⦃f : F64 A⦄ (ieee : IsIeee A) (origin : OsuScoreOrigin) (ticks : Ticks)
      (small : IsSmall origin) where
    fill_acc-IsFilled :
        (acc : A) (p : HitResultPriority) (a b c : Option ℕ) (h : Hits)
        → InUnit acc
        → Given (total - misses) a b c h
        → IsFilled total misses h (fill_acc total misses origin ticks acc p a b c h)
    unfolding fill_acc ◌+u◌ ◌-u◌
    fill_acc-IsFilled acc best_case (some a) (some b) (some c) h u g = ground arith
    fill_acc-IsFilled acc worst_case (some a) (some b) (some c) h u g = ground arith
    fill_acc-IsFilled acc best_case (some a) (some b) none h u g = ground arith
    fill_acc-IsFilled acc worst_case (some a) (some b) none h u g = ground arith
    fill_acc-IsFilled acc best_case (some a) none (some c) h u g = ground arith
    fill_acc-IsFilled acc worst_case (some a) none (some c) h u g = ground arith
    fill_acc-IsFilled acc best_case none (some b) (some c) h u g = ground arith
    fill_acc-IsFilled acc worst_case none (some b) (some c) h u g = ground arith
    fill_acc-IsFilled acc p (some a) none none h u g = ground (
      arith,
      given_n300-sum ieee acc origin ticks total misses (total -u misses) u small (omega arith) h,
    )
    fill_acc-IsFilled acc p none (some b) none h u g = ground (
      arith,
      given_n100-sum ieee acc origin ticks total misses (total -u misses) u small (omega arith) h,
    )
    fill_acc-IsFilled acc p none none (some c) h u g = ground (
      arith,
      given_n50-sum ieee acc origin ticks total misses (total -u misses) u small (omega arith) h,
    )
    fill_acc-IsFilled acc p none none none h u g = ground (
      arith,
      given_none-sum ieee acc origin ticks total misses (total -u misses) u small (omega arith) p h,
    )

    pub choose-IsFilled :
        (acc : Option A) (p : HitResultPriority) (a b c : Option ℕ) (h : Hits)
        → AccOk acc
        → Given (total - misses) a b c h
        → IsFilled total misses h (choose total misses origin ticks acc p a b c h)
    unfolding choose
    choose-IsFilled none p a b c h u = fill-IsFilled p a b c h
    choose-IsFilled (some acc) p a b c h u = fill_acc-IsFilled acc p a b c h u

  -- Counts that are all given, and with the misses leave no result over, are kept.
  pub choose_given :
      {A : Type 0} ⦃f : F64 A⦄ (origin : OsuScoreOrigin) (ticks : Ticks) (acc : Option A)
      (p : HitResultPriority) (x y z : ℕ) (h : Hits)
      → h.n300 + misses ≤ total
      → h.n100 + misses ≤ total
      → h.n50 + misses ≤ total
      → total ≤ sum_of h + misses
      → choose total misses origin ticks acc p (some x) (some y) (some z) h ≡ h
  unfolding choose fill fill_acc ◌+u◌
  choose_given origin ticks none best_case x y z h k l n t = ground arith
  choose_given origin ticks none worst_case x y z h k l n t = ground arith
  choose_given origin ticks (some acc) best_case x y z h k l n t = ground arith
  choose_given origin ticks (some acc) worst_case x y z h k l n t = ground arith
