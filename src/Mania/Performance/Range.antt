-- ===== src/Mania/Performance/Range.antt =====
-- What every candidate of the osu!mania searches has in common: it fills what the misses leave.
use mamestagram_pp_rs.Prelude.{
  ℕ, ◌+◌, ◌-◌, ◌^◌, ◌≤◌, ◌<◌, ◌≡◌, Option, none, some, map_or, min, max, arith, ◌+u◌, ◌-u◌, ◌*u◌,
  ◌⊎◌,
}
use mamestagram_pp_rs.Any.Settings.{HitResultPriority, best_case, worst_case}
use mamestagram_pp_rs.Mania.Performance.Search.{Hits, Best, bound_3x0}
use mamestagram_pp_rs.Mania.Performance.Complete.{split_3x0, distribute}

abbrev pub given : Option ℕ → ℕ → ℕ
given o bound = map_or o 0 (λ n. min n bound)

pub given-le : (o : Option ℕ) (n : ℕ) → given o n ≤ n
given-le none n = omega arith
given-le (some a) n = omega arith

-- The counts as `generate_state` takes them from the caller.
abbrev pub Given : ℕ → Option ℕ → Option ℕ → Option ℕ → Option ℕ → Option ℕ → Hits → Type 0
Given bound a b c d e h =
    (h.n320 ≡ given a bound)
    × (h.n300 ≡ given b bound)
    × (h.n200 ≡ given c bound)
    × (h.n100 ≡ given d bound)
    × (h.n50 ≡ given e bound)

abbrev pub AllLe : ℕ → Hits → Type 0
AllLe n h = (h.n320 ≤ n) × (h.n300 ≤ n) × (h.n200 ≤ n) × (h.n100 ≤ n) × (h.n50 ≤ n)

pub Given-AllLe : (n : ℕ) (a b c d e : Option ℕ) (h : Hits) → Given n a b c d e h → AllLe n h
Given-AllLe n a b c d e h g =
    ground (arith, given-le a n, given-le b n, given-le c n, given-le d n, given-le e n)

abbrev pub sum_of : Hits → ℕ
sum_of h = h.n320 + h.n300 + h.n200 + h.n100 + h.n50

-- The counts below 300 that were given; those that were not are 0.
abbrev pub lower : Hits → ℕ
lower h = h.n200 + h.n100 + h.n50

-- Where the searches look for `n3x0`, with `left` results left.
abbrev pub InRange : ℕ → Option ℕ → Option ℕ → Hits → ℕ → Type 0
InRange left none none h x = x ≤ left - lower h
InRange left (some _) none h x = (h.n320 ≤ x) × (x ≤ max (left - lower h) h.n320)
InRange left none (some _) h x = (h.n300 ≤ x) × (x ≤ max (left - lower h) h.n300)
InRange left (some _) (some _) h x = x ≡ min left (h.n320 + h.n300)

-- What a candidate adds up to.
pub record IsCandidate (left : ℕ) (a b : Option ℕ) (h : Hits) (c : Best) : Type 0 where
  pub in_range : InRange left a b h c.n3x0
  pub fills : c.n3x0 + c.n200 + c.n100 + c.n50 ≡ max left (c.n3x0 + lower h)
  pub n200_le : c.n200 ≤ left
  pub n100_le : c.n100 ≤ left
  pub n50_le : c.n50 ≤ left
  pub n200_ge : h.n200 ≤ c.n200
  pub n100_ge : h.n100 ≤ c.n100
  pub n50_ge : h.n50 ≤ c.n50

-- The hit results fill what the misses leave, or are what was given if that is more; no count alone
-- is more than what the misses leave.
pub record IsFilled (left : ℕ) (h t : Hits) : Type 0 where
  pub sum : sum_of t ≡ max left (sum_of h)
  pub n320_le : t.n320 ≤ left
  pub n300_le : t.n300 ≤ left
  pub n200_le : t.n200 ≤ left
  pub n100_le : t.n100 ≤ left
  pub n50_le : t.n50 ≤ left

module _ (left : ℕ) (bound : left < 2 ^ 28) where
  -- Each bound of a search lies in the range, if the unbounded ones are below what is left.
  pub bound_3x0-InRange :
      (a b : Option ℕ) (h : Hits) (lo hi x : ℕ)
      → AllLe left h
      → hi ≤ left - lower h
      → bound_3x0 a b h (min left (h.n320 +u h.n300)) lo ≤ x
      → x ≤ bound_3x0 a b h (min left (h.n320 +u h.n300)) hi
      → InRange left a b h x
  unfolding bound_3x0 ◌+u◌
  bound_3x0-InRange none none h lo hi x g k p q = omega arith
  bound_3x0-InRange (some m) none h lo hi x g k p q = omega arith
  bound_3x0-InRange none (some n) h lo hi x g k p q = omega arith
  bound_3x0-InRange (some m) (some n) h lo hi x g k p q = omega arith

  pub InRange-le :
      (a b : Option ℕ) (h : Hits) (x : ℕ) → AllLe left h → InRange left a b h x → x ≤ left
  InRange-le none none h x g r = omega arith
  InRange-le (some m) none h x g r = omega arith
  InRange-le none (some n) h x g r = omega arith
  InRange-le (some m) (some n) h x g r = omega arith

  pub split_3x0-IsFilled :
      (p : HitResultPriority) (a b c d e : Option ℕ) (h : Hits) (t : Best)
      → Given left a b c d e h
      → IsCandidate left a b h t
      → IsFilled left h (split_3x0 p a b h t)
  unfolding split_3x0 ◌-u◌
  split_3x0-IsFilled best_case none none c d e h t g k = omega (arith, k.in_range, k.fills)
  split_3x0-IsFilled worst_case none none c d e h t g k = ground arith
  split_3x0-IsFilled p (some m) none c d e h t g k = ground arith
  split_3x0-IsFilled p none (some n) c d e h t g k = ground arith
  split_3x0-IsFilled p (some m) (some n) c d e h t g k = ground arith

  -- Where n200 is not given, what the search found has no n200 unless it leaves no result over.
  pub split_3x0-full :
      (p : HitResultPriority) (a b d e : Option ℕ) (h : Hits) (t : Best)
      → Given left a b none d e h
      → IsCandidate left a b h t
      → (sum_of (split_3x0 p a b h t) ≡ left) ⊎ ((split_3x0 p a b h t).n200 ≡ 0)
  unfolding split_3x0 ◌-u◌
  split_3x0-full best_case none none d e h t g k = ground arith
  split_3x0-full worst_case none none d e h t g k = ground arith
  split_3x0-full p (some m) none d e h t g k = ground arith
  split_3x0-full p none (some n) d e h t g k = ground arith
  split_3x0-full p (some m) (some n) d e h t g k = ground arith

  pub distribute-IsFilled :
      (p : HitResultPriority) (a : Option ℕ) (h t : Hits)
      → IsFilled left h t
      → (sum_of t ≡ left) ⊎ (t.n200 ≡ 0)
      → IsFilled left h (distribute p a t)
  unfolding distribute ◌+u◌ ◌-u◌ ◌*u◌
  distribute-IsFilled best_case none h t k s = ground arith
  distribute-IsFilled best_case (some m) h t k s = k
  distribute-IsFilled worst_case a h t k s = k
