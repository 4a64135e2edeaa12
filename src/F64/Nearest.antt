-- ===== src/F64/Nearest.antt =====
-- The loop by which every `generate_state` looks for the hit results nearest to an accuracy,
--   for i in lo..=hi { if dist(i) < best_dist { best_dist = dist(i); best = pick(i) } }
use mamestagram_pp_rs.Prelude.{
  ℕ, ◌+◌, ◌≤◌, ◌<◌, ◌≡◌, refl, true, false, arith, if◌then◌else◌, for_incl, for_incl_index,
  for_incl_first, Bool-cases, inl, inr,
}
use native.Mathlib.Decide.{ℕ_discrete}
use mamestagram_pp_rs.F64.Defs.{F64, IsIeee}

-- One comparison of such a loop.
abbrev pub consider {ℓ κ} : {A : Type ℓ} {S : Type κ} ⦃f : F64 A⦄ → A → S → A × S → A × S
consider ⦃f⦄ dist new (best_dist, best) =
    if f.lt dist best_dist then (dist, new) else (best_dist, best)

module _ {ℓ κ} {A : Type ℓ} {S : Type κ} ⦃f : F64 A⦄ (ieee : IsIeee A) (dist : ℕ → A)
    (pick : ℕ → S) where
  open ieee use {lt_irrefl, lt_trans}

  -- `t` is what candidate `k` gives, and no candidate from `lo` to below `n` is nearer.
  pub record IsNearest (lo n : ℕ) (t : A × S) : Type (ℓ ⊔ κ) where
    pub index : ℕ
    pub above : lo ≤ index
    pub below : index < n
    pub is_dist : t.0 ≡ dist index
    pub is_pick : t.1 ≡ pick index
    pub nearest : (j : ℕ) → lo ≤ j → j < n → f.lt (dist j) t.0 ≡ false

  abbrev body : ℕ → A × S → A × S
  body i t = consider (dist i) (pick i) t

  -- The candidate `n` is nearer than all before it, so nearer than none of them is.
  not_nearer :
      (j n : ℕ) (best : A)
      → f.lt (dist n) best ≡ true
      → f.lt (dist j) best ≡ false
      → f.lt (dist j) (dist n) ≡ false
  not_nearer j n best h k = ground (arith, lt_trans (dist j) (dist n) best)

  step : (lo n : ℕ) (t : A × S) → IsNearest lo n t → lo ≤ n → IsNearest lo (n + 1) (body n t)
  step lo n (d, s) h l = elim (Bool-cases (f.lt (dist n) d)) [
    | inl e ↦ rw e record {
      index = n;
      above = l;
      below = omega arith;
      is_dist = refl;
      is_pick = refl;
      nearest = λ j p q. elim (ℕ_discrete j n) [
        | yes eq ↦ rw eq (lt_irrefl (dist n))
        | no ne ↦ not_nearer j n d e (h.nearest j p (omega arith))
      ];
    }
    | inr e ↦ rw e record {
      index = h.index;
      above = h.above;
      below = omega (arith, h.below);
      is_dist = h.is_dist;
      is_pick = h.is_pick;
      nearest =
          λ j p q. elim (ℕ_discrete j n) [ yes eq ↦ rw eq e | no ne ↦ h.nearest j p (omega arith) ];
    }
  ]

  -- The loop ends with a nearest candidate, if it has one and the first is nearer than the distance
  -- that it starts with.
  pub for_incl-IsNearest :
      (lo hi : ℕ) (d0 : A) (s0 : S)
      → lo ≤ hi
      → f.lt (dist lo) d0 ≡ true
      → IsNearest lo (hi + 1) (for_incl lo hi body (d0, s0))
  for_incl-IsNearest lo hi d0 s0 r first =
      for_incl_index (λ n t. IsNearest lo n t) body lo hi (d0, s0) r
        (rw first record {
          index = lo;
          above = omega arith;
          below = omega arith;
          is_dist = refl;
          is_pick = refl;
          nearest = λ j p q. let e : j ≡ lo = omega arith in rw e (lt_irrefl (dist lo));
        })
        (λ j t p q. λ h. step lo j t h (omega arith))

-- The whole loop, from the distance `worst` on, and the pick it ends with.
unfoldable pub nearest_in {ℓ κ} :
    {A : Type ℓ} {S : Type κ} ⦃f : F64 A⦄ → A → ℕ → ℕ → (ℕ → A) → (ℕ → S) → S → S
nearest_in worst lo hi dist pick s =
    (for_incl lo hi (λ i t. consider (dist i) (pick i) t) (worst, s)).1

module _ {ℓ κ μ} {A : Type ℓ} {S : Type κ} ⦃f : F64 A⦄ (P : S → Type μ) where
  pub consider-keep : (d : A) (new : S) (t : A × S) → P new → P t.1 → P (consider d new t).1
  consider-keep d new (b, s) p q = elim (Bool-cases (f.lt d b)) [ inl e ↦ rw e p | inr e ↦ rw e q ]

  pub consider-first : (d b : A) (new s : S) → f.lt d b ≡ true → P new → P (consider d new (b, s)).1
  consider-first d b new s e p = rw e p

  -- What all picks of the range have in common the loop's result has.
  pub nearest_in-all :
      (worst : A) (lo hi : ℕ) (dist : ℕ → A) (pick : ℕ → S) (s : S)
      → lo ≤ hi
      → f.lt (dist lo) worst ≡ true
      → ((i : ℕ) → lo ≤ i → i ≤ hi → P (pick i))
      → P (nearest_in worst lo hi dist pick s)
  unfolding nearest_in
  nearest_in-all worst lo hi dist pick s r e all =
      for_incl_first (λ t. P t.1) (λ i t. consider (dist i) (pick i) t) lo hi (worst, s) r
        (consider-first (dist lo) worst (pick lo) s e (all lo (omega arith) r))
        (λ j t p q. consider-keep (dist j) (pick j) t (all j p q))

-- No candidate of the range is nearer than the one that the loop ends with, where a pick tells how far it
-- is.
pub nearest_in-nearest {ℓ κ} :
    {A : Type ℓ} {S : Type κ} ⦃f : F64 A⦄ (ieee : IsIeee A) (far : S → A) (worst : A) (lo hi : ℕ)
    (pick : ℕ → S) (s : S)
    → lo ≤ hi
    → f.lt (far (pick lo)) worst ≡ true
    → (j : ℕ) → lo ≤ j
    → j ≤ hi
    → f.lt (far (pick j)) (far (nearest_in worst lo hi (λ i. far (pick i)) pick s)) ≡ false
unfolding nearest_in
nearest_in-nearest ieee far worst lo hi pick s r e j p q =
    let n = for_incl-IsNearest ieee (λ i. far (pick i)) pick lo hi worst s r e in
    rw (n.is_pick, ← n.is_dist) (n.nearest j p (omega arith))
