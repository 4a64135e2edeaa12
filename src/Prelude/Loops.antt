-- ===== src/Prelude/Loops.antt =====
-- `for i in lo..=hi`, and the rules for its invariants.
use Prim.Native.Nat.{ℕ, zero, suc, ◌+◌, ◌-◌, ◌≤◌, ◌<◌}
use mathlib.Core.Path.{◌≡◌, subst}
use native.Mathlib.Omega.{arith}

-- `n` rounds, from index `i` on.
pub rounds {ℓ} : {S : Type ℓ} → ℕ → ℕ → (ℕ → S → S) → S → S
rounds zero i body s = s
rounds (suc n) i body s = rounds n (i + 1) body (body i s)

unfoldable pub for_incl {ℓ} : {S : Type ℓ} → ℕ → ℕ → (ℕ → S → S) → S → S
unfolding rounds
for_incl lo hi body s = rounds (hi + 1 - lo) lo body s

module _ {ℓ κ} {S : Type ℓ} (P : S → Type κ) (body : ℕ → S → S) where
  rounds_inv :
      (n i : ℕ) (s : S)
      → ((j : ℕ) (t : S) → i ≤ j → j < i + n → P t → P (body j t))
      → P s
      → P (rounds n i body s)
  unfolding rounds
  rounds_inv zero i s keep h = h
  rounds_inv (suc n) i s keep h =
      rounds_inv n (i + 1) (body i s) (λ j t p q. keep j t (omega arith) (omega arith))
        (keep i s (omega arith) (omega arith) h)

  -- What every round keeps holds at the end.
  pub for_incl_inv :
      (lo hi : ℕ) (s : S)
      → ((j : ℕ) (t : S) → lo ≤ j → j ≤ hi → P t → P (body j t))
      → P s
      → P (for_incl lo hi body s)
  unfolding for_incl
  for_incl_inv lo hi s keep h =
      rounds_inv (hi + 1 - lo) lo s (λ j t p q. keep j t p (omega arith)) h

  -- Where the range is not empty, it is enough that the first round establishes it.
  pub for_incl_first :
      (lo hi : ℕ) (s : S)
      → lo ≤ hi
      → P (body lo s)
      → ((j : ℕ) (t : S) → lo ≤ j → j ≤ hi → P t → P (body j t))
      → P (for_incl lo hi body s)
  unfolding for_incl rounds
  for_incl_first lo hi s r first keep =
      let e : hi + 1 - lo ≡ suc (hi - lo) = omega arith in
      rw e (
        rounds_inv (hi - lo) (lo + 1) (body lo s) (λ j t p q. keep j t (omega arith) (omega arith))
          first)

-- The same with an invariant that counts the rounds.
module _ {ℓ κ} {S : Type ℓ} (P : ℕ → S → Type κ) (body : ℕ → S → S) where
  rounds_index :
      (n i k : ℕ) (s : S)
      → i + n ≡ k
      → ((j : ℕ) (t : S) → i ≤ j → j < k → P j t → P (j + 1) (body j t))
      → P i s
      → P k (rounds n i body s)
  unfolding rounds
  rounds_index zero i k s e keep h = let i-eq : i ≡ k = omega arith in subst (λ m. P m s) i-eq h
  rounds_index (suc n) i k s e keep h =
      rounds_index n (i + 1) k (body i s) (omega arith) (λ j t p. keep j t (omega arith))
        (keep i s (omega arith) (omega arith) h)

  pub for_incl_index :
      (lo hi : ℕ) (s : S)
      → lo ≤ hi
      → P (lo + 1) (body lo s)
      → ((j : ℕ) (t : S) → lo < j → j ≤ hi → P j t → P (j + 1) (body j t))
      → P (hi + 1) (for_incl lo hi body s)
  unfolding for_incl rounds
  for_incl_index lo hi s r first keep =
      let e : hi + 1 - lo ≡ suc (hi - lo) = omega arith in
      rw e (
        rounds_index (hi - lo) (lo + 1) (hi + 1) (body lo s) (omega arith)
          (λ j t p q. keep j t (omega arith) (omega arith)) first)
