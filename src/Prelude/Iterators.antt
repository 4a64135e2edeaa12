-- ===== src/Prelude/Iterators.antt =====
-- Iterators whose `next` may panic, which is an outer `none`.
use Prim.Native.Nat.{ℕ, zero, suc, ◌≤◌}
use mathlib.Core.Path.{◌≡◌, refl, sym, ap, ◌∙◌}
use mathlib.Core.List.{List, [], ◌∷◌}
use mathlib.Core.Option.{Option, none, some}
use native.Mathlib.Omega.{arith}
use mamestagram_pp_rs.Prelude.Lists.{length, get_elem?, take, drop, length}
use mamestagram_pp_rs.Prelude.Tests.{◌>>=◌}

-- The state after so many calls of `next`.
abbrev pub nexts {ℓ κ} : {S : Type ℓ} {I : Type κ} → (S → Option (Option I × S)) → ℕ → S → Option S
nexts next zero s = some s
nexts next (suc k) s = next s >>= λ (_, s'). nexts next k s'

-- The call of `next` after so many others.
abbrev pub next_after {ℓ κ} :
    {S : Type ℓ} {I : Type κ} → (S → Option (Option I × S)) → ℕ → S → Option (Option I × S)
next_after next k s = nexts next k s >>= next

module _ {ℓ κ} {S : Type ℓ} {I : Type κ} (next : S → Option (Option I × S)) where
  -- States that `next` takes alike stay alike.
  pub next_after_same :
      (k : ℕ) (s t : S) → next s ≡ next t → next_after next k s ≡ next_after next k t
  next_after_same zero s t e = e
  next_after_same (suc k) s t e = ap (λ r. (r >>= λ (_, s'). nexts next k s') >>= next) e

  -- One call, and then the others.
  pub next_after_step :
      (k : ℕ) (s s' : S) (i : Option I)
      → next s ≡ some (i, s')
      → next_after next (suc k) s ≡ next_after next k s'
  next_after_step k s s' i e = rw e refl

-- An iterator whose items and states are those of another one.
module _ {S T I J : Type 0} (next : S → Option (Option I × S)) (next' : T → Option (Option J × T))
    (item : Option I × S → Option J × T) (state : S → T) where
  item_after :
      (k : ℕ) (called : Option (Option I × S))
      → ((r : Option I × S) → (item r).1 ≡ state r.1)
      → ((t : S) → next_after next' k (state t) ≡ (next_after next k t >>= λ r. some (item r)))
      → (((called >>= λ r. some (item r)) >>= λ (_, t). nexts next' k t) >>= next')
        ≡ (((called >>= λ (_, t). nexts next k t) >>= next) >>= λ r. some (item r))
  item_after k none kept others = refl
  item_after k (some r) kept others = ap (next_after next' k) (kept r) ∙ others r.1

  pub next_after-item :
      (k : ℕ) (s : S)
      → ((t : S) → next' (state t) ≡ (next t >>= λ r. some (item r)))
      → ((r : Option I × S) → (item r).1 ≡ state r.1)
      → next_after next' k (state s) ≡ (next_after next k s >>= λ r. some (item r))
  next_after-item zero s alike kept = alike s
  next_after-item (suc k) s alike kept =
      ap (λ q. (q >>= λ (_, t). nexts next' k t) >>= next') (alike s)
      ∙ item_after k (next s) kept (λ t. next_after-item k t alike kept)

-- What every call of `next` keeps holds after so many of them, and then of one more.
module _ {S I : Type 0} (next : S → Option (Option I × S)) (P : S → Type 0) where
  abbrev Reached : Option I × S → Type 0
  Reached r = (t : S) × P t × (next t ≡ some r)

  reach_after :
      (k : ℕ) (r : Option I × S) (called : Option (Option I × S))
      → ((u : S) (i : Option I) → called ≡ some (i, u) → P u)
      → ((u : S) → P u → next_after next k u ≡ some r → Reached r)
      → ((called >>= λ (_, u). nexts next k u) >>= next) ≡ some r
      → Reached r
  reach_after k r none keep others e = cc e
  reach_after k r (some (i, u)) keep others e = others u (keep u i refl) e

  pub next_after-reach :
      (k : ℕ) (s : S) (r : Option I × S)
      → ((t u : S) (i : Option I) → P t → next t ≡ some (i, u) → P u)
      → P s
      → next_after next k s ≡ some r
      → Reached r
  next_after-reach zero s r keep p e = (s, p, e)
  next_after-reach (suc k) s r keep p e =
      reach_after k r (next s) (λ u i. keep s u i p) (λ u q. next_after-reach k u r keep q) e

-- `for x in xs`, with a body that may panic.
unfoldable pub for_each {ℓ κ} :
    {S : Type ℓ} {T : Type κ} → (T → S → Option S) → List T → S → Option S
for_each f [] s = some s
for_each f (x ∷ xs) s = f x s >>= for_each f xs

-- An iterator that goes through a list: `At xs s` says that `xs` is left in the state `s`, `step` is
-- what one element does to the state.
module _ {S I T : Type 0} (next : S → Option (Option I × S)) (step : T → S → Option S)
    (At : List T → S → Type 0) where
  -- One element is what `next` passes.
  abbrev pub StepsTo : T → List T → S → Type 0
  StepsTo x xs s = (t : S) × (i : I) × (step x s ≡ some t) × (next s ≡ some (some i, t)) × At xs t

  -- Passing elements in a loop and then calling `next` is calling `next` for each.
  pub for_each-next_after :
      (k : ℕ) (xs : List T) (s : S)
      → ((y : T) (ys : List T) (t : S) → At (y ∷ ys) t → StepsTo y ys t)
      → At xs s
      → k ≤ length xs
      → (for_each step (take k xs) s >>= next) ≡ next_after next k s
  unfolding for_each
  for_each-next_after zero xs s steps at h = refl
  for_each-next_after (suc k) [] s steps at h = absurd (omega arith)
  for_each-next_after (suc k) (x ∷ xs) s steps at h =
      let (t, i, stepped, called, at') = steps x xs s at in
      rw stepped (for_each-next_after k xs t steps at' (omega arith))
      ∙ sym (next_after_step next k s t (some i) called)

module _ {ℓ} {T : Type ℓ} where
  pub drop-cons :
      (xs ys : List T) (i : ℕ) (x : T)
      → drop i xs ≡ x ∷ ys
      → (get_elem? xs i ≡ some x) × (drop (suc i) xs ≡ ys)
  drop-cons [] ys zero x e = cc e
  drop-cons [] ys (suc i) x e = cc e
  drop-cons (y ∷ xs) ys zero x e = (cc e, cc e)
  drop-cons (y ∷ xs) ys (suc i) x e = drop-cons xs ys i x e

-- `next` does not panic: it ends where `left` is 0, without a change, and counts `left` down otherwise.
abbrev pub CountsDown : {S I : Type 0} → (S → Type 0) → (S → ℕ) → S → Option (Option I × S) → Type 0
CountsDown IsValid left s none = ⊥
CountsDown IsValid left s (some (none, t)) = (left s ≡ 0) × (t ≡ s)
CountsDown IsValid left s (some (some _, t)) = (left s ≡ suc (left t)) × IsValid t
