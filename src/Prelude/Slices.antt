-- ===== src/Prelude/Slices.antt =====
-- Prefixes, suffixes and elements of lists that are written to, appended or cut.
use Prim.Native.Nat.{ℕ, zero, suc, ◌+◌, ◌≤◌, ◌<◌}
use mathlib.Core.Path.{◌≡◌, refl, ap}
use mathlib.Core.Option.{none, some}
use mathlib.Core.List.{List, [], ◌∷◌, ◌++◌, map}
use native.Mathlib.Omega.{arith}
use native.Mathlib.Nat.{suc-add}
use mamestagram_pp_rs.Prelude.Lists.{length, get_elem?, set, take, drop}

module _ {ℓ} {T : Type ℓ} where
  pub take-set :
      (xs : List T) (i : ℕ) (x : T)
      → i < length xs
      → take (suc i) (set xs i x) ≡ take i xs ++ x ∷ []
  take-set [] i x h = absurd (omega arith)
  take-set (y ∷ ys) zero x h = refl
  take-set (y ∷ ys) (suc i) x h = ap (◌∷◌ y) (take-set ys i x (omega arith))

  pub drop-set : (xs : List T) (i : ℕ) (x : T) → drop (suc i) (set xs i x) ≡ drop (suc i) xs
  drop-set [] i x = refl
  drop-set (y ∷ ys) zero x = refl
  drop-set (y ∷ ys) (suc i) x = drop-set ys i x

  pub drop_all : (n : ℕ) (xs : List T) → length xs ≤ n → drop n xs ≡ []
  drop_all zero [] h = refl
  drop_all zero (x ∷ xs) h = absurd (omega arith)
  drop_all (suc n) [] h = refl
  drop_all (suc n) (x ∷ xs) h = drop_all n xs (omega arith)

  pub take_all : (n : ℕ) (xs : List T) → length xs ≤ n → take n xs ≡ xs
  take_all zero [] h = refl
  take_all zero (x ∷ xs) h = absurd (omega arith)
  take_all (suc n) [] h = refl
  take_all (suc n) (x ∷ xs) h = ap (◌∷◌ x) (take_all n xs (omega arith))

  -- Taking one more off the front, where there is one.
  pub drop-drop-append :
      (i : ℕ) (xs ys : List T) → i < length xs → drop 1 (drop i xs ++ ys) ≡ drop (suc i) xs ++ ys
  drop-drop-append i [] ys h = absurd (omega arith)
  drop-drop-append zero (x ∷ xs) ys h = refl
  drop-drop-append (suc i) (x ∷ xs) ys h = drop-drop-append i xs ys (omega arith)

  pub length-take-le : (n : ℕ) (xs : List T) → n ≤ length xs → length (take n xs) ≡ n
  length-take-le zero xs h = refl
  length-take-le (suc n) [] h = absurd (omega arith)
  length-take-le (suc n) (x ∷ xs) h = ap suc (length-take-le n xs (omega arith))

  pub get_elem?-take : (n i : ℕ) (xs : List T) → i < n → get_elem? (take n xs) i ≡ get_elem? xs i
  get_elem?-take zero i xs h = absurd (omega arith)
  get_elem?-take (suc n) i [] h = refl
  get_elem?-take (suc n) zero (x ∷ xs) h = refl
  get_elem?-take (suc n) (suc i) (x ∷ xs) h = get_elem?-take n i xs (omega arith)

  pub get_elem?-append-left :
      (i : ℕ) (xs ys : List T) → i < length xs → get_elem? (xs ++ ys) i ≡ get_elem? xs i
  get_elem?-append-left i [] ys h = absurd (omega arith)
  get_elem?-append-left zero (x ∷ xs) ys h = refl
  get_elem?-append-left (suc i) (x ∷ xs) ys h = get_elem?-append-left i xs ys (omega arith)

  pub get_elem?-append-right :
      (i : ℕ) (xs ys : List T) → get_elem? (xs ++ ys) (length xs + i) ≡ get_elem? ys i
  get_elem?-append-right i [] ys = ap (get_elem? ys) (omega arith)
  get_elem?-append-right i (x ∷ xs) ys = rw suc-add (get_elem?-append-right i xs ys)

  pub get_elem?-drop : (n i : ℕ) (xs : List T) → get_elem? (drop n xs) i ≡ get_elem? xs (n + i)
  get_elem?-drop zero i xs = ap (get_elem? xs) (omega arith)
  get_elem?-drop (suc n) i [] = refl
  get_elem?-drop (suc n) i (x ∷ xs) = rw suc-add (get_elem?-drop n i xs)

  pub take_fewer : (n : ℕ) (xs : List T) → length (take n xs) ≤ length xs
  take_fewer zero xs = omega arith
  take_fewer (suc n) [] = omega arith
  take_fewer (suc n) (x ∷ xs) = omega (arith, take_fewer n xs)

  pub get_elem?-none : (xs : List T) (i : ℕ) → length xs ≤ i → get_elem? xs i ≡ none
  get_elem?-none [] i h = refl
  get_elem?-none (x ∷ xs) zero h = absurd (omega arith)
  get_elem?-none (x ∷ xs) (suc i) h = get_elem?-none xs i (omega arith)

  pub get_elem?-some : (xs : List T) (i : ℕ) → i < length xs → (x : T) × (get_elem? xs i ≡ some x)
  get_elem?-some [] i h = absurd (omega arith)
  get_elem?-some (x ∷ xs) zero h = (x, refl)
  get_elem?-some (x ∷ xs) (suc i) h = get_elem?-some xs i (omega arith)

module _ {ℓ κ} {S : Type ℓ} {T : Type κ} where
  pub length-map : (f : S → T) (xs : List S) → length (map f xs) ≡ length xs
  length-map f [] = refl
  length-map f (x ∷ xs) = ap suc (length-map f xs)

  pub take-map : (f : S → T) (n : ℕ) (xs : List S) → take n (map f xs) ≡ map f (take n xs)
  take-map f zero xs = refl
  take-map f (suc n) [] = refl
  take-map f (suc n) (x ∷ xs) = ap (◌∷◌ (f x)) (take-map f n xs)
