-- ===== src/Util/LimitedQueue/Contents.antt =====
-- A limited queue holds the last `N` elements pushed, in the order in which they were pushed.
use mamestagram_pp_rs.Prelude.{
  ℕ, suc, ◌+◌, ◌-◌, ◌%◌, ◌≤◌, ◌<◌, ◌≡◌, ap, sym, ◌∙◌, List, [], ◌∷◌, ◌++◌, append_assoc, set,
  get_elem?, take, drop, length, length-set, length-append, length-drop, length-replicate, arith,
}
use native.Mathlib.Nat.{mod-eq_of_lt, mod-eq-sub-mod}
use native.Mathlib.Numerals.{add-one}
use native.Mathlib.Decide.{dec_lt}
use mamestagram_pp_rs.Prelude.{
  take-set, drop-set, drop_all, take_all, drop-drop-append, length-take-le, get_elem?-take,
  get_elem?-append-left, get_elem?-append-right, get_elem?-drop,
}
use mamestagram_pp_rs.Util.LimitedQueue.{LimitedQueue, default, push, is_full, as_slices, index}

wrap_self : (i n : ℕ) → i + 1 ≡ n → (i + 1) % n ≡ 0
wrap_self i n e = grind arith

module _ {ℓ} {T : Type ℓ} where
  -- The elements, oldest first.
  abbrev pub to_list : ℕ → LimitedQueue T → List T
  to_list N q = let (a, b) = as_slices N q in a ++ b

  -- The last `N` of a list.
  abbrev pub last_of : ℕ → List T → List T
  last_of N xs = drop (length xs - N) xs

  pub record IsValid (N : ℕ) (q : LimitedQueue T) : Type ℓ where
    pub storage : length q.queue ≡ N
    pub end_in : q.end < N
    pub len_in : q.len ≤ N
    pub next_free : q.len < N → (q.end + 1) % N ≡ q.len

  to_list-full :
      (N : ℕ) (q : LimitedQueue T)
      → q.len ≡ N
      → to_list N q ≡ drop (q.end + 1) q.queue ++ take (q.end + 1) q.queue
  unfolding as_slices is_full
  to_list-full N q e = ground arith

  to_list-room : (N : ℕ) (q : LimitedQueue T) → q.len < N → to_list N q ≡ take q.len q.queue
  unfolding as_slices is_full
  to_list-room N q e = ground arith

  length-snoc : (xs : List T) (x : T) → length (xs ++ x ∷ []) ≡ suc (length xs)
  length-snoc xs x = rw length-append (omega arith)

  last_of-full :
      (xs : List T) (x : T) (N : ℕ)
      → length xs ≡ N
      → last_of N (xs ++ x ∷ []) ≡ drop 1 (xs ++ x ∷ [])
  last_of-full xs x N e = rw length-snoc (ap (λ n. drop n (xs ++ x ∷ [])) {y = 1} (omega arith))

  last_of-room :
      (xs : List T) (x : T) (N : ℕ) → length xs < N → last_of N (xs ++ x ∷ []) ≡ xs ++ x ∷ []
  last_of-room xs x N e = rw length-snoc (ap (λ n. drop n (xs ++ x ∷ [])) {y = 0} (omega arith))

  -- Writing `x` behind the last of a ring that is full.
  rotate :
      (xs : List T) (i N : ℕ) (x : T)
      → length xs ≡ N
      → i < N
      → (let j = (i + 1) % N in drop (j + 1) (set xs j x) ++ take (j + 1) (set xs j x))
        ≡ drop 1 ((drop (i + 1) xs ++ take (i + 1) xs) ++ x ∷ [])
  rotate xs i N x l h =
      let more : (k : ℕ)
          → k < length xs
          → drop (suc k) xs ++ (take k xs ++ x ∷ []) ≡ drop 1 ((drop k xs ++ take k xs) ++ x ∷ []) =
        λ k lt. rw append_assoc (sym (drop-drop-append k xs (take k xs ++ x ∷ []) lt)) in
      elim (dec_lt (i + 1) N) [
        | yes lt ↦
            rw (mod-eq_of_lt lt, add-one (i + 1), add-one i)
              (rw (drop-set xs (suc i) x, take-set xs (suc i) x (omega arith))
                (more (suc i) (omega arith)))
        | no ge ↦
            rw (wrap_self i N (omega arith), add-one i)
              (rw (drop-set xs 0 x, take-set xs 0 x (omega arith)) rw
                (drop_all (suc i) xs (omega arith), take_all (suc i) xs (omega arith))
                (sym (drop-drop-append 0 xs (x ∷ []) (omega arith))))
      ]

  -- Reading a full ring whose oldest element is at `k`.
  ring :
      (xs : List T) (i k N : ℕ)
      → length xs ≡ N
      → i < N
      → k ≤ N
      → get_elem? xs ((i + k) % N) ≡ get_elem? (drop k xs ++ take k xs) i
  ring xs i k N l h m = elim (dec_lt (i + k) N) [
    | yes b ↦
        rw
          (
            mod-eq_of_lt b,
            get_elem?-append-left i (drop k xs) (take k xs) (omega (arith, length-drop k xs)),
            get_elem?-drop,
          )
          (ap (get_elem? xs) (omega arith))
    | no b ↦
        let j : ℕ = i + k - N in
        let wrapped : (i + k) % N ≡ j = mod-eq-sub-mod (omega arith) ∙ mod-eq_of_lt (omega arith) in
        let split : i ≡ length (drop k xs) + j = omega (arith, length-drop k xs) in
        rw (wrapped) (
          sym (get_elem?-take k j xs (omega arith))
          ∙ sym (get_elem?-append-right j (drop k xs) (take k xs))
          ∙ ap (get_elem? (drop k xs ++ take k xs)) (sym split))
  ]

  module _ (N : ℕ) where
    pub default-IsValid : (t : T) → 0 < N → IsValid N (default N t)
    unfolding default
    default-IsValid t h = record {
      storage = length-replicate N t;
      end_in = omega arith;
      len_in = omega arith;
      next_free = λ _. wrap_self (N - 1) N (omega arith);
    }

    -- A valid queue stays valid when an element is pushed: its array has `N` places, `end` is one of them,
    -- `len` is at most `N`, and the place after `end` is `len` while there is room.
    pub push-IsValid : (q : LimitedQueue T) (x : T) → IsValid N q → IsValid N (push N q x)
    unfolding push
    push-IsValid q x v = record {
      storage = length-set q.queue ((q.end + 1) % N) x ∙ v.storage;
      end_in = omega (arith, v.end_in);
      len_in = ground (arith, v.len_in);
      next_free = λ h. ground (arith, v.next_free, mod-eq_of_lt {n = q.len + 1} {m = N});
    }

    push-len-full : (q : LimitedQueue T) (x : T) → q.len ≡ N → (push N q x).len ≡ N
    unfolding push
    push-len-full q x e = ground arith

    -- What `push` does where there is room.
    push-room :
        (q : LimitedQueue T) (x : T)
        → IsValid N q
        → q.len < N
        → push N q x ≡ record { queue = set q.queue q.len x; end = q.len; len = suc q.len }
    unfolding push
    push-room q x v h = ground (arith, v.next_free)

    push-to_list-append :
        (q : LimitedQueue T) (x : T)
        → IsValid N q
        → q.len < N
        → to_list N (push N q x) ≡ take q.len q.queue ++ x ∷ []
    push-to_list-append q x v h =
        let written : List T = set q.queue q.len x in
        let r : LimitedQueue T = record { queue = written; end = q.len; len = suc q.len } in
        let taken : take (suc q.len) written ≡ take q.len q.queue ++ x ∷ [] =
          take-set q.queue q.len x (omega (arith, v.storage)) in
        rw (push-room q x v h) (elim (dec_lt (suc q.len) N) [
          | yes lt ↦ rw (to_list-room N r lt) taken
          | no ge ↦
              rw
                (
                  to_list-full N r (omega arith),
                  add-one q.len,
                  drop_all (suc q.len) written
                      (omega (arith, v.storage, length-set q.queue q.len x)),
                )
                taken
        ])

    push-to_list-full :
        (q : LimitedQueue T) (x : T)
        → IsValid N q
        → q.len ≡ N
        → to_list N (push N q x) ≡ last_of N (to_list N q ++ x ∷ [])
    unfolding push
    push-to_list-full q x v e =
        let old : List T = drop (q.end + 1) q.queue ++ take (q.end + 1) q.queue in
        let old-length : length old ≡ N =
          rw (length-append, length-drop)
            (omega (arith, v.storage, length-take-le (q.end + 1) q.queue)) in
        rw
          (
            to_list-full N (push N q x) (push-len-full q x e),
            to_list-full N q e,
            last_of-full old x N old-length,
          )
          (rotate q.queue q.end N x v.storage v.end_in)

    push-to_list-room :
        (q : LimitedQueue T) (x : T)
        → IsValid N q
        → q.len < N
        → to_list N (push N q x) ≡ last_of N (to_list N q ++ x ∷ [])
    unfolding push
    push-to_list-room q x v e =
        let kept : length (take q.len q.queue) ≡ q.len =
          length-take-le q.len q.queue (omega (arith, v.storage)) in
        rw (to_list-room N q e, last_of-room (take q.len q.queue) x N (omega (arith, kept)))
          (push-to_list-append q x v e)

    -- An element that is pushed to a valid queue comes last; where there is no room, the oldest is
    -- forgotten.
    pub push-to_list :
        (q : LimitedQueue T) (x : T)
        → IsValid N q
        → to_list N (push N q x) ≡ last_of N (to_list N q ++ x ∷ [])
    push-to_list q x v = elim (dec_lt q.len N) [
      | yes h ↦ push-to_list-room q x v h
      | no h ↦ push-to_list-full q x v (omega (arith, v.len_in))
    ]

    index-room :
        (q : LimitedQueue T) (i : ℕ)
        → IsValid N q
        → i < q.len
        → q.len < N
        → index N q i ≡ get_elem? q.queue i
    unfolding index
    index-room q i v h r =
        ap (get_elem? q.queue) {y = i} (grind (arith, mod-eq_of_lt {n = i} {m = N}))

    index-full :
        (q : LimitedQueue T) (i : ℕ)
        → q.len ≡ N
        → index N q i ≡ get_elem? q.queue ((i + (q.end + 1)) % N)
    unfolding index
    index-full q i e = grind arith

    -- Indexing below the length of a valid queue reads the elements in the order in which they were
    -- pushed.
    pub index-to_list :
        (q : LimitedQueue T) (i : ℕ)
        → IsValid N q
        → i < q.len
        → index N q i ≡ get_elem? (to_list N q) i
    index-to_list q i v h = elim (dec_lt q.len N) [
      | yes r ↦
          rw (index-room q i v h r, to_list-room N q r) (sym (get_elem?-take q.len i q.queue h))
      | no r ↦
          rw (index-full q i (omega (arith, v.len_in)), to_list-full N q (omega (arith, v.len_in)))
            (ring q.queue i (q.end + 1) N v.storage (omega (arith, v.len_in))
              (omega (arith, v.end_in)))
    ]
