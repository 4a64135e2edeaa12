-- ===== src/Catch/Counts/Deltas.antt =====
-- The counts object by object add up to the counts of the objects passed.
use mamestagram_pp_rs.Prelude.{
  ℕ, zero, suc, ◌-◌, ◌≤◌, ◌<◌, ◌≡◌, refl, sym, ap, ◌∙◌, subst, true, false, some, List, [], ◌∷◌,
  ◌++◌, length, take, ltb, ◌+u◌, arith, append_assoc, append-nil,
}
use mamestagram_pp_rs.Catch.Performance.{CatchDifficultyAttributes}
use mamestagram_pp_rs.Catch.Counts.{
  ObjectCount, GradualObjectCount, ObjectCountBuilder, into_regular, into_gradual, record_fruit,
  record_droplet, record_tiny_droplets, set_object_count, add_object_count,
}

-- What is recorded on a builder.
pub data Recorded : Type 0 where
  fruit droplet : Recorded
  tiny_droplets : ℕ → Recorded

unfoldable pub record_one : Recorded → ObjectCountBuilder → ObjectCountBuilder
record_one Recorded.fruit b = record_fruit b
record_one Recorded.droplet b = record_droplet b
record_one (Recorded.tiny_droplets n) b = record_tiny_droplets n b

unfoldable pub record_all : List Recorded → ObjectCountBuilder → ObjectCountBuilder
unfolding record_one
record_all [] b = b
record_all (r ∷ rs) b = record_all rs (record_one r b)

-- The counts object by object, with the tiny droplets so far since the object before.
unfoldable pub deltas : List Recorded → ℕ → List GradualObjectCount
deltas [] t = []
deltas (Recorded.fruit ∷ rs) t = record { fruit = true; tiny_droplets = t } ∷ deltas rs 0
deltas (Recorded.droplet ∷ rs) t = record { fruit = false; tiny_droplets = t } ∷ deltas rs 0
deltas (Recorded.tiny_droplets n ∷ rs) t = deltas rs (t +u n)

unfoldable pub add_all :
    {A : Type 0}
    → List GradualObjectCount
    → CatchDifficultyAttributes A
    → CatchDifficultyAttributes A
unfolding add_object_count
add_all [] attrs = attrs
add_all (count ∷ counts) attrs = add_all counts (add_object_count count attrs)

pub gradual-deltas :
    (rs : List Recorded) (t : ℕ) (all : List GradualObjectCount)
    → into_gradual (
        record_all rs
          (ObjectCountBuilder.gradual (record { fruit = false; tiny_droplets = t }) all))
      ≡ some (all ++ deltas rs t)
unfolding record_all deltas record_fruit record_droplet record_tiny_droplets into_gradual
gradual-deltas [] t all = sym (ap some (append-nil all))
gradual-deltas (Recorded.fruit ∷ rs) t all =
    gradual-deltas rs 0 (all ++ record { fruit = true; tiny_droplets = t } ∷ [])
    ∙ ap some (append_assoc all (record { fruit = true; tiny_droplets = t } ∷ []) (deltas rs 0))
gradual-deltas (Recorded.droplet ∷ rs) t all =
    gradual-deltas rs 0 (all ++ record { fruit = false; tiny_droplets = t } ∷ [])
    ∙ ap some (append_assoc all (record { fruit = false; tiny_droplets = t } ∷ []) (deltas rs 0))
gradual-deltas (Recorded.tiny_droplets n ∷ rs) t all = gradual-deltas rs (t +u n) all

-- Once all objects are passed, nothing is counted.
regular_end :
    (rs : List Recorded) (count : ObjectCount)
    → into_regular (record_all rs (ObjectCountBuilder.regular count 0)) ≡ some count
unfolding record_all record_fruit record_droplet record_tiny_droplets into_regular
regular_end [] count = refl
regular_end (Recorded.fruit ∷ rs) count = regular_end rs count
regular_end (Recorded.droplet ∷ rs) count = regular_end rs count
regular_end (Recorded.tiny_droplets n ∷ rs) count = regular_end rs count

module _ (now : ObjectCount) (k : ℕ) where
  regular-fruit :
      record_fruit (ObjectCountBuilder.regular now (suc k))
      ≡ ObjectCountBuilder.regular (record now { fruits = now.fruits +u 1 }) k
  unfolding record_fruit
  regular-fruit =
      let left : ltb 0 (suc k) ≡ true = ground arith in
      let one_less : suc k - 1 ≡ k = omega arith in rw (left, one_less) refl

  regular-droplet :
      record_droplet (ObjectCountBuilder.regular now (suc k))
      ≡ ObjectCountBuilder.regular (record now { droplets = now.droplets +u 1 }) k
  unfolding record_droplet
  regular-droplet =
      let left : ltb 0 (suc k) ≡ true = ground arith in
      let one_less : suc k - 1 ≡ k = omega arith in rw (left, one_less) refl

  regular-tiny_droplets :
      (n : ℕ)
      → record_tiny_droplets n (ObjectCountBuilder.regular now (suc k))
        ≡ ObjectCountBuilder.regular (record now { tiny_droplets = now.tiny_droplets +u n }) (suc k)
  unfolding record_tiny_droplets
  regular-tiny_droplets n = let left : ltb 0 (suc k) ≡ true = ground arith in rw left refl

module _ {A : Type 0} (attrs : CatchDifficultyAttributes A) where
  -- What `b` counts is what the first `k` of `counts` add to `count`.
  abbrev pub Agree : List GradualObjectCount → ObjectCount → ℕ → ObjectCountBuilder → Type 0
  Agree counts count k b =
      (c : ObjectCount) × (into_regular b ≡ some c)
      × (add_all (take k counts) (set_object_count count attrs) ≡ set_object_count c attrs)

  abbrev pub with_tiny : ObjectCount → ℕ → ObjectCount
  with_tiny count n = record count { tiny_droplets = n }

  pub regular_end-Agree :
      (rs : List Recorded) (counts : List GradualObjectCount) (count : ObjectCount)
      → Agree counts count 0 (record_all rs (ObjectCountBuilder.regular count 0))
  unfolding add_all
  regular_end-Agree rs counts count = (count, regular_end rs count, refl)

  -- With `t` tiny droplets counted since the object before.
  abbrev pub AgreeWith : List Recorded → ℕ → ObjectCount → ℕ → Type 0
  AgreeWith rs k count t =
      k < length (deltas rs t)
      → Agree (deltas rs t) count (suc k) (
          record_all rs
            (ObjectCountBuilder.regular (with_tiny count (count.tiny_droplets +u t)) (suc k)))

  -- An object was counted just before, and `k` are left.
  regular-deltas_next :
      (rs : List Recorded) (k : ℕ) (count : ObjectCount) (n t : ℕ)
      → ((j : ℕ) (c : ObjectCount) → AgreeWith rs j c 0)
      → k ≤ length (deltas rs 0)
      → Agree
          (deltas rs 0)
          (with_tiny count (n +u t))
          k
          (record_all rs (ObjectCountBuilder.regular (with_tiny count (n +u t)) k))
  unfolding ◌+u◌
  regular-deltas_next rs zero count n t ih h =
      regular_end-Agree rs (deltas rs 0) (with_tiny count (n +u t))
  regular-deltas_next rs (suc k) count n t ih h =
      let same : n +u t +u 0 ≡ n +u t = omega arith in
      subst
        (λ x.
          Agree (deltas rs 0) (with_tiny count (n +u t)) (suc k)
            (record_all rs (ObjectCountBuilder.regular (with_tiny count x) (suc k))))
        same (ih k (with_tiny count (n +u t)) (omega arith))

  pub regular-deltas :
      (rs : List Recorded) (k : ℕ) (count : ObjectCount) (t : ℕ) → AgreeWith rs k count t
  unfolding record_all deltas set_object_count add_object_count add_all ◌+u◌
  regular-deltas [] k count t h = absurd (omega arith)
  regular-deltas (Recorded.tiny_droplets n ∷ rs) k count t h =
      let now = with_tiny count (count.tiny_droplets +u t) in
      let sum : count.tiny_droplets +u (t +u n) ≡ count.tiny_droplets +u t +u n = omega arith in
      subst (λ b. Agree (deltas rs (t +u n)) count (suc k) (record_all rs b))
        (sym (regular-tiny_droplets now k n))
        (subst
          (λ x.
            Agree (deltas rs (t +u n)) count (suc k)
              (record_all rs (ObjectCountBuilder.regular (with_tiny count x) (suc k))))
          sum (regular-deltas rs k count (t +u n) h))
  regular-deltas (Recorded.fruit ∷ rs) k count t h =
      let now = with_tiny count (count.tiny_droplets +u t) in
      subst (λ b. Agree (deltas (Recorded.fruit ∷ rs) t) count (suc k) (record_all rs b))
        (sym (regular-fruit now k))
        (regular-deltas_next rs k (record count { fruits = count.fruits +u 1 }) count.tiny_droplets
          t (λ j c. regular-deltas rs j c 0) (omega arith))
  regular-deltas (Recorded.droplet ∷ rs) k count t h =
      let now = with_tiny count (count.tiny_droplets +u t) in
      subst (λ b. Agree (deltas (Recorded.droplet ∷ rs) t) count (suc k) (record_all rs b))
        (sym (regular-droplet now k))
        (regular-deltas_next rs k (record count { droplets = count.droplets +u 1 })
          count.tiny_droplets t (λ j c. regular-deltas rs j c 0) (omega arith))
