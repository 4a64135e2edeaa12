-- ===== src/Taiko/Gradual/Length.antt =====
-- `TaikoGradualDifficulty::len` against the calls of `next` that return attributes.
use mamestagram_pp_rs.Prelude.{
  ℕ, zero, suc, ◌+◌, ◌-◌, ◌%◌, ◌^◌, ◌≤◌, ◌<◌, ◌≡◌, refl, sym, ap, ◌∙◌, subst, Option, none, some,
  List, [], ◌∷◌, length, not, arith, inl, inr, Bool-cases, next_after, next_after_step,
}
use mamestagram_pp_rs.Any.Settings.{Difficulty}
use mamestagram_pp_rs.Model.Beatmap.{Beatmap}
use mamestagram_pp_rs.Model.HitObject.{HitObject, is_circle}
use mamestagram_pp_rs.Taiko.Performance.{TaikoDifficultyAttributes}
use mamestagram_pp_rs.Taiko.Gradual.{TaikoParts, Gradual, next, len, count_circles, of_map}
use mamestagram_pp_rs.Taiko.Gradual.Hits.{called}
use mamestagram_pp_rs.Taiko.Gradual.Steps.{hits, one_if, left, Passes, next-Passes_taiko}

module _ {Content Mods A R Slider Extra Skills : Type 0}
    (parts : TaikoParts Content Mods A R Slider Extra Skills) where
  -- A call that returns attributes, and one that returns nothing.
  abbrev pub IsItem : Option (Option (TaikoDifficultyAttributes A) × Gradual parts) → Type 0
  IsItem r =
      (attrs : TaikoDifficultyAttributes A) × (t : Gradual parts) × (r ≡ some (some attrs, t))

  abbrev pub IsEnd : Option (Option (TaikoDifficultyAttributes A) × Gradual parts) → Type 0
  IsEnd r = (t : Gradual parts) × (r ≡ some (none, t))

  -- What the next call returns while something is left, and the state after it.
  abbrev Going : Gradual parts → Option (TaikoDifficultyAttributes A) × Gradual parts → Type 0
  Going s r =
      (attrs : TaikoDifficultyAttributes A) × (t : Gradual parts) × (r ≡ (some attrs, t))
      × (left s ≡ suc (left t))
      × (t.diff_objects ≡ s.diff_objects)

  Passes-Going :
      (s : Gradual parts) (r : Option (TaikoDifficultyAttributes A) × Gradual parts)
      → Passes parts s r
      → 0 < left s
      → Going s r
  Passes-Going s (none, t) (e, e') more = absurd (omega arith)
  Passes-Going s (some attrs, t) (e, same) more = (attrs, t, refl, e, same)

  Passes-IsEnd :
      (s : Gradual parts) (r : Option (TaikoDifficultyAttributes A) × Gradual parts)
      → Passes parts s r
      → left s ≡ 0
      → IsEnd (some r)
  Passes-IsEnd s (none, t) h over = (t, refl)
  Passes-IsEnd s (some attrs, t) (e, same) over = absurd (omega arith)

  next-Going : (s : Gradual parts) → 0 < length s.diff_objects → 0 < left s → Going s (next parts s)
  next-Going s p more = Passes-Going s (next parts s) (next-Passes_taiko parts s p) more

  next_after-IsItem :
      (k : ℕ) (s : Gradual parts)
      → 0 < length s.diff_objects
      → k < left s
      → IsItem (next_after (called parts) k s)
  next_after-IsItem zero s p h = let (attrs, t, e, _, _) = next-Going s p h in (attrs, t, ap some e)
  next_after-IsItem (suc k) s p h =
      let (attrs, t, e, fewer, same) = next-Going s p (omega arith) in
      subst IsItem (sym (next_after_step (called parts) k s t (some attrs) (ap some e)))
        (next_after-IsItem k t (omega (arith, p, ap length same)) (omega (arith, h, fewer)))

  next_after-IsEnd :
      (k : ℕ) (s : Gradual parts)
      → 0 < length s.diff_objects
      → k ≡ left s
      → IsEnd (next_after (called parts) k s)
  next_after-IsEnd zero s p h = Passes-IsEnd s (next parts s) (next-Passes_taiko parts s p) (sym h)
  next_after-IsEnd (suc k) s p h =
      let (attrs, t, e, fewer, same) = next-Going s p (omega arith) in
      subst IsEnd (sym (next_after_step (called parts) k s t (some attrs) (ap some e)))
        (next_after-IsEnd k t (omega (arith, p, ap length same)) (omega (arith, h, fewer)))

  count_circles-cons :
      (h : HitObject A Slider) (hs : List (HitObject A Slider))
      → count_circles (h ∷ hs) + one_if (not (is_circle h.kind)) ≡ suc (count_circles hs)
  unfolding count_circles
  count_circles-cons h hs = elim (Bool-cases (is_circle h.kind)) [
    | inl t ↦ rw (t, count_circles) (omega arith)
    | inr t ↦ rw (t, count_circles) (omega arith)
  ]

  count_circles_le : (hs : List (HitObject A Slider)) → count_circles hs ≤ length hs
  unfolding count_circles
  count_circles_le [] = omega arith
  count_circles_le (h ∷ hs) = omega (arith, count_circles-cons h hs, count_circles_le hs)

  -- `len` at the start, plus one for each of the first two objects that is no circle.
  abbrev pub returned :
      Difficulty Mods A R → Beatmap Content → HitObject A Slider → HitObject A Slider → ℕ
  returned difficulty beatmap first second =
      len parts (of_map parts difficulty beatmap)
      + one_if (not (is_circle first.kind))
      + one_if (not (is_circle second.kind))

  module _ (difficulty : Difficulty Mods A R) (beatmap : Beatmap Content)
      (first second : HitObject A Slider) (rest : List (HitObject A Slider))
      (e : parts.hit_objects beatmap.content ≡ first ∷ second ∷ rest)
      (made : hits (parts.create_difficulty_objects difficulty beatmap) ≡ count_circles rest)
      (few : length rest + 2 < 2 ^ 64) where
    returned-left :
        returned difficulty beatmap first second ≡ left (of_map parts difficulty beatmap)
    unfolding len of_map
    returned-left =
        let total : ℕ = count_circles (parts.hit_objects beatmap.content) in
        let same : total ≡ count_circles (first ∷ second ∷ rest) = ap count_circles e in
        let fits : total < 2 ^ 64 = omega (
          arith,
          count_circles-cons first (second ∷ rest),
          count_circles-cons second rest,
          count_circles_le rest,
        ) in
        let whole : (total + 2 ^ 64 - 0) % 2 ^ 64 ≡ total = omega arith in
        ap (λ n. n + one_if (not (is_circle first.kind)) + one_if (not (is_circle second.kind)))
          whole
        ∙ omega
            (arith, count_circles-cons first (second ∷ rest), count_circles-cons second rest, made)

    -- From the start, the first n calls of `next` return attributes and the call after them returns
    -- nothing, where n is `len` plus one for each of the first two objects that is no circle. The map
    -- has two objects or more, fewer than 2 ^ 64, and at least one difficulty object; among the
    -- difficulty objects there are as many hits as circles among the objects after the second one.
    pub next-len_taiko :
        0 < length (parts.create_difficulty_objects difficulty beatmap)
        → let s = of_map parts difficulty beatmap in
          let n = returned difficulty beatmap first second in
          ((k : ℕ) → k < n → IsItem (next_after (called parts) k s))
          × IsEnd (next_after (called parts) n s)
    unfolding of_map
    next-len_taiko p =
        let s : Gradual parts = of_map parts difficulty beatmap in
        (
          λ k h. next_after-IsItem k s p (omega (arith, returned-left, h)),
          next_after-IsEnd (returned difficulty beatmap first second) s p returned-left,
        )
