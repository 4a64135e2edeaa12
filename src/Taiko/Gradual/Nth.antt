-- ===== src/Taiko/Gradual/Nth.antt =====
-- `TaikoGradualDifficulty`: `nth` does in one go what `next` does object by object.
use mamestagram_pp_rs.Prelude.{
  ℕ, zero, suc, ◌+◌, ◌-◌, ◌≤◌, ◌<◌, ◌≡◌, refl, sym, ap, ap₂, ◌∙◌, min, true, false, Option, some,
  length, leb, ◌==◌, arith, inl, inr, Bool-cases, next_after, next_after_step,
}
use mamestagram_pp_rs.Taiko.Performance.{TaikoDifficultyAttributes}
use mamestagram_pp_rs.Taiko.Gradual.{
  FirstTwoCombos, TaikoParts, Gradual, combo_after, combo_second, with_combo, finish, len,
  pass_hits, pass_first, nth,
}
use mamestagram_pp_rs.Taiko.Gradual.Hits.{called, next-early, pass_hits-next_after}

module _ {Content Mods A R Slider Extra Skills : Type 0}
    (parts : TaikoParts Content Mods A R Slider Extra Skills) where
  -- The state after the first object, or the second one.
  abbrev passed : Gradual parts → Gradual parts
  passed s =
      let combo = combo_after s.first_combos (s.idx == 0) s.attrs.max_combo in
      record (with_combo parts combo s) { idx = s.idx + 1 }

  next_after-early :
      (k : ℕ) (s : Gradual parts)
      → s.idx < 2
      → 0 < length s.diff_objects
      → next_after (called parts) (suc k) s ≡ next_after (called parts) k (passed s)
  unfolding finish
  next_after-early k s h p =
      next_after_step (called parts) k s _ _ (ap some (next-early parts s h p))

  combo_second-next :
      (combos : FirstTwoCombos) (combo : ℕ)
      → combo_second combos combo ≡ combo_after combos false combo
  unfolding combo_second combo_after
  combo_second-next FirstTwoCombos.neither combo = refl
  combo_second-next FirstTwoCombos.only_first combo = refl
  combo_second-next FirstTwoCombos.only_second combo = refl
  combo_second-next FirstTwoCombos.both combo = refl

  combo_second-both :
      (combos : FirstTwoCombos) (combo : ℕ)
      → combo_second combos combo ≡ combo_after combos false (combo_after combos true combo)
  unfolding combo_second combo_after
  combo_second-both FirstTwoCombos.neither combo = refl
  combo_second-both FirstTwoCombos.only_first combo = refl
  combo_second-both FirstTwoCombos.only_second combo = refl
  combo_second-both FirstTwoCombos.both combo = refl

  pass_first-none : (s : Gradual parts) → s.idx < 2 → pass_first parts 0 s ≡ (0, s)
  unfolding pass_first
  pass_first-none s h = let early : leb 2 s.idx ≡ false = ground arith in rw early refl

  pass_first-second :
      (j : ℕ) (s : Gradual parts)
      → s.idx ≡ 1
      → pass_first parts (suc j) s ≡ (
        j,
        record (with_combo parts (combo_second s.first_combos s.attrs.max_combo) s) {
          idx = s.idx + 1;
        },
      )
  unfolding pass_first
  pass_first-second j s e =
      let early : leb 2 s.idx ≡ false = ground arith in
      let second : (s.idx == 1) ≡ true = ground arith in
      let some_left : (suc j == 0) ≡ false = ground arith in
      let one_less : suc j - 1 ≡ j = omega arith in rw (early, second, some_left, one_less) refl

  pass_first-one :
      (s : Gradual parts)
      → s.idx ≡ 0
      → pass_first parts 1 s ≡ (
        0,
        record (with_combo parts (combo_after s.first_combos true s.attrs.max_combo) s) {
          idx = s.idx + 1;
        },
      )
  unfolding pass_first
  pass_first-one s e =
      let early : leb 2 s.idx ≡ false = ground arith in
      let first : (s.idx == 1) ≡ false = ground arith in rw (early, first) refl

  pass_first-both :
      (j : ℕ) (s : Gradual parts)
      → s.idx ≡ 0
      → pass_first parts (suc (suc j)) s ≡ (
        j,
        record (with_combo parts (combo_second s.first_combos s.attrs.max_combo) s) {
          idx = s.idx + 2;
        },
      )
  unfolding pass_first
  pass_first-both j s e =
      let early : leb 2 s.idx ≡ false = ground arith in
      let first : (s.idx == 1) ≡ false = ground arith in
      let some_left : (suc (suc j) == 0) ≡ false = ground arith in
      let two_left : (suc (suc j) == 1) ≡ false = ground arith in
      let two_less : suc (suc j) - 2 ≡ j = omega arith in
      rw (early, first, some_left, two_left, two_less) refl

  -- What `nth` does after its match on the objects passed.
  abbrev go_on : ℕ × Gradual parts → Option (Option (TaikoDifficultyAttributes A) × Gradual parts)
  go_on (n_take, s) = some (pass_hits parts n_take s)

  abbrev at_combo : ℕ → ℕ → Gradual parts → Gradual parts
  at_combo combo idx s = record (with_combo parts combo s) { idx = idx }

  go_on-second :
      (j : ℕ) (s : Gradual parts)
      → s.idx ≡ 1
      → 0 < length s.diff_objects
      → go_on (pass_first parts (suc j) s) ≡ next_after (called parts) (suc j) s
  go_on-second j s e p =
      let c = s.attrs.max_combo in
      let later : false ≡ (s.idx == 0) = ground arith in
      ap go_on (pass_first-second j s e)
      ∙ pass_hits-next_after parts j _ (omega arith)
      ∙ ap (λ combo. next_after (called parts) j (at_combo combo (s.idx + 1) s))
          (combo_second-next s.first_combos c ∙ ap (λ b. combo_after s.first_combos b c) later)
      ∙ sym (next_after-early j s (omega arith) p)

  go_on-one :
      (s : Gradual parts)
      → s.idx ≡ 0
      → 0 < length s.diff_objects
      → go_on (pass_first parts 1 s) ≡ next_after (called parts) 1 s
  unfolding pass_hits
  go_on-one s e p =
      let c = s.attrs.max_combo in
      let first : true ≡ (s.idx == 0) = ground arith in
      ap go_on (pass_first-one s e)
      ∙ ap (λ combo. (called parts) (at_combo combo (s.idx + 1) s))
          (ap (λ b. combo_after s.first_combos b c) first)
      ∙ sym (next_after-early 0 s (omega arith) p)

  go_on-both :
      (j : ℕ) (s : Gradual parts)
      → s.idx ≡ 0
      → 0 < length s.diff_objects
      → go_on (pass_first parts (suc (suc j)) s) ≡ next_after (called parts) (suc (suc j)) s
  go_on-both j s e p =
      let c = s.attrs.max_combo in
      let first : true ≡ (s.idx == 0) = ground arith in
      let later : false ≡ (s.idx + 1 == 0) = ground arith in
      let two : s.idx + 2 ≡ s.idx + 1 + 1 = omega arith in
      ap go_on (pass_first-both j s e)
      ∙ pass_hits-next_after parts j _ (omega arith)
      ∙ ap₂ (λ combo i. next_after (called parts) j (at_combo combo i s))
          (combo_second-both s.first_combos c
            ∙ ap₂ (λ b b'. combo_after s.first_combos b (combo_after s.first_combos b' c)) later
                first)
          two
      ∙ sym (
          next_after-early (suc j) s (omega arith) p
          ∙ next_after-early j (passed s) (omega arith) p)

  go_on-first :
      (j : ℕ) (s : Gradual parts)
      → s.idx ≡ 0
      → 0 < length s.diff_objects
      → go_on (pass_first parts (suc j) s) ≡ next_after (called parts) (suc j) s
  go_on-first zero s e p = go_on-one s e p
  go_on-first (suc j) s e p = go_on-both j s e p

  -- The first two objects are passed as by `next`, however many are to be passed.
  go_on-early :
      (k : ℕ) (s : Gradual parts)
      → s.idx < 2
      → 0 < length s.diff_objects
      → go_on (pass_first parts k s) ≡ next_after (called parts) k s
  unfolding pass_hits
  go_on-early zero s h p = ap go_on (pass_first-none s h)
  go_on-early (suc j) s h p = elim (Bool-cases (s.idx == 1)) [
    | inl second ↦ go_on-second j s (ground (arith, second)) p
    | inr first ↦ go_on-first j s (ground (arith, first)) p
  ]

  go_on-late :
      (k : ℕ) (s : Gradual parts)
      → 2 ≤ s.idx
      → go_on (pass_first parts k s) ≡ next_after (called parts) k s
  unfolding pass_first
  go_on-late k s h =
      let late : leb 2 s.idx ≡ true = ground arith in
      rw (late, pass_first) (pass_hits-next_after parts k s h)

  -- `nth` is the call of `next` after the given number of others, or after one less than `len` if that is
  -- less, for a map that has a difficulty object.
  pub nth-next_after_taiko :
      (s : Gradual parts) (n : ℕ)
      → 0 < length s.diff_objects
      → some (nth parts s n) ≡ next_after (called parts) (min n (len parts s - 1)) s
  unfolding nth
  nth-next_after_taiko s n p = elim (Bool-cases (leb 2 s.idx)) [
    | inl late ↦ go_on-late (min n (len parts s - 1)) s (ground (arith, late))
    | inr early ↦ go_on-early (min n (len parts s - 1)) s (ground (arith, early)) p
  ]
