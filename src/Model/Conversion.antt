-- ===== src/Model/Conversion.antt =====
-- What the conversion of a map to another mode promises.
use mamestagram_pp_rs.Prelude.{
  true, false, Option, none, some, Result, ok, err, ◌≡◌, ◌≢◌, refl, sym, ◌∙◌, inl, inr, subst,
  Bool-cases, Option-cases,
}
use mamestagram_pp_rs.Any.Settings.{GameMode, ConvertError}
use mamestagram_pp_rs.Model.Beatmap.{
  Beatmap, Cow, cow_value, Converters, same_mode, check_mode, run_convert, convert_mut,
  convert_owned, convert_ref,
}

pub same_mode_sound : (a b : GameMode) → same_mode a b ≡ true → a ≡ b
unfolding same_mode
same_mode_sound GameMode.osu GameMode.osu e = refl
same_mode_sound GameMode.osu GameMode.taiko e = cc e
same_mode_sound GameMode.osu GameMode.catch e = cc e
same_mode_sound GameMode.osu GameMode.mania e = cc e
same_mode_sound GameMode.taiko GameMode.osu e = cc e
same_mode_sound GameMode.taiko GameMode.taiko e = refl
same_mode_sound GameMode.taiko GameMode.catch e = cc e
same_mode_sound GameMode.taiko GameMode.mania e = cc e
same_mode_sound GameMode.catch GameMode.osu e = cc e
same_mode_sound GameMode.catch GameMode.taiko e = cc e
same_mode_sound GameMode.catch GameMode.catch e = refl
same_mode_sound GameMode.catch GameMode.mania e = cc e
same_mode_sound GameMode.mania GameMode.osu e = cc e
same_mode_sound GameMode.mania GameMode.taiko e = cc e
same_mode_sound GameMode.mania GameMode.catch e = cc e
same_mode_sound GameMode.mania GameMode.mania e = refl

same_mode_refl : (a : GameMode) → same_mode a a ≡ true
unfolding same_mode
same_mode_refl GameMode.osu = refl
same_mode_refl GameMode.taiko = refl
same_mode_refl GameMode.catch = refl
same_mode_refl GameMode.mania = refl

-- What the checks decide.
abbrev Checked :
    {Content : Type 0}
    → Beatmap Content
    → GameMode
    → Option (Result (Unit {0}) ConvertError)
    → Type 0
Checked map mode (some (ok _)) = map.mode ≡ mode
Checked map mode (some (err e)) = map.mode ≢ mode
Checked map mode none = (map.mode ≡ GameMode.osu) × (mode ≢ GameMode.osu)

check_mode-Checked :
    {Content : Type 0} (map : Beatmap Content) (mode : GameMode)
    → Checked map mode (check_mode map mode)
unfolding check_mode
check_mode-Checked map mode = elim (Bool-cases (same_mode map.mode mode)) [
  | inl e ↦ rw e (same_mode_sound map.mode mode e)
  | inr e ↦
      let differs : map.mode ≢ mode = λ p. cc (e, p, same_mode_refl mode) in
      rw e (elim (Bool-cases map.is_convert) [
        | inl c ↦ rw c differs
        | inr c ↦ rw c (elim (Bool-cases (same_mode map.mode GameMode.osu)) [
          | inl o ↦ rw o (
            same_mode_sound map.mode GameMode.osu o,
            λ q. differs (same_mode_sound map.mode GameMode.osu o ∙ sym q),
          )
          | inr o ↦ rw o differs
        ])
      ])
]

-- Each conversion of the program sets the mode that it converts to.
pub record SetsMode {Mods Content : Type 0} (c : Converters Mods Content) : Type 0 where
  pub taiko : (map : Beatmap Content) → (c.taiko map).mode ≡ GameMode.taiko
  pub catch : (map : Beatmap Content) → (c.catch map).mode ≡ GameMode.catch
  pub mania : (map : Beatmap Content) (mods : Mods) → (c.mania map mods).mode ≡ GameMode.mania

-- A call that does not panic leaves a map of the mode asked for, or the map as it was.
abbrev pub IsConverted :
    {Content : Type 0}
    → Beatmap Content
    → GameMode
    → Option (Beatmap Content × Result (Unit {0}) ConvertError)
    → Type 0
IsConverted map mode none = ⊥
IsConverted map mode (some (map', ok _)) = map'.mode ≡ mode
IsConverted map mode (some (map', err e)) = (map' ≡ map) × (map.mode ≢ mode)

-- The same result by reference: `err` alike, and the map inside.
abbrev pub SameResult :
    {Content : Type 0}
    → Option (Beatmap Content × Result (Unit {0}) ConvertError)
    → Option (Result (Cow (Beatmap Content)) ConvertError)
    → Type 0
SameResult none none = Unit
SameResult (some (map', ok _)) (some (ok c)) = cow_value c ≡ map'
SameResult (some (map', err e)) (some (err e')) = e ≡ e'
SameResult none (some _) = ⊥
SameResult (some _) none = ⊥
SameResult (some (map', ok _)) (some (err _)) = ⊥
SameResult (some (map', err _)) (some (ok _)) = ⊥

module _ {Mods Content : Type 0} (c : Converters Mods Content) where
  run_convert-mode :
      SetsMode c
      → (mode : GameMode) (map : Beatmap Content) (mods : Mods) → mode ≢ GameMode.osu
      → (map' : Beatmap Content) × (run_convert c mode map mods ≡ some map') × (map'.mode ≡ mode)
  unfolding run_convert
  run_convert-mode s GameMode.osu map mods n = absurd (n refl)
  run_convert-mode s GameMode.taiko map mods n = (c.taiko map, refl, s.taiko map)
  run_convert-mode s GameMode.catch map mods n = (c.catch map, refl, s.catch map)
  run_convert-mode s GameMode.mania map mods n = (c.mania map mods, refl, s.mania map mods)

  -- `convert_mut` never reaches `unreachable!()`: it leaves a map of the mode asked for where it
  -- succeeds, and the map as it was, whose mode is another, where it refuses. Each conversion sets the
  -- mode that it converts to.
  pub convert_mut-IsConverted :
      SetsMode c
      → (map : Beatmap Content) (mode : GameMode) (mods : Mods)
      → IsConverted map mode (convert_mut c map mode mods)
  unfolding convert_mut
  convert_mut-IsConverted s map mode mods = elim (Option-cases (check_mode map mode)) [
    | inl e ↦
        let decided : Checked map mode none =
          subst (Checked map mode) e (check_mode-Checked map mode) in
        let (map', ran, set) = run_convert-mode s mode map mods decided.1 in
        rw (e, ran, convert_mut) set
    | inr (ok r, e) ↦ rw (e, convert_mut) (subst (Checked map mode) e (check_mode-Checked map mode))
    | inr (err r, e) ↦
        rw (e, convert_mut) (refl, subst (Checked map mode) e (check_mode-Checked map mode))
  ]

  -- The two matches agree.
  run_convert-convert_owned :
      (mode : GameMode) (map : Beatmap Content) (mods : Mods)
      → run_convert c mode map mods ≡ convert_owned c mode map mods
  unfolding run_convert convert_owned
  run_convert-convert_owned GameMode.osu map mods = refl
  run_convert-convert_owned GameMode.taiko map mods = refl
  run_convert-convert_owned GameMode.catch map mods = refl
  run_convert-convert_owned GameMode.mania map mods = refl

  module _ (map : Beatmap Content) (mode : GameMode) (mods : Mods)
      (e : same_mode map.mode mode ≡ false) (n : map.is_convert ≡ false)
      (o : same_mode map.mode GameMode.osu ≡ true) where
    convert_mut-run :
        convert_mut c map mode mods
        ≡ elim (run_convert c mode map mods) [ none ↦ none | some map' ↦ some (map', ok tt) ]
    unfolding check_mode convert_mut
    convert_mut-run =
        let checked : check_mode map mode ≡ none = rw (e, n, o, check_mode) refl in
        rw (checked, convert_mut) refl

    convert_ref-run : convert_ref c map mode mods ≡ elim (convert_owned c mode map mods) [
      | none ↦ none
      | some map' ↦ some (ok (Cow.owned map'))
    ]
    unfolding convert_ref
    convert_ref-run = simp (e, n, o, convert_ref)

    SameResult-run : SameResult (convert_mut c map mode mods) (convert_ref c map mode mods)
    SameResult-run =
        let alike = run_convert-convert_owned mode map mods in
        rw (convert_mut-run, convert_ref-run, sym alike)
          (elim (Option-cases (run_convert c mode map mods)) [
            | inl ran ↦ rw ran tt
            | inr (map', ran) ↦ rw ran refl
          ])

  -- `convert_ref`, whose checks and conversions are written apart from those of `convert_mut`, refuses
  -- what `convert_mut` refuses, with the same error, and returns the map that `convert_mut` leaves.
  pub convert_ref-convert_mut :
      (map : Beatmap Content) (mode : GameMode) (mods : Mods)
      → SameResult (convert_mut c map mode mods) (convert_ref c map mode mods)
  unfolding check_mode convert_mut convert_ref
  convert_ref-convert_mut map mode mods = elim (Bool-cases (same_mode map.mode mode)) [
    | inl e ↦ rw (e, check_mode, convert_mut, convert_ref) refl
    | inr e ↦ elim (Bool-cases map.is_convert) [
      | inl n ↦ rw (e, n, check_mode, convert_mut, convert_ref) refl
      | inr n ↦ elim (Bool-cases (same_mode map.mode GameMode.osu)) [
        | inl o ↦ SameResult-run map mode mods e n o
        | inr o ↦ rw (e, n, o, check_mode, convert_mut, convert_ref) refl
      ]
    ]
  ]
