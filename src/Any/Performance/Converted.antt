-- ===== src/Any/Performance/Converted.antt =====
-- What the conversion of a calculator to another mode keeps.
use mamestagram_pp_rs.Prelude.{
  Option, none, some, Result, ok, err, ◌≡◌, refl, ap, ◌∙◌, ◌⊎◌, inl, inr,
}
use mamestagram_pp_rs.Any.Settings.{GameMode, ConvertError, MapOrAttrs, of_map, of_attrs}
use mamestagram_pp_rs.Any.Performance.{Performance, osu, taiko, catch, mania}
use mamestagram_pp_rs.Any.Performance.Convert.{
  OsuOf, AnyOf, Outcome, map_ok, map_err, try_convert_map, try_taiko, try_catch, try_mania,
  osu_try_mode, try_mode,
}
use mamestagram_pp_rs.Osu.Performance.{OsuDifficultyAttributes}
use mamestagram_pp_rs.Model.Beatmap.{Beatmap, Cow, Converters, convert_ref, convert_mut}
use mamestagram_pp_rs.Model.Conversion.{
  SetsMode, IsConverted, SameResult, convert_mut-IsConverted, convert_ref-convert_mut,
}

-- The mode that a calculator is of.
abbrev pub mode_of : {Map Mods A R : Type 0} → Performance Map Mods A R → GameMode
mode_of (osu _) = GameMode.osu
mode_of (taiko _) = GameMode.taiko
mode_of (catch _) = GameMode.catch
mode_of (mania _) = GameMode.mania

-- A refusal returns what was to be converted, and nothing panics.
abbrev pub Keeps : {T E : Type 0} → E → (T → Type 0) → Outcome T E → Type 0
Keeps e Good none = ⊥
Keeps e Good (some (ok t)) = Good t
Keeps e Good (some (err e')) = e' ≡ e

abbrev pub IsMode : {Content : Type 0} → GameMode → Cow (Beatmap Content) → Type 0
IsMode mode (Cow.borrowed map) = map.mode ≡ mode
IsMode mode (Cow.owned map) = map.mode ≡ mode

-- A calculator that has a map of a mode, not attributes.
abbrev pub HasMap :
    {Content Attrs : Type 0} → GameMode → MapOrAttrs (Cow (Beatmap Content)) Attrs → Type 0
HasMap mode (of_map map) = IsMode mode map
HasMap mode (of_attrs _) = ⊥

abbrev pub HasMapOf : {Mods Content A R : Type 0} → GameMode → AnyOf Mods Content A R → Type 0
HasMapOf mode (osu o) = HasMap mode o.map_or_attrs
HasMapOf mode (taiko t) = HasMap mode t.map_or_attrs
HasMapOf mode (catch f) = HasMap mode f.map_or_attrs
HasMapOf mode (mania m) = HasMap mode m.map_or_attrs

module _ {Mods Content : Type 0} (converters : Converters Mods Content)
    (sets : SetsMode converters) where
  try_convert_map-Keeps :
      {Attrs : Type 0} (m : MapOrAttrs (Cow (Beatmap Content)) Attrs) (mode : GameMode)
      (mods : Mods)
      → Keeps m (IsMode mode) (try_convert_map converters m mode mods)
  unfolding try_convert_map
  try_convert_map-Keeps (of_attrs attrs) mode mods = refl
  try_convert_map-Keeps {Attrs} (of_map (Cow.borrowed map)) mode mods =
      by_result (convert_mut converters map mode mods) (convert_ref converters map mode mods)
        (convert_mut-IsConverted converters sets map mode mods)
        (convert_ref-convert_mut converters map mode mods) refl
    where
      by_result :
          (r : Option (Beatmap Content × Result (Unit {0}) ConvertError))
          (s : Option (Result (Cow (Beatmap Content)) ConvertError))
          → IsConverted map mode r
          → SameResult r s
          → convert_ref converters map mode mods ≡ s
          → Keeps {E = MapOrAttrs (Cow (Beatmap Content)) Attrs}
              (of_map (Cow.borrowed map))
              (IsMode mode)
              (try_convert_map converters (of_map (Cow.borrowed map)) mode mods)
      by_result (some (m, ok _)) (some (ok (Cow.borrowed n))) i j e =
          rw (e, try_convert_map) (ap (λ b. b.mode) j ∙ i)
      by_result (some (m, ok _)) (some (ok (Cow.owned n))) i j e =
          rw (e, try_convert_map) (ap (λ b. b.mode) j ∙ i)
      by_result (some (m, err x)) (some (err y)) i j e = rw (e, try_convert_map) refl
      by_result none s i j e = absurd i
      by_result (some (m, ok _)) none i j e = absurd j
      by_result (some (m, err _)) none i j e = absurd j
      by_result (some (m, ok _)) (some (err _)) i j e = absurd j
      by_result (some (m, err _)) (some (ok _)) i j e = absurd j
  try_convert_map-Keeps {Attrs} (of_map (Cow.owned map)) mode mods =
      by_result (convert_mut converters map mode mods)
        (convert_mut-IsConverted converters sets map mode mods) refl
    where
      by_result :
          (r : Option (Beatmap Content × Result (Unit {0}) ConvertError))
          → IsConverted map mode r
          → convert_mut converters map mode mods ≡ r
          → Keeps {E = MapOrAttrs (Cow (Beatmap Content)) Attrs}
              (of_map (Cow.owned map))
              (IsMode mode)
              (try_convert_map converters (of_map (Cow.owned map)) mode mods)
      by_result (some (m, ok _)) i e = rw (e, try_convert_map) i
      by_result (some (m, err _)) i e = rw (e, try_convert_map) (ap (λ b. of_map (Cow.owned b)) i.0)
      by_result none i e = absurd i

  module _ {A R : Type 0} where
    try_taiko-Keeps :
        (o : OsuOf Mods Content A R)
        → Keeps o (λ t. HasMap GameMode.taiko t.map_or_attrs) (try_taiko converters o)
    unfolding try_taiko
    try_taiko-Keeps o =
        by_result (try_convert_map converters o.map_or_attrs GameMode.taiko o.difficulty.mods)
          (try_convert_map-Keeps o.map_or_attrs GameMode.taiko o.difficulty.mods) refl
      where
        by_result :
            (r : Outcome
              (Cow (Beatmap Content))
              (MapOrAttrs (Cow (Beatmap Content)) (OsuDifficultyAttributes A)))
            → Keeps o.map_or_attrs (IsMode GameMode.taiko) r
            → try_convert_map converters o.map_or_attrs GameMode.taiko o.difficulty.mods ≡ r
            → Keeps o (λ t. HasMap GameMode.taiko t.map_or_attrs) (try_taiko converters o)
        by_result none k e = absurd k
        by_result (some (ok map)) k e = rw (e, try_taiko) k
        by_result (some (err x)) k e = rw (e, try_taiko) (ap (λ y. record o { map_or_attrs = y }) k)

    try_catch-Keeps :
        (o : OsuOf Mods Content A R)
        → Keeps o (λ t. HasMap GameMode.catch t.map_or_attrs) (try_catch converters o)
    unfolding try_catch
    try_catch-Keeps o =
        by_result (try_convert_map converters o.map_or_attrs GameMode.catch o.difficulty.mods)
          (try_convert_map-Keeps o.map_or_attrs GameMode.catch o.difficulty.mods) refl
      where
        by_result :
            (r : Outcome
              (Cow (Beatmap Content))
              (MapOrAttrs (Cow (Beatmap Content)) (OsuDifficultyAttributes A)))
            → Keeps o.map_or_attrs (IsMode GameMode.catch) r
            → try_convert_map converters o.map_or_attrs GameMode.catch o.difficulty.mods ≡ r
            → Keeps o (λ t. HasMap GameMode.catch t.map_or_attrs) (try_catch converters o)
        by_result none k e = absurd k
        by_result (some (ok map)) k e = rw (e, try_catch) k
        by_result (some (err x)) k e = rw (e, try_catch) (ap (λ y. record o { map_or_attrs = y }) k)

    try_mania-Keeps :
        (o : OsuOf Mods Content A R)
        → Keeps o (λ t. HasMap GameMode.mania t.map_or_attrs) (try_mania converters o)
    unfolding try_mania
    try_mania-Keeps o =
        by_result (try_convert_map converters o.map_or_attrs GameMode.mania o.difficulty.mods)
          (try_convert_map-Keeps o.map_or_attrs GameMode.mania o.difficulty.mods) refl
      where
        by_result :
            (r : Outcome
              (Cow (Beatmap Content))
              (MapOrAttrs (Cow (Beatmap Content)) (OsuDifficultyAttributes A)))
            → Keeps o.map_or_attrs (IsMode GameMode.mania) r
            → try_convert_map converters o.map_or_attrs GameMode.mania o.difficulty.mods ≡ r
            → Keeps o (λ t. HasMap GameMode.mania t.map_or_attrs) (try_mania converters o)
        by_result none k e = absurd k
        by_result (some (ok map)) k e = rw (e, try_mania) k
        by_result (some (err x)) k e = rw (e, try_mania) (ap (λ y. record o { map_or_attrs = y }) k)

    lift_Keeps :
        {T : Type 0} (build : T → AnyOf Mods Content A R) (Good : T → Type 0)
        (Better : AnyOf Mods Content A R → Type 0) (o : OsuOf Mods Content A R)
        (r : Outcome T (OsuOf Mods Content A R))
        → ((t : T) → Good t → Better (build t))
        → Keeps o Good r
        → Keeps {T = AnyOf Mods Content A R} (osu o) Better (map_err osu (map_ok build r))
    lift_Keeps build Good Better o none better k = absurd k
    lift_Keeps build Good Better o (some (ok t)) better k = better t k
    lift_Keeps build Good Better o (some (err x)) better k = ap osu k

    -- `Performance::try_mode` does not panic. It refuses by returning the calculator as it was; otherwise
    -- the result is of the mode asked for, and is the calculator as it was or has a map of that mode. Each
    -- conversion of a map sets the mode that it converts to.
    pub try_mode-Keeps :
        (p : AnyOf Mods Content A R) (mode : GameMode)
        → Keeps p
            (λ q. (mode_of q ≡ mode) × ((q ≡ p) ⊎ HasMapOf mode q))
            (try_mode converters p mode)
    unfolding try_mode osu_try_mode
    try_mode-Keeps (osu o) GameMode.osu = (refl, inl refl)
    try_mode-Keeps (osu o) GameMode.taiko =
        lift_Keeps taiko _ _ o (try_taiko converters o) (λ t k. (refl, inr k)) (try_taiko-Keeps o)
    try_mode-Keeps (osu o) GameMode.catch =
        lift_Keeps catch _ _ o (try_catch converters o) (λ t k. (refl, inr k)) (try_catch-Keeps o)
    try_mode-Keeps (osu o) GameMode.mania =
        lift_Keeps mania _ _ o (try_mania converters o) (λ t k. (refl, inr k)) (try_mania-Keeps o)
    try_mode-Keeps (taiko t) GameMode.osu = refl
    try_mode-Keeps (taiko t) GameMode.taiko = (refl, inl refl)
    try_mode-Keeps (taiko t) GameMode.catch = refl
    try_mode-Keeps (taiko t) GameMode.mania = refl
    try_mode-Keeps (catch f) GameMode.osu = refl
    try_mode-Keeps (catch f) GameMode.taiko = refl
    try_mode-Keeps (catch f) GameMode.catch = (refl, inl refl)
    try_mode-Keeps (catch f) GameMode.mania = refl
    try_mode-Keeps (mania m) GameMode.osu = refl
    try_mode-Keeps (mania m) GameMode.taiko = refl
    try_mode-Keeps (mania m) GameMode.catch = refl
    try_mode-Keeps (mania m) GameMode.mania = (refl, inl refl)
