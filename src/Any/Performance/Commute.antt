-- ===== src/Any/Performance/Commute.antt =====
-- `mode_or_ignore` against `try_mode`, and the conversion of a calculator against six of its setters. The
-- setters of n_katu and n_geki, which do nothing on a calculator of osu!standard and set a count on one
-- of osu!mania, and those of the ticks and slider ends are left out.
use mamestagram_pp_rs.Prelude.{ℕ, Option, none, some, ok, err, ◌≡◌, refl, inl, inr, Option-cases}
use mamestagram_pp_rs.Any.Settings.{GameMode, HitResultPriority}
use mamestagram_pp_rs.Any.Performance.{Performance, osu, taiko, catch, mania}
use mamestagram_pp_rs.Any.Performance as Setters
use mamestagram_pp_rs.Any.Performance.Convert.{
  OsuOf, AnyOf, Outcome, map_ok, map_err, map_or_else, try_convert_map, try_taiko, try_catch,
  try_mania, osu_try_mode, osu_mode_or_ignore, try_mode, mode_or_ignore,
}
use mamestagram_pp_rs.Model.Beatmap.{Converters}

-- The value of a result, whether `ok` or `err`.
abbrev pub either : {T : Type 0} → Outcome T T → Option T
either none = none
either (some (ok t)) = some t
either (some (err t)) = some t

-- The same change of either value.
abbrev pub map_both : {T : Type 0} → (T → T) → Outcome T T → Outcome T T
map_both f r = map_err f (map_ok f r)

module _ {Mods Content A R : Type 0} (converters : Converters Mods Content) where
  map_or_else-either :
      {T : Type 0} (build : T → AnyOf Mods Content A R) (r : Outcome T (OsuOf Mods Content A R))
      → map_or_else osu build r ≡ either (map_err osu (map_ok build r))
  map_or_else-either build none = refl
  map_or_else-either build (some (ok t)) = refl
  map_or_else-either build (some (err o)) = refl

  -- `mode_or_ignore` is what `try_mode` returns, whether converted or refused.
  pub mode_or_ignore-try_mode :
      (p : AnyOf Mods Content A R) (mode : GameMode)
      → mode_or_ignore converters p mode ≡ either (try_mode converters p mode)
  unfolding mode_or_ignore try_mode osu_mode_or_ignore osu_try_mode
  mode_or_ignore-try_mode (osu o) GameMode.osu = refl
  mode_or_ignore-try_mode (osu o) GameMode.taiko = map_or_else-either taiko (try_taiko converters o)
  mode_or_ignore-try_mode (osu o) GameMode.catch = map_or_else-either catch (try_catch converters o)
  mode_or_ignore-try_mode (osu o) GameMode.mania = map_or_else-either mania (try_mania converters o)
  mode_or_ignore-try_mode (taiko t) GameMode.osu = refl
  mode_or_ignore-try_mode (taiko t) GameMode.taiko = refl
  mode_or_ignore-try_mode (taiko t) GameMode.catch = refl
  mode_or_ignore-try_mode (taiko t) GameMode.mania = refl
  mode_or_ignore-try_mode (catch f) GameMode.osu = refl
  mode_or_ignore-try_mode (catch f) GameMode.taiko = refl
  mode_or_ignore-try_mode (catch f) GameMode.catch = refl
  mode_or_ignore-try_mode (catch f) GameMode.mania = refl
  mode_or_ignore-try_mode (mania m) GameMode.osu = refl
  mode_or_ignore-try_mode (mania m) GameMode.taiko = refl
  mode_or_ignore-try_mode (mania m) GameMode.catch = refl
  mode_or_ignore-try_mode (mania m) GameMode.mania = refl

  -- Setting n300, n100, n50, the misses, the combo or the hit result priority commutes with converting
  -- the calculator, whether the conversion succeeds, is refused or panics.
  pub try_mode-setters :
      (p : AnyOf Mods Content A R) (mode : GameMode) (n : ℕ) (priority : HitResultPriority)
      → (try_mode converters (Setters.n300 p n) mode
          ≡ map_both (λ q. Setters.n300 q n) (try_mode converters p mode))
        × (try_mode converters (Setters.n100 p n) mode
            ≡ map_both (λ q. Setters.n100 q n) (try_mode converters p mode))
        × (try_mode converters (Setters.n50 p n) mode
            ≡ map_both (λ q. Setters.n50 q n) (try_mode converters p mode))
        × (try_mode converters (Setters.misses p n) mode
            ≡ map_both (λ q. Setters.misses q n) (try_mode converters p mode))
        × (try_mode converters (Setters.combo p n) mode
            ≡ map_both (λ q. Setters.combo q n) (try_mode converters p mode))
        × (try_mode converters (Setters.hitresult_priority p priority) mode
            ≡ map_both (λ q. Setters.hitresult_priority q priority) (try_mode converters p mode))
  unfolding try_mode osu_try_mode Setters.n300 Setters.n100 Setters.n50 Setters.misses Setters.combo
      Setters.hitresult_priority
  try_mode-setters (osu o) GameMode.osu n priority = (refl, refl, refl, refl, refl, refl)
  try_mode-setters (osu o) GameMode.taiko n priority =
      elim (Option-cases
        (try_convert_map converters o.map_or_attrs GameMode.taiko o.difficulty.mods)) [
          | inl e ↦ rw (e, try_taiko) (refl, refl, refl, refl, refl, refl)
          | inr (ok map, e) ↦ rw (e, try_taiko) (refl, refl, refl, refl, refl, refl)
          | inr (err x, e) ↦ rw (e, try_taiko) (refl, refl, refl, refl, refl, refl)
        ]
  try_mode-setters (osu o) GameMode.catch n priority =
      elim (Option-cases
        (try_convert_map converters o.map_or_attrs GameMode.catch o.difficulty.mods)) [
          | inl e ↦ rw (e, try_catch) (refl, refl, refl, refl, refl, refl)
          | inr (ok map, e) ↦ rw (e, try_catch) (refl, refl, refl, refl, refl, refl)
          | inr (err x, e) ↦ rw (e, try_catch) (refl, refl, refl, refl, refl, refl)
        ]
  try_mode-setters (osu o) GameMode.mania n priority =
      elim (Option-cases
        (try_convert_map converters o.map_or_attrs GameMode.mania o.difficulty.mods)) [
          | inl e ↦ rw (e, try_mania) (refl, refl, refl, refl, refl, refl)
          | inr (ok map, e) ↦ rw (e, try_mania) (refl, refl, refl, refl, refl, refl)
          | inr (err x, e) ↦ rw (e, try_mania) (refl, refl, refl, refl, refl, refl)
        ]
  try_mode-setters (taiko t) GameMode.osu n priority = (refl, refl, refl, refl, refl, refl)
  try_mode-setters (taiko t) GameMode.taiko n priority = (refl, refl, refl, refl, refl, refl)
  try_mode-setters (taiko t) GameMode.catch n priority = (refl, refl, refl, refl, refl, refl)
  try_mode-setters (taiko t) GameMode.mania n priority = (refl, refl, refl, refl, refl, refl)
  try_mode-setters (catch f) GameMode.osu n priority = (refl, refl, refl, refl, refl, refl)
  try_mode-setters (catch f) GameMode.taiko n priority = (refl, refl, refl, refl, refl, refl)
  try_mode-setters (catch f) GameMode.catch n priority = (refl, refl, refl, refl, refl, refl)
  try_mode-setters (catch f) GameMode.mania n priority = (refl, refl, refl, refl, refl, refl)
  try_mode-setters (mania m) GameMode.osu n priority = (refl, refl, refl, refl, refl, refl)
  try_mode-setters (mania m) GameMode.taiko n priority = (refl, refl, refl, refl, refl, refl)
  try_mode-setters (mania m) GameMode.catch n priority = (refl, refl, refl, refl, refl, refl)
  try_mode-setters (mania m) GameMode.mania n priority = (refl, refl, refl, refl, refl, refl)
