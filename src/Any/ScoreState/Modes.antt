-- ===== src/Any/ScoreState/Modes.antt =====
-- What `ScoreState` keeps of the counts of a mode.
use mamestagram_pp_rs.Prelude.{ℕ, ◌+◌, ◌^◌, ◌<◌, ◌≡◌, refl, arith, ◌+u◌, ◌*u◌}
use mamestagram_pp_rs.F64.{F64, InUnit, IsIeee}
use mamestagram_pp_rs.Any.Settings.{GameMode, osu, taiko, catch, mania}
use mamestagram_pp_rs.Osu.ScoreState.{OsuScoreState}
use mamestagram_pp_rs.Taiko.Performance.{TaikoScoreState}
use mamestagram_pp_rs.Taiko.Performance as TaikoSearch
use mamestagram_pp_rs.Catch.Performance as CatchSearch
use mamestagram_pp_rs.Catch.Performance.{CatchScoreState}
use mamestagram_pp_rs.Mania.ScoreState.{ManiaScoreState}
use mamestagram_pp_rs.Any.ScoreState.{
  ScoreState, total_hits, same_mode, to_osu, to_taiko, to_catch, to_mania, from_osu, from_taiko,
  from_catch, from_mania,
}
use mamestagram_pp_rs.Osu.ScoreState as OsuState
use mamestagram_pp_rs.Taiko.ScoreState as TaikoState
use mamestagram_pp_rs.Catch.ScoreState as CatchState
use mamestagram_pp_rs.Mania.ScoreState as ManiaState

-- The hits that the state of one mode counts, by the mode.
abbrev pub mode_hits : ScoreState → GameMode → ℕ
mode_hits s osu = OsuState.total_hits (to_osu s)
mode_hits s taiko = TaikoState.total_hits (to_taiko s)
mode_hits s catch = CatchState.total_hits (to_catch s)
mode_hits s mania = ManiaState.total_hits (to_mania s)

-- A `ScoreState` counts as many hits for a mode as the state of the mode that it converts to.
pub total_hits-mode_hits : (s : ScoreState) (mode : GameMode) → total_hits s mode ≡ mode_hits s mode
unfolding total_hits same_mode to_osu to_taiko to_catch to_mania ◌+u◌ ◌*u◌ OsuState.total_hits
    TaikoState.total_hits CatchState.total_hits ManiaState.total_hits
total_hits-mode_hits s osu = omega arith
total_hits-mode_hits s taiko = omega arith
total_hits-mode_hits s catch = omega arith
total_hits-mode_hits s mania = omega arith

-- The state of a mode survives the way into a `ScoreState` and back, for each of the four modes.
pub round_trip :
    (o : OsuScoreState) (t : TaikoScoreState) (c : CatchScoreState) (m : ManiaScoreState)
    → (to_osu (from_osu o) ≡ o)
      × (to_taiko (from_taiko t) ≡ t)
      × (to_catch (from_catch c) ≡ c)
      × (to_mania (from_mania m) ≡ m)
unfolding to_osu to_taiko to_catch to_mania from_osu from_taiko from_catch from_mania
round_trip o t c m = (refl, refl, refl, refl)

module _ {A : Type 0} ⦃f : F64 A⦄ (ieee : IsIeee A) where
  open ieee use {ratio_unit, zero_unit}

  mania-unit :
      (s : ManiaScoreState)
      → s.n320 + s.n300 + s.n200 + s.n100 + s.n50 + s.misses < 2 ^ 29
      → InUnit (ManiaState.accuracy {A = A} s)
  unfolding ManiaState.accuracy ManiaState.total_hits ◌+u◌ ◌*u◌
  mania-unit s h =
      let total = ManiaState.total_hits s in
      ground (
        arith,
        zero_unit,
        ratio_unit (6 *u (s.n320 +u s.n300) +u 4 *u s.n200 +u 2 *u s.n100 +u s.n50) (6 *u total),
      )

  catch-unit :
      (s : CatchScoreState)
      → s.fruits + s.droplets + s.tiny_droplets + s.tiny_droplet_misses + s.misses < 2 ^ 32
      → InUnit (CatchState.accuracy {A = A} s)
  unfolding CatchState.accuracy CatchState.total_hits ◌+u◌
  catch-unit s h = ground (
    arith,
    zero_unit,
    ratio_unit (s.fruits +u s.droplets +u s.tiny_droplets) (CatchState.total_hits s),
  )

  taiko-unit :
      (s : TaikoScoreState)
      → s.n300 + s.n100 + s.misses < 2 ^ 31
      → InUnit (TaikoState.accuracy {A = A} s)
  unfolding TaikoState.accuracy TaikoState.total_hits ◌+u◌ ◌*u◌
  taiko-unit s h =
      ground (arith, zero_unit, ratio_unit (2 *u s.n300 +u s.n100) (2 *u TaikoState.total_hits s))

  -- The accuracy of an osu!taiko, osu!catch or osu!mania state lies between 0 and 1, if it has fewer than
  -- 2 ^ 29 hits.
  pub accuracies-unit :
      (t : TaikoScoreState) (c : CatchScoreState) (m : ManiaScoreState)
      → t.n300 + t.n100 + t.misses < 2 ^ 29
      → c.fruits + c.droplets + c.tiny_droplets + c.tiny_droplet_misses + c.misses < 2 ^ 29
      → m.n320 + m.n300 + m.n200 + m.n100 + m.n50 + m.misses < 2 ^ 29
      → InUnit (TaikoState.accuracy {A = A} t)
        × InUnit (CatchState.accuracy {A = A} c)
        × InUnit (ManiaState.accuracy {A = A} m)
  accuracies-unit t c m ht hc hm =
      (taiko-unit t (omega arith), catch-unit c (omega arith), mania-unit m hm)

module _ {A : Type 0} ⦃f : F64 A⦄ where
  -- The accuracy that the search for osu!taiko results goes by is that of the state it completes, and
  -- so is that of osu!catch where there is a hit, if the sum of the counts stays below 2 ^ 32.
  pub search-accuracy :
      (t : TaikoScoreState) (c : CatchScoreState)
      → c.fruits + c.droplets + c.tiny_droplets + c.tiny_droplet_misses + c.misses < 2 ^ 32
      → 0 < c.fruits + c.droplets + c.tiny_droplets + c.tiny_droplet_misses + c.misses
      → (TaikoSearch.accuracy {A = A} t.n300 t.n100 t.misses ≡ TaikoState.accuracy t)
        × (CatchSearch.accuracy {A = A} c.fruits c.droplets c.tiny_droplets c.tiny_droplet_misses
              c.misses
            ≡ CatchState.accuracy c)
  unfolding TaikoSearch.accuracy TaikoState.accuracy TaikoState.total_hits CatchSearch.accuracy
      CatchState.accuracy CatchState.total_hits ◌+u◌
  search-accuracy t c b h = (refl, ground arith)
