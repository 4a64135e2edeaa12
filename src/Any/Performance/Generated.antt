-- ===== src/Any/Performance/Generated.antt =====
-- What `Performance::generate_state` returns can be given back to the calculator.
use mamestagram_pp_rs.Prelude.{◌^◌, ◌<◌, Bool, Option, none, some, ok, ◌≡◌, refl, ap, subst}
use mamestagram_pp_rs.F64.{F64, IsIeee, AccOk}
use mamestagram_pp_rs.Any.Settings.{load_attrs}
use mamestagram_pp_rs.Any.ScoreState.{
  ScoreState, from_osu, from_taiko, from_catch, from_mania, to_osu, to_taiko, to_catch, to_mania,
}
use mamestagram_pp_rs.Any.Performance.{Performance, osu, taiko, catch, mania, state}
use mamestagram_pp_rs.Any.Performance.Generate.{Calculations, generate_state, expect}
use mamestagram_pp_rs.Osu.Performance.{OsuDifficultyAttributes}
use mamestagram_pp_rs.Osu.Performance.Complete as OsuState
use mamestagram_pp_rs.Osu.Performance.Repeat as OsuRepeat
use mamestagram_pp_rs.Taiko.Performance.{TaikoDifficultyAttributes}
use mamestagram_pp_rs.Taiko.Performance as TaikoState
use mamestagram_pp_rs.Taiko.Performance.Repeat as TaikoRepeat
use mamestagram_pp_rs.Catch.Performance.{CatchDifficultyAttributes}
use mamestagram_pp_rs.Catch.Performance as CatchState
use mamestagram_pp_rs.Catch.Performance.Repeat as CatchRepeat
use mamestagram_pp_rs.Mania.Performance.{ManiaDifficultyAttributes}
use mamestagram_pp_rs.Mania.Performance as ManiaSetters
use mamestagram_pp_rs.Mania.Performance.Complete as ManiaState
use mamestagram_pp_rs.Mania.Performance.Repeat as ManiaRepeat

module _ {Map Mods A R : Type 0} ⦃f : F64 A⦄ (ieee : IsIeee A)
    (no_slider_head_acc : Mods → Bool → Bool) (calculate : Calculations Map A) where
  -- A calculator that has its attributes or gets them from its map, with a map, counts and an accuracy
  -- within the bounds of its mode. In osu!mania, a search for an accuracy with n320 or n300 and at most
  -- one of the lower counts given has found a candidate.
  abbrev pub IsReady : Performance Map Mods A R → Type 0
  IsReady (osu o) =
      (attrs : OsuDifficultyAttributes A) × (load_attrs calculate.osu o.map_or_attrs ≡ ok attrs)
      × AccOk o.acc
      × OsuRepeat.IsSane attrs
  IsReady (taiko t) =
      (attrs : TaikoDifficultyAttributes A) × (load_attrs calculate.taiko t.map_or_attrs ≡ ok attrs)
      × AccOk t.acc
      × (attrs.max_combo < 2 ^ 30)
  IsReady (catch c) =
      (attrs : CatchDifficultyAttributes A) × (load_attrs calculate.catch c.map_or_attrs ≡ ok attrs)
      × CatchRepeat.IsSane c
      × CatchRepeat.IsSmall attrs
  IsReady (mania m) =
      (attrs : ManiaDifficultyAttributes A) × (load_attrs calculate.mania m.map_or_attrs ≡ ok attrs)
      × AccOk m.acc
      × ManiaRepeat.IsSane attrs
      × ManiaRepeat.AccFinds m attrs

  -- The state is returned, the calculator takes it without a change, and generates it again.
  abbrev pub GivesBack : Performance Map Mods A R × Option ScoreState → Type 0
  GivesBack (p, none) = ⊥
  GivesBack (p, some s) =
      (state p s ≡ p) × (generate_state no_slider_head_acc calculate p ≡ (p, some s))

  -- `Performance::generate_state` does not panic; the calculator that it leaves is not changed by giving
  -- it the state returned, and returns that state again. It has its attributes or gets them from its
  -- map, and a given accuracy lies between 0 and 1. In osu!standard, circles, sliders, spinners and large
  -- ticks are fewer than 2 ^ 20 together; in osu!taiko, the map's combo is below 2 ^ 30; in osu!catch,
  -- fruits, droplets and tiny droplets are fewer than 2 ^ 30 together, and so is each count given of
  -- them or of the tiny droplets' misses; in osu!mania, the map has fewer than 2 ^ 26 objects with hold
  -- notes counted twice, and a search for an accuracy with n320 or n300 and at most one of the lower
  -- counts given has found a candidate.
  pub generate_state-GivesBack :
      (p : Performance Map Mods A R)
      → IsReady p
      → GivesBack (generate_state no_slider_head_acc calculate p)
  unfolding generate_state state expect OsuState.state TaikoState.state CatchState.state
      ManiaSetters.state to_osu to_taiko to_catch to_mania from_osu from_taiko from_catch from_mania
  generate_state-GivesBack (osu o) (attrs, e, u, sane) =
      let first = OsuRepeat.generate_state-loaded ieee no_slider_head_acc calculate.osu o attrs e in
      let again =
        subst (λ x. OsuState.generate_state no_slider_head_acc calculate.osu x.0 ≡ x) first
          (OsuRepeat.generate_state_twice_osu ieee no_slider_head_acc calculate.osu o attrs u sane
            e) in
      rw (first, generate_state) (refl, ap (λ y. (osu y.0, expect from_osu y.1)) again)
  generate_state-GivesBack (taiko t) (attrs, e, u, small) =
      let first = TaikoRepeat.generate_state-loaded ieee calculate.taiko t attrs e in
      let again =
        subst (λ x. TaikoState.generate_state calculate.taiko x.0 ≡ x) first
          (TaikoRepeat.generate_state_twice ieee calculate.taiko t attrs u small e) in
      rw (first, generate_state) (refl, ap (λ y. (taiko y.0, expect from_taiko y.1)) again)
  generate_state-GivesBack (catch c) (attrs, e, sane, small) =
      let first = CatchRepeat.generate_state-loaded ieee calculate.catch c attrs e in
      let again =
        subst (λ x. CatchState.generate_state calculate.catch x.0 ≡ x) first
          (CatchRepeat.generate_state_twice_catch ieee calculate.catch c attrs sane small e) in
      rw (first, generate_state) (refl, ap (λ y. (catch y.0, expect from_catch y.1)) again)
  generate_state-GivesBack (mania m) (attrs, e, u, sane, finds) =
      let first = ManiaRepeat.generate_state-loaded ieee calculate.mania m attrs e in
      let again =
        subst (λ x. ManiaState.generate_state calculate.mania x.0 ≡ x) first
          (ManiaRepeat.generate_state_twice_mania ieee calculate.mania m attrs u sane finds e) in
      rw (first, generate_state) (refl, ap (λ y. (mania y.0, expect from_mania y.1)) again)
