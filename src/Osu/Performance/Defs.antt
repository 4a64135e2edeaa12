-- ===== src/Osu/Performance/Defs.antt =====
-- src/osu/performance/mod.rs: the state of `OsuPerformance`, with the attributes of
-- src/osu/attributes.rs.
use mamestagram_pp_rs.Prelude.{ℕ, ◌/◌, Option, min, ◌+u◌, ◌-u◌, ◌*u◌}
use mamestagram_pp_rs.Any.Settings.{
  Difficulty, HitResultPriority, best_case, worst_case, MapOrAttrs,
}
use mamestagram_pp_rs.Osu.ScoreState.{OsuScoreOrigin, stable, with_slider_acc, without_slider_acc}

pub record OsuDifficultyAttributes (A : Type 0) : Type 0 where
  pub aim : A
  pub aim_difficult_slider_count : A
  pub speed : A
  pub flashlight : A
  pub reading : A
  pub slider_factor : A
  pub aim_top_weighted_slider_factor : A
  pub speed_top_weighted_slider_factor : A
  pub speed_note_count : A
  pub aim_difficult_strain_count : A
  pub speed_difficult_strain_count : A
  pub reading_difficult_note_count : A
  pub nested_score_per_object : A
  pub legacy_score_base_multiplier : A
  pub maximum_legacy_combo_score : A
  pub ar : A
  pub great_hit_window : A
  pub ok_hit_window : A
  pub meh_hit_window : A
  pub hp : A
  pub n_circles : ℕ
  pub n_sliders : ℕ
  pub n_large_ticks : ℕ
  pub n_spinners : ℕ
  pub stars : A
  pub max_combo : ℕ

pub record OsuPerformance (Map Mods A R : Type 0) : Type 0 where
  pub map_or_attrs : MapOrAttrs Map (OsuDifficultyAttributes A)
  pub difficulty : Difficulty Mods A R
  pub acc : Option A
  pub combo : Option ℕ
  pub large_tick_hits : Option ℕ
  pub small_tick_hits : Option ℕ
  pub slider_end_hits : Option ℕ
  pub n300 : Option ℕ
  pub n100 : Option ℕ
  pub n50 : Option ℕ
  pub misses : Option ℕ
  pub legacy_total_score : Option ℕ
  pub hitresult_priority : HitResultPriority

unfoldable pub n_objects_of : {A : Type 0} → OsuDifficultyAttributes A → ℕ
n_objects_of a = a.n_circles +u a.n_sliders +u a.n_spinners

pub record Hits : Type 0 where
  pub n300 : ℕ
  pub n100 : ℕ
  pub n50 : ℕ

-- `(slider_end_hits, large_tick_hits, small_tick_hits)`
pub record Ticks : Type 0 where
  pub slider_end_hits : ℕ
  pub large_tick_hits : ℕ
  pub small_tick_hits : ℕ

-- `let (slider_acc_value, max_slider_acc_value) = match origin`
unfoldable pub slider_acc_values : OsuScoreOrigin → Ticks → ℕ × ℕ
slider_acc_values stable t = (0, 0)
slider_acc_values (with_slider_acc max_large max_ends) t =
    (150 *u t.slider_end_hits +u 30 *u t.large_tick_hits, 150 *u max_ends +u 30 *u max_large)
slider_acc_values (without_slider_acc max_large max_small) t =
    (30 *u t.large_tick_hits +u 10 *u t.small_tick_hits, 30 *u max_large +u 10 *u max_small)

-- Shift n50 to n100 by sacrificing n300, or n100 to n50 by gaining n300.
unfoldable pub shift : HitResultPriority → Hits → Hits
shift best_case h =
    let n = min h.n300 (h.n50 / 4) in
    record { n300 = h.n300 -u n; n100 = h.n100 +u 5 *u n; n50 = h.n50 -u 4 *u n }
shift worst_case h =
    let n = h.n100 / 5 in
    record { n300 = h.n300 +u n; n100 = h.n100 -u 5 *u n; n50 = h.n50 +u 4 *u n }
