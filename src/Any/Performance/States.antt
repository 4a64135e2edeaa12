-- ===== src/Any/Performance/States.antt =====
-- Setting the counts of a score one by one, and all at once by `Performance::state`.
use mamestagram_pp_rs.Prelude.{◌≡◌, refl}
use mamestagram_pp_rs.Any.ScoreState.{ScoreState, to_osu, to_taiko, to_catch, to_mania}
use mamestagram_pp_rs.Any.Performance.{
  Performance, osu, taiko, catch, mania, misses, combo, large_tick_hits, small_tick_hits,
  slider_end_hits, n300, n100, n50, n_katu, n_geki, state,
}
use mamestagram_pp_rs.Osu.Performance.Complete as OsuState
use mamestagram_pp_rs.Osu.Performance.Setters as OsuSetters
use mamestagram_pp_rs.Taiko.Performance as TaikoState
use mamestagram_pp_rs.Taiko.Performance.Setters as TaikoSetters
use mamestagram_pp_rs.Catch.Performance as CatchState
use mamestagram_pp_rs.Catch.Performance.Setters as CatchSetters
use mamestagram_pp_rs.Mania.Performance as ManiaSetters

module _ {Map Mods A R : Type 0} where
  -- Each count of a `ScoreState`, given by its own method.
  abbrev pub one_by_one : Performance Map Mods A R → ScoreState → Performance Map Mods A R
  one_by_one p s =
      let ticks =
        slider_end_hits
          (small_tick_hits (large_tick_hits p s.osu_large_tick_hits) s.osu_small_tick_hits)
          s.slider_end_hits in
      let hits = n50 (n100 (n300 ticks s.n300) s.n100) s.n50 in
      misses (combo (n_geki (n_katu hits s.n_katu) s.n_geki) s.max_combo) s.misses

  -- In every mode, giving a `ScoreState` by `state` is the same as giving each of its counts by the method
  -- of its name.
  pub state-one_by_one :
      (p : Performance Map Mods A R) (s : ScoreState) → state p s ≡ one_by_one p s
  unfolding misses combo large_tick_hits small_tick_hits slider_end_hits n300 n100 n50 n_katu n_geki
      state CatchSetters.combo CatchSetters.droplets CatchSetters.fruits CatchSetters.misses
      CatchSetters.tiny_droplet_misses CatchSetters.tiny_droplets ManiaSetters.misses
      ManiaSetters.n100 ManiaSetters.n200 ManiaSetters.n300 ManiaSetters.n320 ManiaSetters.n50
      OsuSetters.combo OsuSetters.large_tick_hits OsuSetters.misses OsuSetters.n100 OsuSetters.n300
      OsuSetters.n50 OsuSetters.slider_end_hits OsuSetters.small_tick_hits TaikoSetters.combo
      TaikoSetters.misses TaikoSetters.n100 TaikoSetters.n300 OsuState.state TaikoState.state
      CatchState.state ManiaSetters.state to_osu to_taiko to_catch to_mania
  state-one_by_one (osu o) s = refl
  state-one_by_one (taiko t) s = refl
  state-one_by_one (catch f) s = refl
  state-one_by_one (mania m) s = refl
