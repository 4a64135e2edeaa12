-- ===== src/Tests/Convert.antt =====
-- Examples for the conversion of a map and of a calculator, and for `Performance::generate_state`.
use mamestagram_pp_rs.Prelude.{◌≡◌, none, some, false, true, Bool, ◌⊎◌, err, refl, arith}
use mamestagram_pp_rs.F64.Model.{Approx, approx_f64, Approx-IsIeee}
use mamestagram_pp_rs.Any.Settings.{GameMode, ConvertError, of_map, best_case, load_attrs}
use mamestagram_pp_rs.Any.Performance.{Performance, osu, taiko, catch, mania}
use mamestagram_pp_rs.Any.Performance as Setters
use mamestagram_pp_rs.Any.Performance.Convert.{OsuOf, AnyOf, try_mode, mode_or_ignore}
use mamestagram_pp_rs.Any.Performance.Converted.{Keeps, mode_of, HasMapOf, try_mode-Keeps}
use mamestagram_pp_rs.Any.Performance.Commute.{
  either, map_both, mode_or_ignore-try_mode, try_mode-setters,
}
use mamestagram_pp_rs.Any.Performance.Generate.{Calculations, generate_state}
use mamestagram_pp_rs.Any.Performance.Generated.{GivesBack, generate_state-GivesBack}
use mamestagram_pp_rs.Model.Beatmap.{Beatmap, Cow, Converters, convert_mut, convert_ref}
use mamestagram_pp_rs.Model.Conversion.{
  SetsMode, IsConverted, SameResult, convert_mut-IsConverted, convert_ref-convert_mut,
}
use mamestagram_pp_rs.Tests.Common.{high, plain}
use mamestagram_pp_rs.Tests.Mania as ManiaTests

abbrev map : Beatmap (Unit {0})
map = record { is_convert = false; mode = GameMode.osu; content = tt }

abbrev set_mode : GameMode → Beatmap (Unit {0}) → Beatmap (Unit {0})
set_mode mode b = record { is_convert = true; mode = mode; content = b.content }

abbrev converters : Converters (Unit {0}) (Unit {0})
converters = record {
  taiko = set_mode GameMode.taiko;
  catch = set_mode GameMode.catch;
  mania = λ b mods. set_mode GameMode.mania b;
}

converters-SetsMode : SetsMode converters
converters-SetsMode = record { taiko = λ b. refl; catch = λ b. refl; mania = λ b mods. refl }

convert_mut-IsConverted_example :
    IsConverted map GameMode.catch (convert_mut converters map GameMode.catch tt)
convert_mut-IsConverted_example =
    convert_mut-IsConverted converters converters-SetsMode map GameMode.catch tt

convert_ref-convert_mut_example :
    SameResult
      (convert_mut converters map GameMode.mania tt)
      (convert_ref converters map GameMode.mania tt)
convert_ref-convert_mut_example = convert_ref-convert_mut converters map GameMode.mania tt

abbrev calculator : OsuOf (Unit {0}) (Unit {0}) Approx (Unit {0})
calculator = record {
  map_or_attrs = of_map (Cow.owned map);
  difficulty = plain;
  acc = some high;
  combo = some 20;
  large_tick_hits = none;
  small_tick_hits = none;
  slider_end_hits = none;
  n300 = some 5;
  n100 = none;
  n50 = some 2;
  misses = none;
  legacy_total_score = none;
  hitresult_priority = best_case;
}

abbrev any_calculator : AnyOf (Unit {0}) (Unit {0}) Approx (Unit {0})
any_calculator = osu calculator

try_mode-Keeps_example :
    Keeps any_calculator
      (λ q. (mode_of q ≡ GameMode.taiko) × ((q ≡ any_calculator) ⊎ HasMapOf GameMode.taiko q))
      (try_mode converters any_calculator GameMode.taiko)
try_mode-Keeps_example = try_mode-Keeps converters converters-SetsMode any_calculator GameMode.taiko

mode_or_ignore-try_mode_example :
    mode_or_ignore converters any_calculator GameMode.mania
    ≡ either (try_mode converters any_calculator GameMode.mania)
mode_or_ignore-try_mode_example = mode_or_ignore-try_mode converters any_calculator GameMode.mania

try_mode-setters_example :
    let r = try_mode converters any_calculator GameMode.catch in
    (try_mode converters (Setters.n300 any_calculator 7) GameMode.catch
      ≡ map_both (λ q. Setters.n300 q 7) r)
    × (try_mode converters (Setters.n100 any_calculator 7) GameMode.catch
        ≡ map_both (λ q. Setters.n100 q 7) r)
    × (try_mode converters (Setters.n50 any_calculator 7) GameMode.catch
        ≡ map_both (λ q. Setters.n50 q 7) r)
    × (try_mode converters (Setters.misses any_calculator 7) GameMode.catch
        ≡ map_both (λ q. Setters.misses q 7) r)
    × (try_mode converters (Setters.combo any_calculator 7) GameMode.catch
        ≡ map_both (λ q. Setters.combo q 7) r)
    × (try_mode converters (Setters.hitresult_priority any_calculator best_case) GameMode.catch
        ≡ map_both (λ q. Setters.hitresult_priority q best_case) r)
try_mode-setters_example = try_mode-setters converters any_calculator GameMode.catch 7 best_case

abbrev no_classic : Unit {0} → Bool → Bool
no_classic _ _ = false

abbrev no_calculation : Calculations (Unit {0}) Approx
no_calculation = record {
  osu = λ m. err ConvertError.already_converted;
  taiko = λ m. err ConvertError.already_converted;
  catch = λ m. err ConvertError.already_converted;
  mania = ManiaTests.no_map;
}

generate_state-GivesBack_example :
    GivesBack Approx-IsIeee no_classic no_calculation
      (generate_state no_classic no_calculation (mania ManiaTests.accurate))
unfolding load_attrs
generate_state-GivesBack_example =
    generate_state-GivesBack Approx-IsIeee no_classic no_calculation (mania ManiaTests.accurate)
      (ManiaTests.attrs, refl, (refl, refl), omega arith, ManiaTests.accurate-AccFinds)
