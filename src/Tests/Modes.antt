-- ===== src/Tests/Modes.antt =====
-- A map, and the gradual calculation of each mode with skills that count what they process.
use mamestagram_pp_rs.Prelude.{ℕ, suc, ◌+◌, true, false, List, [], ◌∷◌}
use mamestagram_pp_rs.F64.Model.{Approx, approx_f64}
use mamestagram_pp_rs.Any.Settings.{GameMode}
use mamestagram_pp_rs.Any.Gradual.{Modes}
use mamestagram_pp_rs.Model.Beatmap.{Beatmap}
use mamestagram_pp_rs.Model.HitObject.{HitObject, HitObjectKind}
use mamestagram_pp_rs.Osu.Gradual.{NestedSliderObjectKind, OsuObjectKind, OsuObject, OsuParts}
use mamestagram_pp_rs.Catch.JuiceStream.{SliderEventType, SliderEvent, CatchParts}
use mamestagram_pp_rs.Catch.Gradual.{GradualParts}
use mamestagram_pp_rs.Mania.Objects.{ManiaParts}
use mamestagram_pp_rs.Taiko.Gradual.{HitType, TaikoParts}
use mamestagram_pp_rs.Tests.Common.{nil, high}
use mamestagram_pp_rs.Tests.Osu as OsuTests
use mamestagram_pp_rs.Tests.Catch as CatchTests
use mamestagram_pp_rs.Tests.Taiko as TaikoTests

abbrev pub map : Beatmap (Unit {0})
map = record { is_convert = false; mode = GameMode.osu; content = tt }

abbrev pub osu_objects : List (OsuObject (Unit {0}))
osu_objects =
    record { kind = OsuObjectKind.circle; rest = tt }
    ∷ record {
      kind = OsuObjectKind.slider (record {
        nested_objects = NestedSliderObjectKind.tick ∷ NestedSliderObjectKind.tail ∷ [];
      });
      rest = tt;
    }
    ∷ record { kind = OsuObjectKind.spinner; rest = tt }
    ∷ []

abbrev pub osu_parts : OsuParts (Unit {0}) (Unit {0}) Approx (Unit {0}) ℕ (Unit {0}) ℕ
osu_parts = record {
  setup = λ _ _. OsuTests.attrs;
  objects = λ _ _. osu_objects;
  peppy_stars = λ _. high;
  difficulty_object = λ _ _ h _ _ i. record { base = h; extra = i };
  skills = λ _ _. 0;
  aim = λ _ _ n. suc n;
  aim_no_sliders = λ _ _ n. n;
  speed = λ _ _ n. n + 2;
  flashlight = λ _ _ n. n;
  reading = λ _ _ n. suc n;
  eval = λ attrs _ _. attrs;
  nested_score = λ _ _. nil;
  combo_score = λ _ _. high;
}

-- A circle, a slider, a spinner and another circle.
abbrev pub hit_objects : List (HitObject Approx (Unit {0}))
hit_objects =
    record { pos_x = nil; start_time = nil; kind = HitObjectKind.circle }
    ∷ record { pos_x = nil; start_time = nil; kind = HitObjectKind.slider tt }
    ∷ record { pos_x = nil; start_time = high; kind = HitObjectKind.spinner high }
    ∷ record { pos_x = high; start_time = high; kind = HitObjectKind.circle }
    ∷ []

abbrev event : SliderEventType → SliderEvent Approx
event kind = record { kind = kind; time = nil; path_progress = high }

abbrev pub catch_objects : CatchParts (Beatmap (Unit {0})) Approx (Unit {0})
catch_objects = record {
  zero_pos = nil;
  hit_objects = λ _. hit_objects;
  clamp_x = λ x. x;
  events = λ _ _ _.
      event SliderEventType.head
      ∷ event SliderEventType.tick
      ∷ event SliderEventType.last_tick
      ∷ event SliderEventType.tail
      ∷ [];
  tiny_between = λ _ _. 2;
  path_x = λ x _ _. x;
  end_x = λ x _. x;
  n_bananas = λ _ _. 1;
  apply_hr_offset = λ _ x_offset _ o. (x_offset, o);
  reflect_x = λ x. x;
  neg = λ x. x;
  arrange = λ _ objects. objects;
}

abbrev pub catch_parts : GradualParts (Unit {0}) (Unit {0}) Approx (Unit {0}) (Unit {0}) ℕ ℕ
catch_parts = record {
  objects = catch_objects;
  circle_size = λ _ _. high;
  attrs = λ _ _. CatchTests.attrs;
  hardrock_offsets = λ _. true;
  reflection = λ _. true;
  catcher_width = λ cs. cs;
  clock_rate = λ _. high;
  difficulty_object = λ _ _ _ _ i. i;
  movement = λ _ _. 0;
  process = λ i _ n. n + i;
  stars = λ _. high;
}

abbrev pub mania_parts : ManiaParts (Unit {0}) (Unit {0}) Approx (Unit {0}) (Unit {0}) ℕ
mania_parts = record {
  hit_objects = λ _. hit_objects;
  total_columns = λ _. high;
  column = λ _ _. 3;
  slider_duration = λ _ _ _. high;
  clock_rate = λ _. high;
  strain = λ _. 0;
  process = λ _ _ n. suc n;
  stars = λ _. high;
}

abbrev pub taiko_parts : TaikoParts (Unit {0}) (Unit {0}) Approx (Unit {0}) (Unit {0}) (Unit {0}) ℕ
taiko_parts = record {
  hit_objects = λ _. hit_objects;
  create_difficulty_objects = λ _ _.
      record { base_hit_type = HitType.non_hit; extra = tt }
      ∷ record { base_hit_type = HitType.rim; extra = tt }
      ∷ [];
  attrs = λ _ _. TaikoTests.attrs;
  skills = λ _ _. 0;
  rhythm = λ _ _ n. suc n;
  reading = λ _ _ n. n;
  color = λ _ _ n. n + 2;
  stamina = λ _ _ n. n;
  single_color_stamina = λ _ _ n. n;
  rx = λ _. false;
  eval = λ attrs _ _. attrs;
}

abbrev pub modes : Modes (Unit {0}) (Unit {0}) Approx (Unit {0})
modes = record {
  OsuSkills = ℕ;
  OsuRest = Unit {0};
  OsuExtra = ℕ;
  Slider = Unit {0};
  TaikoExtra = Unit {0};
  TaikoSkills = ℕ;
  CatchObject = ℕ;
  Movement = ℕ;
  Strain = ℕ;
  osu = osu_parts;
  taiko = taiko_parts;
  catch = catch_parts;
  mania = mania_parts;
}
