-- ===== src/Model/HitObject.antt =====
-- The objects of a map: src/model/hit_object.rs. What a slider holds is an argument, and of a position
-- only `x` is kept.
use mamestagram_pp_rs.Prelude.{Bool, true, false}
use mamestagram_pp_rs.F64.{F64}

-- A spinner and a hold note with their durations.
pub data HitObjectKind (A Slider : Type 0) : Type 0 where
  circle : HitObjectKind A Slider
  slider : Slider → HitObjectKind A Slider
  spinner hold : A → HitObjectKind A Slider

pub record HitObject (A Slider : Type 0) : Type 0 where
  pub pos_x : A
  pub start_time : A
  pub kind : HitObjectKind A Slider

module _ {A Slider : Type 0} where
  unfoldable pub is_circle : HitObjectKind A Slider → Bool
  is_circle HitObjectKind.circle = true
  is_circle (HitObjectKind.slider _) = false
  is_circle (HitObjectKind.spinner _) = false
  is_circle (HitObjectKind.hold _) = false

  unfoldable pub is_slider : HitObjectKind A Slider → Bool
  is_slider HitObjectKind.circle = false
  is_slider (HitObjectKind.slider _) = true
  is_slider (HitObjectKind.spinner _) = false
  is_slider (HitObjectKind.hold _) = false

  unfoldable pub is_spinner : HitObjectKind A Slider → Bool
  is_spinner HitObjectKind.circle = false
  is_spinner (HitObjectKind.slider _) = false
  is_spinner (HitObjectKind.spinner _) = true
  is_spinner (HitObjectKind.hold _) = false

  -- `match &self.kind` of `end_time`
  unfoldable pub end_time : ⦃f : F64 A⦄ → A → HitObjectKind A Slider → A
  end_time start_time HitObjectKind.circle = start_time
  end_time start_time (HitObjectKind.slider _) = start_time
  end_time ⦃f⦄ start_time (HitObjectKind.spinner duration) = f.add start_time duration
  end_time ⦃f⦄ start_time (HitObjectKind.hold duration) = f.add start_time duration
