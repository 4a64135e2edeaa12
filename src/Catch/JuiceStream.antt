-- ===== src/Catch/JuiceStream.antt =====
-- The objects of a map for osu!catch, and the fruits and droplets of its sliders with their counts:
-- src/catch/object/juice_stream.rs. The arithmetic on positions and times is a field of `CatchParts`.
use mamestagram_pp_rs.Prelude.{ℕ, zero, suc, Bool, Option, none, some, List, [], ◌∷◌, ◌++◌}
use mamestagram_pp_rs.Model.HitObject.{HitObject}
use mamestagram_pp_rs.Util.Random.{Random}
use mamestagram_pp_rs.Catch.Counts.{
  ObjectCountBuilder, record_fruit, record_droplet, record_tiny_droplets,
}

-- The match on rosu_map's type of this name.
pub data SliderEventType : Type 0 where
  head tick repeat last_tick tail : SliderEventType

-- With `path_progress`, where on the path the event lies.
pub record SliderEvent (A : Type 0) : Type 0 where
  pub kind : SliderEventType
  pub time : A
  pub path_progress : A

pub data NestedJuiceStreamObjectKind : Type 0 where
  fruit droplet tiny_droplet : NestedJuiceStreamObjectKind

pub record NestedJuiceStreamObject (A : Type 0) : Type 0 where
  pub pos : A
  pub start_time : A
  pub kind : NestedJuiceStreamObjectKind

pub record PalpableObject (A : Type 0) : Type 0 where
  pub x : A
  pub x_offset : A
  pub start_time : A
  pub dist_to_hyper_dash : A
  pub hyper_dash : Bool

-- A stream with its slider, whose control points it keeps. `fruit` has `x_offset`, if it was not taken.
pub data ObjectIterState (A Slider : Type 0) : Type 0 where
  fruit : Option A → ObjectIterState A Slider
  juice_stream : Slider → List (NestedJuiceStreamObject A) → ObjectIterState A Slider
  banana_shower : ℕ → ObjectIterState A Slider

pub record ObjectIter (A Slider : Type 0) : Type 0 where
  pub x : A
  pub start_time : A
  pub state : ObjectIterState A Slider

-- `last_pos`, `last_start_time` and `rng`
pub record Offsets (A : Type 0) : Type 0 where
  pub last_pos : Option A
  pub last_start_time : A
  pub rng : Random

pub record CatchParts (Content A Slider : Type 0) : Type 0 where
  pub zero_pos : A
  pub hit_objects : Content → List (HitObject A Slider)
  -- `h.pos.x.clamp(0.0, PLAYFIELD_WIDTH)`
  pub clamp_x : A → A
  -- the events of a slider of a map that starts at a time
  pub events : Slider → A → Content → List (SliderEvent A)
  -- how many tiny droplets lie between the times of two events
  pub tiny_between : A → A → ℕ
  -- `effective_x + path.position_at(e.path_progress).x`
  pub path_x : A → Slider → A → A
  -- `hit_object.x` and the last control point's, if there is one
  pub end_x : A → Slider → A
  -- `BananaShower::new` for a start and a duration
  pub n_bananas : A → A → ℕ
  -- `apply_hr_offset` for a position, an offset and a start time
  pub apply_hr_offset : A → A → A → Offsets A → A × Offsets A
  -- `PLAYFIELD_WIDTH - h.x` and `-h.x_offset`
  pub reflect_x : A → A
  pub neg : A → A
  -- `sort_by` and `initialize_hyper_dash`
  pub arrange : A → List (PalpableObject A) → List (PalpableObject A)

module _ {Content A Slider : Type 0} (parts : CatchParts Content A Slider) where
  abbrev pub Nested : Type 0
  Nested = NestedJuiceStreamObject A

  abbrev tiny_object : Nested
  tiny_object = record {
    pos = parts.zero_pos;
    start_time = parts.zero_pos;
    kind = NestedJuiceStreamObjectKind.tiny_droplet;
  }

  unfoldable pub tiny_objects : ℕ → List Nested
  tiny_objects zero = []
  tiny_objects (suc n) = tiny_object ∷ tiny_objects n

  -- `if let Some(last_event_time) = last_event_time`
  unfoldable pub pass_tiny : Option A → A → ObjectCountBuilder → List Nested × ObjectCountBuilder
  unfolding tiny_objects record_tiny_droplets
  pass_tiny none time count = ([], count)
  pass_tiny (some last_event_time) time count =
      let tiny_droplets = parts.tiny_between last_event_time time in
      (tiny_objects tiny_droplets, record_tiny_droplets tiny_droplets count)

  -- `match e.kind`, where `none` is `continue`.
  unfoldable pub pass_kind :
      SliderEventType → ObjectCountBuilder → Option NestedJuiceStreamObjectKind × ObjectCountBuilder
  unfolding record_fruit record_droplet
  pass_kind SliderEventType.tick count =
      (some NestedJuiceStreamObjectKind.droplet, record_droplet count)
  pass_kind SliderEventType.head count =
      (some NestedJuiceStreamObjectKind.fruit, record_fruit count)
  pass_kind SliderEventType.repeat count =
      (some NestedJuiceStreamObjectKind.fruit, record_fruit count)
  pass_kind SliderEventType.tail count =
      (some NestedJuiceStreamObjectKind.fruit, record_fruit count)
  pass_kind SliderEventType.last_tick count = (none, count)

  -- The object of an event.
  unfoldable pub nested_object :
      A → Slider → SliderEvent A → Option NestedJuiceStreamObjectKind → List Nested
  nested_object effective_x stream e none = []
  nested_object effective_x stream e (some kind) =
      record {
        pos = parts.path_x effective_x stream e.path_progress;
        start_time = e.time;
        kind = kind;
      }
      ∷ []

  -- The loop of `JuiceStream::new` over the events, and the objects that it pushes.
  unfoldable pub stream_from :
      A
      → Slider
      → Option A
      → List (SliderEvent A)
      → ObjectCountBuilder
      → List Nested × ObjectCountBuilder
  unfolding pass_tiny pass_kind nested_object
  stream_from effective_x stream last_event_time [] count = ([], count)
  stream_from effective_x stream last_event_time (e ∷ events) count =
      let (tiny, count) = pass_tiny last_event_time e.time count in
      let (kind, count) = pass_kind e.kind count in
      let (rest, count) = stream_from effective_x stream (some e.time) events count in
      (tiny ++ (nested_object effective_x stream e kind ++ rest), count)
