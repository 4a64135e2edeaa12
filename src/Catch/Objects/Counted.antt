-- ===== src/Catch/Objects/Counted.antt =====
-- What `convert_objects` counts, and how many objects it makes.
use mamestagram_pp_rs.Prelude.{
  ℕ, zero, suc, ◌+◌, ◌≡◌, refl, sym, ap, ◌∙◌, Bool, true, false, Option, none, some, List, [], ◌∷◌,
  ◌++◌, length, length-append, arith,
}
use mamestagram_pp_rs.Model.HitObject.{HitObjectKind, HitObject}
use mamestagram_pp_rs.Catch.Counts.{ObjectCountBuilder}
use mamestagram_pp_rs.Catch.Counts.Deltas.{Recorded, record_all, record_one, deltas}
use mamestagram_pp_rs.Catch.JuiceStream.{
  SliderEventType, SliderEvent, PalpableObject, ObjectIterState, Offsets, CatchParts, Nested,
  tiny_objects, pass_tiny, pass_kind, nested_object, stream_from,
}
use mamestagram_pp_rs.Catch.Objects.{
  found, palpable_nested, collect, apply_pos_offset, convert_kind, convert_object, convert_from,
}

-- How many fruits and droplets are recorded.
pub palpables : List Recorded → ℕ
palpables [] = 0
palpables (Recorded.fruit ∷ rs) = suc (palpables rs)
palpables (Recorded.droplet ∷ rs) = suc (palpables rs)
palpables (Recorded.tiny_droplets _ ∷ rs) = palpables rs

palpables-append : (rs qs : List Recorded) → palpables (rs ++ qs) ≡ palpables rs + palpables qs
unfolding palpables
palpables-append [] qs = omega arith
palpables-append (Recorded.fruit ∷ rs) qs = omega (arith, palpables-append rs qs)
palpables-append (Recorded.droplet ∷ rs) qs = omega (arith, palpables-append rs qs)
palpables-append (Recorded.tiny_droplets _ ∷ rs) qs = palpables-append rs qs

record_all-append :
    (rs qs : List Recorded) (b : ObjectCountBuilder)
    → record_all (rs ++ qs) b ≡ record_all qs (record_all rs b)
unfolding record_all
record_all-append [] qs b = refl
record_all-append (r ∷ rs) qs b = record_all-append rs qs (record_one r b)

pub length-deltas : (rs : List Recorded) (t : ℕ) → length (deltas rs t) ≡ palpables rs
unfolding deltas palpables
length-deltas [] t = refl
length-deltas (Recorded.fruit ∷ rs) t = ap suc (length-deltas rs 0)
length-deltas (Recorded.droplet ∷ rs) t = ap suc (length-deltas rs 0)
length-deltas (Recorded.tiny_droplets n ∷ rs) t = length-deltas rs _

module _ {Content A Slider : Type 0} (parts : CatchParts Content A Slider) where
  recorded_tiny : Option A → A → List Recorded
  recorded_tiny none time = []
  recorded_tiny (some last) time = Recorded.tiny_droplets (parts.tiny_between last time) ∷ []

  recorded_kind : SliderEventType → List Recorded
  recorded_kind SliderEventType.tick = Recorded.droplet ∷ []
  recorded_kind SliderEventType.head = Recorded.fruit ∷ []
  recorded_kind SliderEventType.repeat = Recorded.fruit ∷ []
  recorded_kind SliderEventType.tail = Recorded.fruit ∷ []
  recorded_kind SliderEventType.last_tick = []

  recorded : Option A → List (SliderEvent A) → List Recorded
  recorded last [] = []
  recorded last (e ∷ events) =
      recorded_tiny last e.time ++ (recorded_kind e.kind ++ recorded (some e.time) events)

  pass_tiny-recorded :
      (last : Option A) (time : A) (b : ObjectCountBuilder)
      → (pass_tiny parts last time b).1 ≡ record_all (recorded_tiny last time) b
  unfolding pass_tiny recorded_tiny record_all record_one
  pass_tiny-recorded none time b = refl
  pass_tiny-recorded (some last) time b = refl

  pass_kind-recorded :
      (kind : SliderEventType) (b : ObjectCountBuilder)
      → (pass_kind parts kind b).1 ≡ record_all (recorded_kind kind) b
  unfolding pass_kind recorded_kind record_all record_one
  pass_kind-recorded SliderEventType.tick b = refl
  pass_kind-recorded SliderEventType.head b = refl
  pass_kind-recorded SliderEventType.repeat b = refl
  pass_kind-recorded SliderEventType.tail b = refl
  pass_kind-recorded SliderEventType.last_tick b = refl

  stream_from-recorded :
      (x : A) (s : Slider) (last : Option A) (events : List (SliderEvent A))
      (b : ObjectCountBuilder)
      → (stream_from parts x s last events b).1 ≡ record_all (recorded last events) b
  unfolding stream_from recorded record_all
  stream_from-recorded x s last [] b = refl
  stream_from-recorded x s last (e ∷ events) b =
      stream_from-recorded x s (some e.time) events _
      ∙ ap (record_all (recorded (some e.time) events)) (
          pass_kind-recorded e.kind _
          ∙ ap (record_all (recorded_kind e.kind)) (pass_tiny-recorded last e.time b))
      ∙ sym (
          record_all-append (recorded_tiny last e.time)
            (recorded_kind e.kind ++ recorded (some e.time) events) b
          ∙ record_all-append (recorded_kind e.kind) (recorded (some e.time) events) _)

  tiny_objects-palpable :
      (n : ℕ) (ns : List (Nested parts))
      → palpable_nested parts (tiny_objects parts n ++ ns) ≡ palpable_nested parts ns
  unfolding tiny_objects palpable_nested found
  tiny_objects-palpable zero ns = refl
  tiny_objects-palpable (suc n) ns = tiny_objects-palpable n ns

  pass_tiny-palpable :
      (last : Option A) (time : A) (b : ObjectCountBuilder) (ns : List (Nested parts))
      → palpable_nested parts ((pass_tiny parts last time b).0 ++ ns) ≡ palpable_nested parts ns
  unfolding pass_tiny
  pass_tiny-palpable none time b ns = refl
  pass_tiny-palpable (some last) time b ns = tiny_objects-palpable (parts.tiny_between last time) ns

  nested_object-palpables :
      (x : A) (s : Slider) (e : SliderEvent A) (kind : SliderEventType) (b : ObjectCountBuilder)
      (ns : List (Nested parts))
      → length (palpable_nested parts (nested_object parts x s e (pass_kind parts kind b).0 ++ ns))
        ≡ palpables (recorded_kind kind) + length (palpable_nested parts ns)
  unfolding pass_kind nested_object palpable_nested found recorded_kind palpables
  nested_object-palpables x s e SliderEventType.tick b ns = omega arith
  nested_object-palpables x s e SliderEventType.head b ns = omega arith
  nested_object-palpables x s e SliderEventType.repeat b ns = omega arith
  nested_object-palpables x s e SliderEventType.tail b ns = omega arith
  nested_object-palpables x s e SliderEventType.last_tick b ns = omega arith

  recorded_tiny-palpables : (last : Option A) (time : A) → palpables (recorded_tiny last time) ≡ 0
  unfolding recorded_tiny palpables
  recorded_tiny-palpables none time = refl
  recorded_tiny-palpables (some last) time = refl

  stream_from-palpables :
      (x : A) (s : Slider) (last : Option A) (events : List (SliderEvent A))
      (b : ObjectCountBuilder)
      → length (palpable_nested parts (stream_from parts x s last events b).0)
        ≡ palpables (recorded last events)
  unfolding stream_from recorded palpable_nested palpables
  stream_from-palpables x s last [] b = refl
  stream_from-palpables x s last (e ∷ events) b =
      ap length (pass_tiny-palpable last e.time b _)
      ∙ nested_object-palpables x s e e.kind _ _
      ∙ ap (◌+◌ (palpables (recorded_kind e.kind)))
          (stream_from-palpables x s (some e.time) events _)
      ∙ omega (
        arith,
        palpables-append (recorded_tiny last e.time)
            (recorded_kind e.kind ++ recorded (some e.time) events),
        palpables-append (recorded_kind e.kind) (recorded (some e.time) events),
        recorded_tiny-palpables last e.time,
      )

  recorded_object : Content → A → HitObjectKind A Slider → List Recorded
  recorded_object content start_time HitObjectKind.circle = Recorded.fruit ∷ []
  recorded_object content start_time (HitObjectKind.slider s) =
      recorded none (parts.events s start_time content)
  recorded_object content start_time (HitObjectKind.spinner _) = []
  recorded_object content start_time (HitObjectKind.hold _) = []

  -- What is recorded of the objects of a map.
  pub recorded_objects : Content → List (HitObject A Slider) → List Recorded
  recorded_objects content [] = []
  recorded_objects content (h ∷ hs) =
      recorded_object content h.start_time h.kind ++ recorded_objects content hs

  -- An object is counted, and its fruits and droplets are as many as the ones recorded, wherever they are moved.
  convert_kind-recorded :
      (content : Content) (x start_time x' time' : A) (kind : HitObjectKind A Slider)
      (hr_offsets : Bool) (o : Offsets A) (b : ObjectCountBuilder)
      → ((convert_kind parts content x start_time kind b).1
          ≡ record_all (recorded_object content start_time kind) b)
        × (r : ObjectIterState A Slider × Offsets A) × (apply_pos_offset parts x' time' hr_offsets
              (convert_kind parts content x start_time kind b).0
              o
            ≡ some r)
        × (length (collect parts x' time' r.0)
            ≡ palpables (recorded_object content start_time kind))
  unfolding convert_kind recorded_object apply_pos_offset collect record_all record_one palpables
  convert_kind-recorded content x start_time x' time' HitObjectKind.circle true o b =
      (refl, _, refl, refl)
  convert_kind-recorded content x start_time x' time' HitObjectKind.circle false o b =
      (refl, _, refl, refl)
  convert_kind-recorded content x start_time x' time' (HitObjectKind.slider s) hr o b = (
    stream_from-recorded (parts.clamp_x x) s none (parts.events s start_time content) b,
    _,
    refl,
    stream_from-palpables (parts.clamp_x x) s none (parts.events s start_time content) b,
  )
  convert_kind-recorded content x start_time x' time' (HitObjectKind.spinner d) hr o b =
      (refl, _, refl, refl)
  convert_kind-recorded content x start_time x' time' (HitObjectKind.hold d) hr o b =
      (refl, _, refl, refl)

  convert_from-round :
      (content : Content) (hr_offsets : Bool) (h : HitObject A Slider)
      (hs : List (HitObject A Slider)) (o : Offsets A) (b c : ObjectCountBuilder)
      (r : ObjectIterState A Slider × Offsets A) (rest : List (PalpableObject A))
      → apply_pos_offset parts h.pos_x h.start_time hr_offsets
          (convert_kind parts content h.pos_x h.start_time h.kind b).0
          o
        ≡ some r
      → convert_from parts content hr_offsets hs r.1
          (convert_kind parts content h.pos_x h.start_time h.kind b).1
        ≡ some (rest, c)
      → convert_from parts content hr_offsets (h ∷ hs) o b
        ≡ some (collect parts h.pos_x h.start_time r.0 ++ rest, c)
  unfolding convert_from convert_object
  convert_from-round content hr_offsets h hs o b c r rest moved run = rw (moved, run) refl

  pub convert_from-recorded :
      (content : Content) (hr_offsets : Bool) (hs : List (HitObject A Slider)) (o : Offsets A)
      (b : ObjectCountBuilder)
      → (objects : List (PalpableObject A)) × (convert_from parts content hr_offsets hs o b
          ≡ some (objects, record_all (recorded_objects content hs) b))
        × (length objects ≡ palpables (recorded_objects content hs))
  unfolding convert_from recorded_objects record_all palpables
  convert_from-recorded content hr [] o b = ([], refl, refl)
  convert_from-recorded content hr (h ∷ hs) o b =
      let (counted, r, moved, size) =
        convert_kind-recorded content h.pos_x h.start_time h.pos_x h.start_time h.kind hr o b in
      let (rest, run, rest_size) =
        convert_from-recorded content hr hs r.1
          (convert_kind parts content h.pos_x h.start_time h.kind b).1 in
      let objects = collect parts h.pos_x h.start_time r.0 ++ rest in
      (
        objects,
        convert_from-round content hr h hs o b _ r rest moved run
            ∙ ap (λ c. some (objects, c))
                (ap (record_all (recorded_objects content hs)) counted
                  ∙ sym (
                      record_all-append (recorded_object content h.start_time h.kind)
                        (recorded_objects content hs) b)),
        omega (
          arith,
          length-append (collect parts h.pos_x h.start_time r.0) rest,
          palpables-append (recorded_object content h.start_time h.kind)
              (recorded_objects content hs),
        ),
      )
