-- ===== src/Catch/Objects/Totals.antt =====
-- The counts of `convert_objects` object by object, and what they add up to.
use mamestagram_pp_rs.Prelude.{
  ℕ, zero, suc, ◌≤◌, ◌≡◌, refl, sym, ap, ◌∙◌, subst, Bool, true, false, none, some, List, [],
  length, length-map, map, take, ◌+u◌, arith, if◌then◌else◌,
}
use mamestagram_pp_rs.Catch.Performance.{CatchDifficultyAttributes}
use mamestagram_pp_rs.Catch.Counts.{
  ObjectCount, GradualObjectCount, ObjectCountBuilder, no_objects, new_regular, new_gradual,
  into_regular, into_gradual, set_object_count,
}
use mamestagram_pp_rs.Catch.Counts.Deltas.{
  Recorded, record_all, deltas, add_all, gradual-deltas, regular-deltas, Agree, regular_end-Agree,
}
use mamestagram_pp_rs.Catch.JuiceStream.{Offsets, PalpableObject, CatchParts}
use mamestagram_pp_rs.Util.Random.{ℤ, new}
use mamestagram_pp_rs.Catch.Objects.{convert_objects, reflect}
use mamestagram_pp_rs.Catch.Objects.Counted.{
  palpables, length-deltas, recorded_objects, convert_from-recorded,
}

module _ {Content A Slider : Type 0} (parts : CatchParts Content A Slider) where
  length-reflect :
      (horizontal : Bool) (objects : List (PalpableObject A))
      → length (if horizontal then map (reflect parts) objects else objects) ≡ length objects
  length-reflect true objects = length-map (reflect parts) objects
  length-reflect false objects = refl

module _ {Content A Slider : Type 0} (parts : CatchParts Content A Slider) (content : Content)
    (horizontal hr_offsets : Bool) (cs : A) where
  abbrev recorded_map : List Recorded
  recorded_map = recorded_objects parts content (parts.hit_objects content)

  convert_objects-run :
      (b : ObjectCountBuilder)
      → (found : List (PalpableObject A)) × (convert_objects parts content b horizontal hr_offsets
            cs
          ≡ some (parts.arrange cs found, record_all recorded_map b))
        × (length found ≡ palpables recorded_map)
  unfolding convert_objects
  convert_objects-run b =
      let start : Offsets A = record {
        last_pos = none;
        last_start_time = parts.zero_pos;
        rng = new (ℤ.pos 1337);
      } in
      let (objects, run, size) =
        convert_from-recorded parts content hr_offsets (parts.hit_objects content) start b in
      (
        if horizontal then map (reflect parts) objects else objects,
        rw run refl,
        length-reflect parts horizontal objects ∙ size,
      )

  -- `convert_objects` does not panic, and counts object by object as many objects as it makes, where
  -- `sort_by` and `initialize_hyper_dash` keep their number.
  pub convert_objects-deltas :
      ((found : List (PalpableObject A)) → length (parts.arrange cs found) ≡ length found)
      → (objects : List (PalpableObject A)) × (b : ObjectCountBuilder) × (counts : List
          GradualObjectCount)
        × (convert_objects parts content new_gradual horizontal hr_offsets cs ≡ some (objects, b))
        × (into_gradual b ≡ some counts)
        × (length counts ≡ length objects)
  unfolding new_gradual
  convert_objects-deltas same_length =
      let (found, run, size) = convert_objects-run new_gradual in
      (
        parts.arrange cs found,
        record_all recorded_map new_gradual,
        deltas recorded_map 0,
        run,
        gradual-deltas recorded_map 0 [],
        length-deltas recorded_map 0 ∙ sym size ∙ sym (same_length found),
      )

  first_n :
      (n : ℕ) (attrs : CatchDifficultyAttributes A)
      → n ≤ length (deltas recorded_map 0)
      → Agree attrs (deltas recorded_map 0) no_objects n (record_all recorded_map (new_regular n))
  unfolding new_regular ◌+u◌
  first_n zero attrs h = regular_end-Agree attrs recorded_map (deltas recorded_map 0) no_objects
  first_n (suc n) attrs h = regular-deltas attrs recorded_map n no_objects 0 (omega arith)

  -- What is counted for the first `n` objects of a map is what the counts object by object add up to, where
  -- there are as many objects.
  pub regular-gradual_counts :
      (n : ℕ) (attrs : CatchDifficultyAttributes A) (objects : List (PalpableObject A))
      (b : ObjectCountBuilder) (counts : List GradualObjectCount)
      → convert_objects parts content new_gradual horizontal hr_offsets cs ≡ some (objects, b)
      → into_gradual b ≡ some counts
      → n ≤ length counts
      → (objects' : List (PalpableObject A)) × (b' : ObjectCountBuilder) × (count : ObjectCount)
        × (convert_objects parts content (new_regular n) horizontal hr_offsets cs
            ≡ some (objects', b'))
        × (into_regular b' ≡ some count)
        × (set_object_count count attrs
            ≡ add_all (take n counts) (set_object_count no_objects attrs))
  unfolding new_gradual
  regular-gradual_counts n attrs objects b counts run made h =
      let (found, run', size) = convert_objects-run new_gradual in
      let made' = gradual-deltas recorded_map 0 [] in
      let same : deltas recorded_map 0 ≡ counts = cc (run, run', made, made') in
      let (objects', total, _) = convert_objects-run (new_regular n) in
      let (count, counted, sum) = first_n n attrs (subst (λ c. n ≤ length c) (sym same) h) in
      (
        parts.arrange cs objects',
        record_all recorded_map (new_regular n),
        count,
        total,
        counted,
        sym sum ∙ ap (λ c. add_all (take n c) (set_object_count no_objects attrs)) same,
      )
