-- ===== src/Catch/Performance.antt =====
-- src/catch/performance/mod.rs: `CatchPerformance` and how it completes a score
-- (`generate_state`), with `CatchScoreState` of src/catch/score_state.rs and the attributes of
-- src/catch/attributes.rs. `calculate_for_mode` is an argument.
pub mod Fruits
pub mod Tiny
pub mod Repeat
pub mod Setters
use mamestagram_pp_rs.Prelude.{
  ℕ, ◌-◌, Bool, Option, none, some, map_or, Result, ok, err, min, ◌+u◌, ◌-u◌, ◌*u◌, if◌then◌else◌,
  for_incl, ◌==◌,
}
use mamestagram_pp_rs.F64.{F64}
use mamestagram_pp_rs.F64.Nearest.{consider}
use mamestagram_pp_rs.Any.Settings.{Difficulty, MapOrAttrs, of_attrs, ConvertError, load_attrs}

pub record CatchScoreState : Type 0 where
  pub max_combo : ℕ
  pub fruits : ℕ
  pub droplets : ℕ
  pub tiny_droplets : ℕ
  pub tiny_droplet_misses : ℕ
  pub misses : ℕ

pub record CatchDifficultyAttributes (A : Type 0) : Type 0 where
  pub stars : A
  pub ar : A
  pub n_fruits : ℕ
  pub n_droplets : ℕ
  pub n_tiny_droplets : ℕ
  pub is_convert : Bool

pub record CatchPerformance (Map Mods A R : Type 0) : Type 0 where
  pub map_or_attrs : MapOrAttrs Map (CatchDifficultyAttributes A)
  pub difficulty : Difficulty Mods A R
  pub acc : Option A
  pub combo : Option ℕ
  pub fruits : Option ℕ
  pub droplets : Option ℕ
  pub tiny_droplets : Option ℕ
  pub tiny_droplet_misses : Option ℕ
  pub misses : Option ℕ

-- The pair `(n_fruits, n_droplets)`.
pub record Caught : Type 0 where
  pub fruits : ℕ
  pub droplets : ℕ

-- `best_state.tiny_droplets` and `best_state.tiny_droplet_misses`.
pub record Tinies : Type 0 where
  pub droplets : ℕ
  pub misses : ℕ

-- `attrs.max_combo()`
unfoldable pub max_combo_of : {A : Type 0} → CatchDifficultyAttributes A → ℕ
max_combo_of a = a.n_fruits +u a.n_droplets

-- Both counts given: fill up with droplets first, then cut the fruits, then the droplets.
unfoldable pub fit_both : ℕ → ℕ → ℕ → ℕ → ℕ → Caught
fit_both all_fruits all_droplets misses n_fruits n_droplets =
    let n_remaining = (all_fruits +u all_droplets) - (n_fruits +u n_droplets +u misses) in
    let new_droplets = min n_remaining (all_droplets - n_droplets) in
    let droplets = n_droplets +u new_droplets in
    let fruits = n_fruits +u (n_remaining -u new_droplets) in
    let fruits' = min fruits ((all_fruits +u all_droplets) - (droplets +u misses)) in
    let droplets' = min droplets (all_fruits +u all_droplets -u fruits' -u misses) in
    record { fruits = fruits'; droplets = droplets' }

-- `match (self.fruits, self.droplets)`
unfoldable pub fit : ℕ → ℕ → ℕ → Option ℕ → Option ℕ → Caught
unfolding fit_both
fit all_fruits all_droplets misses (some n_fruits) (some n_droplets) =
    fit_both all_fruits all_droplets misses n_fruits n_droplets
fit all_fruits all_droplets misses (some n_fruits) none =
    let n_droplets = all_droplets - (misses - (all_fruits - n_fruits)) in
    record { fruits = all_fruits +u all_droplets -u misses -u n_droplets; droplets = n_droplets }
fit all_fruits all_droplets misses none (some n_droplets) =
    let n_fruits = all_fruits - (misses - (all_droplets - n_droplets)) in
    record { fruits = n_fruits; droplets = all_fruits +u all_droplets -u misses -u n_fruits }
fit all_fruits all_droplets misses none none =
    let n_droplets = all_droplets - misses in
    record { fruits = all_fruits -u (misses -u (all_droplets - n_droplets)); droplets = n_droplets }

module _ {A : Type 0} ⦃f : F64 A⦄ where
  unfoldable pub accuracy : ℕ → ℕ → ℕ → ℕ → ℕ → A
  accuracy n_fruits n_droplets n_tiny_droplets n_tiny_droplet_misses misses =
      let numerator = n_fruits +u n_droplets +u n_tiny_droplets in
      let denominator = numerator +u n_tiny_droplet_misses +u misses in
      f.div (f.from_u32 numerator) (f.from_u32 denominator)

  -- `find_best_tiny_droplets`, over what it reads of the attributes, the fruits and droplets.
  module _ (attrs : CatchDifficultyAttributes A) (caught : Caught) (misses : ℕ) (acc : A) where
    abbrev pub raw_tiny_droplets : A
    raw_tiny_droplets =
        f.sub (f.mul acc (f.from_u32 (attrs.n_fruits +u attrs.n_droplets +u attrs.n_tiny_droplets)))
          (f.from_u32 (caught.fruits +u caught.droplets))

    abbrev pub min_tiny_droplets : ℕ
    min_tiny_droplets = min attrs.n_tiny_droplets (f.as_u32 (f.floor raw_tiny_droplets))

    abbrev pub max_tiny_droplets : ℕ
    max_tiny_droplets = min attrs.n_tiny_droplets (f.as_u32 (f.ceil raw_tiny_droplets))

    unfoldable pub try_tiny : ℕ → A × Tinies → A × Tinies
    try_tiny n_tiny_droplets (best_dist, best) =
        let n_misses = attrs.n_tiny_droplets -u n_tiny_droplets in
        let curr_acc = accuracy caught.fruits caught.droplets n_tiny_droplets n_misses misses in
        consider (f.abs (f.sub acc curr_acc))
          (record { droplets = n_tiny_droplets; misses = n_misses }) (best_dist, best)

    unfoldable pub find_best : Tinies
    unfolding try_tiny
    find_best =
        (for_incl min_tiny_droplets max_tiny_droplets try_tiny
          (f.infinity, record { droplets = 0; misses = 0 })).1

  -- `match (self.tiny_droplets, self.tiny_droplet_misses)`
  unfoldable pub choose_tiny :
      CatchDifficultyAttributes A → Caught → ℕ → Option A → Option ℕ → Option ℕ → Tinies
  unfolding find_best
  choose_tiny attrs caught misses (some acc) (some a) (some b) =
      if (a +u b) == attrs.n_tiny_droplets
      then record { droplets = a; misses = b }
      else find_best attrs caught misses acc
  choose_tiny attrs caught misses none (some a) (some b) = record {
    droplets = a +u (attrs.n_tiny_droplets - (a +u b));
    misses = b;
  }
  choose_tiny attrs caught misses acc (some a) none = record {
    droplets = min attrs.n_tiny_droplets a;
    misses = attrs.n_tiny_droplets - a;
  }
  choose_tiny attrs caught misses acc none (some b) = record {
    droplets = attrs.n_tiny_droplets - b;
    misses = min attrs.n_tiny_droplets b;
  }
  choose_tiny attrs caught misses (some acc) none none = find_best attrs caught misses acc
  choose_tiny attrs caught misses none none none = record {
    droplets = attrs.n_tiny_droplets;
    misses = 0;
  }

module _ {Map Mods A R : Type 0} where
  unfoldable pub misses_of : CatchPerformance Map Mods A R → CatchDifficultyAttributes A → ℕ
  misses_of p attrs = map_or p.misses 0 (λ n. min n (attrs.n_fruits +u attrs.n_droplets))

  -- `state`, and what `generate_state` writes back
  unfoldable pub state :
      CatchPerformance Map Mods A R → CatchScoreState → CatchPerformance Map Mods A R
  state p s = record p {
    combo = some s.max_combo;
    fruits = some s.fruits;
    droplets = some s.droplets;
    tiny_droplets = some s.tiny_droplets;
    tiny_droplet_misses = some s.tiny_droplet_misses;
    misses = some s.misses;
  }

module _ {Map Mods A R : Type 0} ⦃f : F64 A⦄ where
  -- `generate_state` from the line that has the attributes.
  unfoldable pub complete :
      CatchPerformance Map Mods A R → CatchDifficultyAttributes A → CatchScoreState
  unfolding misses_of max_combo_of
  complete p attrs =
      let misses = misses_of p attrs in
      let caught = fit attrs.n_fruits attrs.n_droplets misses p.fruits p.droplets in
      let tiny = choose_tiny attrs caught misses p.acc p.tiny_droplets p.tiny_droplet_misses in
      record {
        max_combo = map_or p.combo (max_combo_of attrs -u misses) (λ combo. combo);
        fruits = caught.fruits;
        droplets = caught.droplets;
        tiny_droplets = tiny.droplets;
        tiny_droplet_misses = tiny.misses;
        misses = misses;
      }

  unfoldable pub generate_state :
      (Map → Result (CatchDifficultyAttributes A) ConvertError)
      → CatchPerformance Map Mods A R
      → CatchPerformance Map Mods A R × Result CatchScoreState ConvertError
  unfolding load_attrs complete state
  generate_state calculate p = elim (load_attrs calculate p.map_or_attrs) [
    | err e ↦ (p, err e)
    | ok attrs ↦
        let s = complete p attrs in (state (record p { map_or_attrs = of_attrs attrs }) s, ok s)
  ]
