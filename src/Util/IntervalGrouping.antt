-- ===== src/Util/IntervalGrouping.antt =====
-- src/util/interval_grouping.rs: objects grouped by runs of intervals that are almost the same.
-- Indices that are out of bounds panic, which is `none`, as is a `while` that runs out of fuel.
pub mod Groups
pub mod Collect
use mamestagram_pp_rs.Prelude.{
  ℕ, zero, suc, ◌+◌, ◌-◌, Bool, true, false, not, ◌&&◌, Option, none, some, List, [], ◌∷◌, ◌++◌,
  length, get_elem?, ◌>>=◌, ltb, if◌then◌else◌,
}
use mamestagram_pp_rs.F64.{F64}

pub record GroupedByInterval (T : Type 0) : Type 0 where
  pub objects : List T
  pub i : ℕ

unfoldable pub new : {T : Type 0} → List T → GroupedByInterval T
new objects = record { objects = objects; i = 0 }

unfoldable pub size_hint : {T : Type 0} → GroupedByInterval T → ℕ × ℕ
size_hint s = (if ltb 0 (length s.objects) then 1 else 0, length s.objects - s.i)

module _ {T A : Type 0} ⦃f : F64 A⦄ (interval : T → A) where
  -- `MARGIN_OF_ERROR`
  abbrev pub margin_of_error : A
  margin_of_error = f.from_u32 5

  -- `FloatExt::almost_eq` of src/util/float_ext.rs, within the margin
  unfoldable pub almost_eq : T → T → Bool
  almost_eq a b = f.le (f.abs (f.sub (interval a) (interval b))) margin_of_error

  -- After the loop: whether the last two objects have almost the same interval.
  unfoldable pub close_group : List T → ℕ → List T → Option (List T × ℕ)
  unfolding almost_eq
  close_group objects i group =
      if ltb 2 (length objects) && ltb i (length objects)
      then (do
        a ← get_elem? objects (length objects - 1)
        b ← get_elem? objects (length objects - 2)
        x ← get_elem? objects i
        some (if almost_eq a b then (group ++ x ∷ [], i + 1) else (group, i)))
      else some (group, i)

  -- `while *i < objects.len() - 1`
  unfoldable pub extend_group : ℕ → List T → ℕ → List T → Option (List T × ℕ)
  unfolding almost_eq close_group
  extend_group zero objects i group = none
  extend_group (suc fuel) objects i group =
      let rest = extend_group fuel objects (i + 1) in
      if ltb i (length objects - 1)
      then (do
        a ← get_elem? objects i
        b ← get_elem? objects (i + 1)
        (if not (almost_eq a b)
            then some (
                if f.lt (f.add (interval a) margin_of_error) (interval b)
                then (group ++ a ∷ [], i + 1)
                else (group, i))
            else rest (group ++ a ∷ [])))
      else close_group objects i group

  unfoldable pub create_next_group : GroupedByInterval T → Option (List T × GroupedByInterval T)
  unfolding extend_group
  create_next_group s = do
    x ← get_elem? s.objects s.i
    (group, i) ← extend_group (length s.objects) s.objects (s.i + 1) (x ∷ [])
    some (group, record s { i = i })

  -- `next`; the outer `Option` is a panic, the inner one what `next` returns.
  unfoldable pub next : GroupedByInterval T → Option (Option (List T) × GroupedByInterval T)
  unfolding create_next_group
  next s =
      if ltb s.i (length s.objects)
      then (do (group, s') ← create_next_group s; some (some group, s'))
      else some (none, s)
