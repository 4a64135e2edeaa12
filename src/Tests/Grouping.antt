-- ===== src/Tests/Grouping.antt =====
-- Examples for src/util/interval_grouping.rs.
use mamestagram_pp_rs.Prelude.{ℕ, ◌≤◌, ◌+◌, ◌≡◌, List, [], ◌∷◌, some, length}
use mamestagram_pp_rs.F64.Model.{Approx, approx_f64}
use mamestagram_pp_rs.Util.IntervalGrouping.{new, size_hint}
use mamestagram_pp_rs.Util.IntervalGrouping.Collect.{collect, concat, NoneEmpty, collect-groups}

-- The interval of an object, in milliseconds.
abbrev interval : ℕ → Approx
interval n = approx_f64.from_u32 n

abbrev intervals : List ℕ
intervals = 100 ∷ 102 ∷ 99 ∷ 200 ∷ 201 ∷ 50 ∷ []

collect-groups_example :
    (groups : List (List ℕ)) × (collect interval (length intervals + 1) (new intervals)
      ≡ some groups)
    × (concat groups ≡ intervals)
    × NoneEmpty groups
    × (length groups ≤ (size_hint (new intervals)).1)
collect-groups_example = collect-groups interval intervals
