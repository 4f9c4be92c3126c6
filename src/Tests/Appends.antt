-- ===== src/Tests/Appends.antt =====
-- Instances of the theorems on `append`.
use btree_monstrousity.Prelude.{ℕ, ◌≡◌, refl, [], ◌∷◌, some, arith, compare, Ordering}
use btree_monstrousity.Defined.{◌>>=◌}
use btree_monstrousity.Map.{BTreeMap, get}
use btree_monstrousity.Map.Upsert.{Behind, needle-IsCut}
use btree_monstrousity.Map.View.{map_entries, IsMap}
use btree_monstrousity.Append.{append}
use btree_monstrousity.Append.Merge.{merge}
use btree_monstrousity.Append.Sorted.{IsPairOrder}
use btree_monstrousity.Append.Whole.{IsAppended, append_lem}
use btree_monstrousity.Append.Lookup.{or_else, get-append}
use btree_monstrousity.Tests.{compare-IsTotalOrder, map_of_two, map_of_two-IsMap}

-- The maps of these tests have keys that go down.
abbrev down : ℕ × ℕ → ℕ × ℕ → Ordering
down x y = compare y.0 x.0

down-IsPairOrder : IsPairOrder (Behind compare) down
down-IsPairOrder = record {
  trans = λ a c d p q. ground arith;
  of_lt = λ x y e. ground arith;
  of_gt = λ x y e. ground arith;
  eq_before = λ x y k e p. ground arith;
}

-- One key of the map above, and two others.
abbrev map_of_three : BTreeMap ℕ ℕ
map_of_three = record {
  root = some (record { height = 0; node = (20, 1) ∷ (10, 2) ∷ (1, 3) ∷ [] });
  length = 3;
}

map_of_three-IsMap : IsMap (Behind compare) map_of_three
map_of_three-IsMap = record { filled = ground arith; sorted = ground arith; counted = refl }

append_lem_example :
    IsAppended
      (Behind compare)
      (merge down (map_entries map_of_two) (map_entries map_of_three))
      (append map_of_two map_of_three down)
append_lem_example =
    append_lem (Behind compare) down down-IsPairOrder map_of_two map_of_three map_of_two-IsMap
      map_of_three-IsMap

abbrev ten : ℕ → Ordering
ten k = compare k 10

down-agree : (x y : ℕ × ℕ) → down x y ≡ Ordering.eq → ten x.0 ≡ ten y.0
down-agree x y e = ground (arith, e)

get-append_example :
    (m' : BTreeMap ℕ ℕ) × (other' : BTreeMap ℕ ℕ) × (append map_of_two map_of_three down
      ≡ some (m', other'))
    × (get m' ten ≡ (get map_of_three ten >>= λ v. get map_of_two ten >>= λ u. some (or_else v u)))
get-append_example =
    get-append (Behind compare) ten (needle-IsCut compare compare-IsTotalOrder 10) down
      down-IsPairOrder down-agree map_of_two map_of_three map_of_two-IsMap map_of_three-IsMap
