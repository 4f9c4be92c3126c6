-- ===== src/Tests/Ranges.antt =====
-- Instances of the theorems on ranges.
use btree_monstrousity.Prelude.{
  ℕ, ◌≡◌, ◌↔◌, refl, true, List, [], ◌∷◌, length, none, some, compare, arith,
}
use btree_monstrousity.Node.{top, up}
use btree_monstrousity.Map.View.{map_entries}
use btree_monstrousity.Map.Upsert.{Behind, needle-IsCut}
use btree_monstrousity.Navigate.{LeafEdge}
use btree_monstrousity.Navigate.Ends.{IsEdge}
use btree_monstrousity.Iter.Script.{End, from_front, from_back, pop_ends}
use btree_monstrousity.Range.{
  LeafRange, SearchBoundCustom, from_custom, range, next_checked, same_edge,
}
use btree_monstrousity.Range.Select.{select}
use btree_monstrousity.Range.Script.{range_calls, range_calls-range}
use btree_monstrousity.Range.Reversed.{range-reversed}
use btree_monstrousity.Range.Position.{same_edge_lem}
use btree_monstrousity.Tests.{
  compare-IsTotalOrder, five, middle, parent_of_two, root_of_two, map_of_two, map_of_two-IsMap,
}

abbrev three_calls : List End
three_calls = from_front ∷ from_back ∷ from_back ∷ []

-- From 13 down to 8, which the map has last in front.
range_calls-range_example :
    (r : LeafRange ℕ ℕ) × (range
        (λ k. compare k 13)
        (λ k. compare k 8)
        map_of_two
        SearchBoundCustom.included
        SearchBoundCustom.excluded
      ≡ some r)
    × (range_calls three_calls r
        ≡ some (
            pop_ends three_calls (
              select
                (λ k. compare k 13)
                (λ k. compare k 8)
                (from_custom SearchBoundCustom.included)
                (from_custom SearchBoundCustom.excluded)
                (map_entries map_of_two))))
range_calls-range_example =
    range_calls-range (Behind compare) (λ k. compare k 13) (λ k. compare k 8)
      (needle-IsCut compare compare-IsTotalOrder 13) (needle-IsCut compare compare-IsTotalOrder 8)
      map_of_two SearchBoundCustom.included SearchBoundCustom.excluded three_calls map_of_two-IsMap

range-reversed_example :
    (r : LeafRange ℕ ℕ) × (range
        (λ k. compare k 8)
        (λ k. compare k 13)
        map_of_two
        SearchBoundCustom.included
        SearchBoundCustom.excluded
      ≡ some r)
    × (next_checked r ≡ some (none, r))
range-reversed_example =
    range-reversed compare 8 13 SearchBoundCustom.included SearchBoundCustom.excluded map_of_two
      compare-IsTotalOrder refl (λ e. cc) (λ e. cc) map_of_two-IsMap

abbrev first_edge : LeafEdge ℕ ℕ
first_edge = record { leaf = five 11; idx = 0; path = up parent_of_two 0 top }

abbrev root_edge : LeafEdge ℕ ℕ
root_edge = record { leaf = five 5; idx = 0; path = up parent_of_two 1 top }

first_edge-IsEdge : IsEdge root_of_two first_edge [] (map_entries map_of_two)
first_edge-IsEdge = record {
  of_root = ((refl, tt), refl);
  in_leaf = omega arith;
  filled = ground arith;
  on_path = ground arith;
  before = refl;
  after = refl;
}

abbrev six : List (ℕ × ℕ)
six = (15, 4) ∷ (14, 3) ∷ (13, 2) ∷ (12, 1) ∷ (11, 0) ∷ middle ∷ []

root_edge-IsEdge : IsEdge root_of_two root_edge six (five 5)
root_edge-IsEdge = record {
  of_root = ((refl, tt), refl);
  in_leaf = omega arith;
  filled = ground arith;
  on_path = ground arith;
  before = refl;
  after = refl;
}

same_edge_lem_example : (same_edge first_edge root_edge ≡ true) ↔ (0 ≡ length six)
same_edge_lem_example =
    same_edge_lem root_of_two first_edge root_edge [] six (map_entries map_of_two) (five 5)
      (map_of_two-IsMap.filled) first_edge-IsEdge root_edge-IsEdge
