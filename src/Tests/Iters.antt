-- ===== src/Tests/Iters.antt =====
-- Instances of the theorems on iterators, handles and clones, and runs of iterators from both ends.
use btree_monstrousity.Prelude.{ℕ, suc, ◌≡◌, refl, List, [], ◌∷◌, some, arith}
use btree_monstrousity.Node.{top, up}
use btree_monstrousity.Map.View.{map_entries}
use btree_monstrousity.Navigate.{LeafEdge, next_unchecked, next_back_unchecked}
use btree_monstrousity.Navigate.Ends.{IsEdge}
use btree_monstrousity.Navigate.Step.{next_back_unchecked-next_unchecked}
use btree_monstrousity.Clone.{clone}
use btree_monstrousity.Clone.Whole.{IsCloned, clone_lem}
use btree_monstrousity.Iter.{iter, collect}
use btree_monstrousity.Iter.Script.{
  End, from_front, from_back, calls, pop_ends, calls-iter, collect-iter,
}
use btree_monstrousity.Tests.{
  five, middle, parent_of_two, root_of_two, map_of_two, map_of_two-IsMap,
}

abbrev both_ends : List End
both_ends = from_front ∷ from_back ∷ from_back ∷ []

calls-iter_example :
    calls both_ends (iter map_of_two) ≡ some (pop_ends both_ends (map_entries map_of_two))
calls-iter_example = calls-iter map_of_two both_ends map_of_two-IsMap

collect-iter_example : collect 12 (iter map_of_two) ≡ some (map_entries map_of_two)
collect-iter_example = collect-iter map_of_two 12 map_of_two-IsMap (omega arith)

-- The edge at the end of the first leaf, in front of the pair of the root.
abbrev end_of_first : LeafEdge ℕ ℕ
end_of_first = record { leaf = five 11; idx = 5; path = up parent_of_two 0 top }

end_of_first-IsEdge : IsEdge root_of_two end_of_first (five 11) (middle ∷ five 5)
end_of_first-IsEdge = record {
  of_root = ((refl, tt), refl);
  in_leaf = omega arith;
  filled = ground arith;
  on_path = ground arith;
  before = refl;
  after = refl;
}

next_back_unchecked-next_unchecked_example :
    (e' : LeafEdge ℕ ℕ) × (e'' : LeafEdge ℕ ℕ) × (next_unchecked end_of_first ≡ some (middle, e'))
    × (next_back_unchecked e' ≡ some (middle, e''))
    × IsEdge root_of_two e'' (five 11) (middle ∷ five 5)
next_back_unchecked-next_unchecked_example =
    next_back_unchecked-next_unchecked root_of_two end_of_first (five 11) middle (five 5)
      end_of_first-IsEdge

clone_lem_example : IsCloned suc suc (map_entries map_of_two) (clone suc suc map_of_two)
clone_lem_example = clone_lem suc suc map_of_two (map_of_two-IsMap.filled) refl
