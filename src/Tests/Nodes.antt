-- ===== src/Tests/Nodes.antt =====
-- Instances of the theorems on nodes and handles.
use btree_monstrousity.Prelude.{
  ℕ, ◌≡◌, refl, [], ◌∷◌, ◌++◌, drop, take, get_elem?, some, compare, arith, replicate,
}
use btree_monstrousity.Node.{LeafNode, InternalNode, Node, Root, Parents, top, up}
use btree_monstrousity.Node.Slots.{slice_insert}
use btree_monstrousity.Node.Content.{
  weave, entries, entries_after, root_entries, IsFilled, IsFilledRoot,
}
use btree_monstrousity.Node.Insert.{leaf_insert, internal_insert, insert_recursing, splitpoint}
use btree_monstrousity.Node.Insert.Split.{SplitsAt, splitpoint-SplitsAt}
use btree_monstrousity.Node.Insert.Step.{
  IsFilledResult, result_content, leaf_insert_step, internal_insert_step,
}
use btree_monstrousity.Node.Insert.Climb.{insert_recursing_lem}
use btree_monstrousity.Search.{find_key_index}
use btree_monstrousity.Search.Index.{Located, find_key_index-Located}
use btree_monstrousity.Balance.{
  BalancingContext, left_child_len, right_child_len, do_merge, bulk_steal_left, bulk_steal_right,
  store,
}
use btree_monstrousity.Balance.Fill.{IsContext}
use btree_monstrousity.Balance.Steal.{
  Stolen, do_merge_lem, bulk_steal_left_lem, bulk_steal_right_lem,
}
use btree_monstrousity.Fix.{fix_node_and_affected_ancestors}
use btree_monstrousity.Fix.Repair.{Repairs}
use btree_monstrousity.Fix.Ancestors.{fix_node_and_affected_ancestors_lem}
use btree_monstrousity.Remove.{remove_leaf_kv}
use btree_monstrousity.Remove.Rebalance.{Rebalances, rebalance_leaf_lem}
use btree_monstrousity.Remove.Leaf.{Settled, remove_leaf_kv_lem}
use btree_monstrousity.Remove.Next.{Lasts, last_leaf_edge_lem}
use btree_monstrousity.Remove.Replace.{ReplacesNext, replace_next_lem}
use btree_monstrousity.Remove.Tracking.{Removes, remove_kv_tracking_lem}
use btree_monstrousity.Tests.{five, middle, parent_of_two}

abbrev full_leaf : LeafNode ℕ ℕ
full_leaf = replicate 11 middle

abbrev full_node : InternalNode ℕ ℕ (Node ℕ ℕ 0)
full_node = record { kvs = replicate 11 middle; edges = replicate 12 (five 0) }

-- A node that lost a pair, its sibling, and its parent, which still has the node of before.
abbrev short_node : InternalNode ℕ ℕ (Node ℕ ℕ 0)
short_node = record { kvs = replicate 4 middle; edges = replicate 5 (five 0) }

abbrev sibling : InternalNode ℕ ℕ (Node ℕ ℕ 0)
sibling = record { kvs = replicate 5 middle; edges = replicate 6 (five 0) }

abbrev path_of_short : Parents ℕ ℕ 1
path_of_short = up (record { kvs = middle ∷ []; edges = sibling ∷ sibling ∷ [] }) 1 top

-- A leaf that lost a pair, and its parent.
abbrev short_leaf : LeafNode ℕ ℕ
short_leaf = replicate 4 middle

abbrev two_leaves : BalancingContext ℕ ℕ 0
two_leaves = record { parent = parent_of_two; idx = 0; left_child = five 11; right_child = five 5 }

two_leaves-IsContext : IsContext 5 5 two_leaves
two_leaves-IsContext = record {
  in_parent = omega arith;
  edges = refl;
  left = ground arith;
  right = ground arith;
}

remove_kv_tracking_lem_example : Removes 1 parent_of_two 0 top middle
remove_kv_tracking_lem_example =
    remove_kv_tracking_lem 1 parent_of_two 0 top middle refl (ground arith) tt

remove_leaf_kv_lem_example :
    (s : Settled (take 2 (five 11)) (drop 3 (five 11) ++ entries_after 0 (up parent_of_two 0 top)))
    × (remove_leaf_kv (five 11) 2 (up parent_of_two 0 top)
        ≡ some ((13, 2), (s.leaf, s.at, s.path), s.full))
remove_leaf_kv_lem_example =
    remove_leaf_kv_lem (five 11) 2 (up parent_of_two 0 top) (13, 2) refl (ground arith)
      (ground arith)

rebalance_leaf_lem_example : Rebalances short_leaf 2 parent_of_two 1 top
rebalance_leaf_lem_example =
    rebalance_leaf_lem short_leaf 2 parent_of_two top refl (omega arith) 1 (ground arith)

last_leaf_edge_lem_example : Lasts 1 parent_of_two top
last_leaf_edge_lem_example = last_leaf_edge_lem 1 parent_of_two top (ground arith) tt (omega arith)

replace_next_lem_example :
    ReplacesNext (λ h. 0) (12, 3) (five 11) 5 (up parent_of_two 0 top) middle (five 5)
replace_next_lem_example =
    replace_next_lem (λ h. 0) (12, 3) (five 11) 5 (up parent_of_two 0 top) middle (five 5)
      (ground arith) (ground arith) (omega arith) refl

fix_node_and_affected_ancestors_lem_example :
    Repairs 0 short_node 2 path_of_short
      (fix_node_and_affected_ancestors 0 short_node 2 path_of_short)
fix_node_and_affected_ancestors_lem_example =
    fix_node_and_affected_ancestors_lem 0 short_node 2 path_of_short (record {
      least = 0;
      node_filled = ground arith;
      one_less = omega arith;
      in_node = omega arith;
      on_path = ground arith;
    })

insert_recursing_lem_example :
    (root : Root ℕ ℕ) × (insert_recursing full_leaf 3 top (12, 3) ≡ some root)
    × IsFilledRoot ℕ ℕ root
    × (root_entries root ≡ take 3 full_leaf ++ (12, 3) ∷ (drop 3 full_leaf ++ []))
insert_recursing_lem_example =
    insert_recursing_lem full_leaf 3 top (12, 3) (ground arith) tt (omega arith)

splitpoint-SplitsAt_example : SplitsAt 6 (splitpoint 6)
splitpoint-SplitsAt_example = splitpoint-SplitsAt 6 (omega arith)

leaf_insert_step_example :
    IsFilledResult ℕ ℕ 0 0 (leaf_insert full_leaf 3 (12, 3))
    × (result_content (λ l. l) (leaf_insert full_leaf 3 (12, 3)) ≡ slice_insert full_leaf 3 (12, 3))
leaf_insert_step_example = leaf_insert_step 0 full_leaf 3 (12, 3) (ground arith) (omega arith)

internal_insert_step_example :
    IsFilledResult ℕ ℕ 1 1 (internal_insert full_node 3 (12, 3) (five 0))
    × (result_content (entries 1) (internal_insert full_node 3 (12, 3) (five 0))
        ≡ weave
            (entries {K = ℕ} {V = ℕ} 0)
            (slice_insert full_node.kvs 3 (12, 3))
            (slice_insert full_node.edges 4 (five 0)))
internal_insert_step_example =
    internal_insert_step 1 0 full_node 3 (12, 3) (five 0) (ground arith) (omega arith)
      (ground arith)

find_key_index-Located_example :
    Located (λ k. compare k 13) (five 11) 0 (find_key_index (λ k. compare k 13) (five 11) 0)
find_key_index-Located_example =
    find_key_index-Located (λ k. compare k 13) (five 11) 0 (omega arith)

do_merge_lem_example :
    (parent : InternalNode ℕ ℕ (Node ℕ ℕ 0)) × (merged : Node ℕ ℕ 0) × (do_merge 0 two_leaves
      ≡ some (parent, merged))
    × (entries 1 parent ≡ entries 1 (store two_leaves))
    × IsFilled ℕ ℕ 11 0 merged
unfolding left_child_len right_child_len
do_merge_lem_example = do_merge_lem 0 5 5 two_leaves two_leaves-IsContext (omega arith)

bulk_steal_left_lem_example :
    (c : BalancingContext ℕ ℕ 0) × (bulk_steal_left 0 two_leaves 2 ≡ some c)
    × (entries 1 (store c) ≡ entries 1 (store two_leaves))
    × IsContext 3 7 c
    × (x : ℕ × ℕ) × (get_elem? (two_leaves.left_child) 3 ≡ some x)
    × Stolen two_leaves c x 3 7
unfolding left_child_len right_child_len
bulk_steal_left_lem_example =
    bulk_steal_left_lem 0 5 5 two_leaves 2 two_leaves-IsContext (omega arith) (omega arith)
      (omega arith)

bulk_steal_right_lem_example :
    (c : BalancingContext ℕ ℕ 0) × (bulk_steal_right 0 two_leaves 2 ≡ some c)
    × (entries 1 (store c) ≡ entries 1 (store two_leaves))
    × IsContext 7 3 c
    × (x : ℕ × ℕ) × (get_elem? (two_leaves.right_child) 1 ≡ some x)
    × Stolen two_leaves c x 7 3
unfolding left_child_len right_child_len
bulk_steal_right_lem_example =
    bulk_steal_right_lem 0 5 5 two_leaves 2 two_leaves-IsContext (omega arith) (omega arith)
      (omega arith)
