-- ===== src/Remove.antt =====
-- remove.rs, and the steps of navigate.rs that it takes: removal of a pair from a leaf, and of a
-- pair of an internal node by way of the pair in front of it.
pub mod Around
pub mod Rebalance
pub mod Leaf
pub mod Next
pub mod Replace
pub mod Tracking
use btree_monstrousity.Prelude.{
  ℕ, zero, suc, ◌+◌, ◌-◌, List, [], ◌∷◌, length, set, get_elem?, Option, none, some, Bool, true,
  false, ltb, leb, if◌then◌else◌,
}
use btree_monstrousity.Defined.{Defined, ◌>>=◌, assert}
use btree_monstrousity.Node.{
  LeafNode, InternalNode, Node, Root, Parents, top, up, min_len, pairs, replant,
}
use btree_monstrousity.Node.Slots.{slice_remove}
use btree_monstrousity.Node.Insert.{LeftOrRight}
use btree_monstrousity.Balance.{
  BalancingContext, left_child_len, right_child_len, can_merge, choose_parent_kv, do_merge,
  bulk_steal_left, bulk_steal_right, store,
}
use btree_monstrousity.Fix.{fix_node_and_affected_ancestors}

module _ {ℓ κ} {K : Type ℓ} {V : Type κ} {h : ℕ} where
  -- The child edge that is tracked, after its node was merged.
  unfoldable pub merge_tracking_child_edge :
      BalancingContext K V h
      → LeftOrRight ℕ
      → Defined (Node K V h × ℕ × InternalNode K V (Node K V h) × ℕ)
  merge_tracking_child_edge c (LeftOrRight.left idx) = assert (leb idx (left_child_len c)) >>= λ _.
      do_merge h c >>= λ (parent, child). some (child, idx, parent, c.idx)
  merge_tracking_child_edge c (LeftOrRight.right idx) =
      assert (leb idx (right_child_len c)) >>= λ _.
      do_merge h c >>= λ (parent, child). some (child, left_child_len c + 1 + idx, parent, c.idx)

  unfoldable pub steal_left :
      BalancingContext K V h → ℕ → Defined (Node K V h × ℕ × InternalNode K V (Node K V h) × ℕ)
  steal_left c track_right_edge_idx = bulk_steal_left h c 1 >>= λ c'.
      some (c'.right_child, 1 + track_right_edge_idx, store c', suc c'.idx)

  unfoldable pub steal_right :
      BalancingContext K V h → ℕ → Defined (Node K V h × ℕ × InternalNode K V (Node K V h) × ℕ)
  steal_right c track_left_edge_idx =
      bulk_steal_right h c 1 >>= λ c'. some (c'.left_child, track_left_edge_idx, store c', c'.idx)

module _ {ℓ κ} {K : Type ℓ} {V : Type κ} where
  -- A leaf that holds too few pairs, below the edge `i` of its parent.
  unfoldable pub rebalance_leaf :
      LeafNode K V
      → ℕ
      → InternalNode K V (Node K V 0)
      → ℕ
      → Defined (LeafNode K V × ℕ × InternalNode K V (Node K V 0) × ℕ)
  rebalance_leaf n idx parent i = choose_parent_kv {h = 0} n parent i >>= λ side. elim side [
    | LeftOrRight.left c ↦
        if can_merge c
        then merge_tracking_child_edge c (LeftOrRight.right idx)
        else steal_left c idx
    | LeftOrRight.right c ↦
        if can_merge c
        then merge_tracking_child_edge c (LeftOrRight.left idx)
        else steal_right c idx
  ]

  -- The part of `remove_leaf_kv` behind the removal, for a leaf that may hold too few pairs.
  unfoldable pub settle_leaf :
      LeafNode K V → ℕ → Parents K V 0 → Defined ((LeafNode K V × ℕ × Parents K V 0) × Bool)
  settle_leaf n idx top = some ((n, idx, top), true)
  settle_leaf n idx (up parent i q) = rebalance_leaf n idx parent i >>= λ (n', idx', parent', i').
      fix_node_and_affected_ancestors 0 parent' i' q >>= λ (path, full).
      some ((n', idx', path), full)

  -- The pair removed, the edge where it was, and whether the root is not an emptied internal node.
  unfoldable pub remove_leaf_kv :
      LeafNode K V
      → ℕ
      → Parents K V 0
      → Defined ((K × V) × (LeafNode K V × ℕ × Parents K V 0) × Bool)
  remove_leaf_kv n idx path = get_elem? n idx >>= λ old_kv.
      let n' = slice_remove n idx in
      if ltb (length n') min_len
      then (settle_leaf n' idx path >>= λ (pos, full). some (old_kv, pos, full))
      else some (old_kv, (n', idx, path), true)

  -- `last_leaf_edge` with the parents passed.
  unfoldable pub last_leaf_edge :
      (h : ℕ) → Node K V h → Parents K V h → Defined (LeafNode K V × ℕ × Parents K V 0)
  last_leaf_edge zero n p = some (n, length n, p)
  last_leaf_edge (suc h) n p =
      get_elem? n.edges (length n.kvs) >>= λ child. last_leaf_edge h child (up n (length n.kvs) p)

  -- The climb of `next_kv` from the edge of a child, and `replace_kv` at the pair it finds.
  unfoldable pub replace_next_above :
      (h : ℕ) → Parents K V h → K × V → Defined ((K × V) × Parents K V h)
  replace_next_above h top kv = none
  replace_next_above h (up parent i q) kv =
      let above = replace_next_above (suc h) q kv in
      elim (get_elem? parent.kvs i) [
        | some old ↦ some (old, up (record parent { kvs = set parent.kvs i kv }) i q)
        | none ↦ above >>= λ (old, q'). some (old, up parent i q')
      ]

  -- `next_kv` from a leaf edge, and `replace_kv` there.
  unfoldable pub replace_next :
      LeafNode K V → ℕ → Parents K V 0 → K × V → Defined ((K × V) × Root K V)
  replace_next n idx p kv = elim (get_elem? n idx) [
    | some old ↦ some (old, replant 0 (set n idx kv) p)
    | none ↦ replace_next_above 0 p kv >>= λ (old, p'). some (old, replant 0 n p')
  ]

  unfoldable pub remove_internal_kv :
      (h : ℕ) → Node K V (suc h) → ℕ → Parents K V (suc h) → Defined ((K × V) × Root K V × Bool)
  remove_internal_kv h n idx p = get_elem? n.edges idx >>= λ child.
      last_leaf_edge h child (up n idx p) >>= λ (leaf, edge, leaf_path).
      assert (ltb 0 edge) >>= λ _.
      remove_leaf_kv leaf (edge - 1) leaf_path >>= λ (left_kv, (hole, at, path), full).
      replace_next hole at path left_kv >>= λ (old_kv, root). some (old_kv, root, full)

  -- The pair removed, the tree, and whether its root is not an emptied internal node.
  unfoldable pub remove_kv_tracking :
      (h : ℕ) → Node K V h → ℕ → Parents K V h → Defined ((K × V) × Root K V × Bool)
  remove_kv_tracking zero n idx p = remove_leaf_kv n idx p >>= λ (old_kv, (leaf, at, path), full).
      some (old_kv, replant 0 leaf path, full)
  remove_kv_tracking (suc h) n idx p = remove_internal_kv h n idx p
