-- ===== src/Fix.antt =====
-- fix.rs, lines 10 to 66: the repair of nodes that hold too few pairs. The position that a removal
-- tracks is the end of a path: where the source reaches it through the parent pointers, the repair
-- returns the path that leads to it afterwards.
pub mod Paths
pub mod Merge
pub mod Repair
pub mod Branches
pub mod Room
pub mod Left
pub mod Right
pub mod Ancestors
use btree_monstrousity.Prelude.{
  ℕ, zero, suc, ◌+◌, ◌-◌, List, [], ◌∷◌, ◌++◌, length, take, drop, set, get_elem?, Option, none,
  some, Bool, true, false, ltb, leb, ◌==◌, if◌then◌else◌,
}
use btree_monstrousity.Defined.{Defined, ◌>>=◌, assert}
use btree_monstrousity.Node.{
  LeafNode, InternalNode, Node, Root, Parents, top, up, capacity, min_len, pairs, replant,
}
use btree_monstrousity.Node.Slots.{slice_remove}
use btree_monstrousity.Node.Insert.{LeftOrRight}
use btree_monstrousity.Balance.{
  BalancingContext, left_child_len, right_child_len, can_merge, choose_parent_kv, do_merge,
  bulk_steal_left, bulk_steal_right, store,
}

module _ {ℓ κ} {K : Type ℓ} {V : Type κ} where
  -- The loop of `fix_node_and_affected_ancestors` at the node `n`, with the tracked position below
  -- its edge `j`: the path to that edge afterwards, and whether the root is not an empty internal
  -- node.
  unfoldable pub fix_node_and_affected_ancestors :
      (h : ℕ)
      → InternalNode K V (Node K V h)
      → ℕ
      → Parents K V (suc h)
      → Defined (Parents K V h × Bool)
  fix_node_and_affected_ancestors h n j top =
      some (up n j top, if leb min_len (length n.kvs) then true else ltb 0 (length n.kvs))
  fix_node_and_affected_ancestors h n j (up parent idx q) =
      if leb min_len (length n.kvs)
      then some (up n j (up parent idx q), true)
      else (choose_parent_kv n parent idx >>= λ side. elim side [
        | LeftOrRight.left c ↦
            if can_merge c
            then (do_merge (suc h) c >>= λ (parent', merged).
                fix_node_and_affected_ancestors (suc h) parent' c.idx q >>= λ (path, full).
                some (up merged (left_child_len c + 1 + j) path, full))
            else let count = min_len - length n.kvs in
              (bulk_steal_left (suc h) c count >>= λ c'.
              some (up c'.right_child (count + j) (up (store c') idx q), true))
        | LeftOrRight.right c ↦
            if can_merge c
            then (do_merge (suc h) c >>= λ (parent', merged).
                fix_node_and_affected_ancestors (suc h) parent' c.idx q >>= λ (path, full).
                some (up merged j path, full))
            else (bulk_steal_right (suc h) c (min_len - length n.kvs) >>= λ c'.
                some (up c'.left_child j (up (store c') idx q), true))
      ])
