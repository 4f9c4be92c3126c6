-- ===== src/Balance.antt =====
-- node.rs, lines 1276 to 1617: the two children next to a pair of an internal node are merged, or
-- one steals from the other.
pub mod Content
pub mod Fill
pub mod Steal
use btree_monstrousity.Prelude.{
  ℕ, zero, suc, ◌+◌, ◌-◌, List, [], ◌∷◌, ◌++◌, length, take, drop, set, get_elem?, Option, none,
  some, Bool, true, false, ltb, leb, ◌==◌, if◌then◌else◌, ◌&&◌,
}
use btree_monstrousity.Node.{InternalNode, Node, Parents, top, up, capacity, pairs}
use btree_monstrousity.Node.Slots.{slice_remove}
use btree_monstrousity.Node.Insert.{LeftOrRight}
use btree_monstrousity.Defined.{Defined, ◌>>=◌, assert}

-- The pair at `idx` of `parent` and the children on both sides of it, nodes of height `h`. The
-- children are kept aside; `store` writes them back.
pub record BalancingContext {ℓ κ} (K : Type ℓ) (V : Type κ) (h : ℕ) : Type (ℓ ⊔ κ) where
  pub parent : InternalNode K V (Node K V h)
  pub idx : ℕ
  pub left_child : Node K V h
  pub right_child : Node K V h

module _ {ℓ κ} {K : Type ℓ} {V : Type κ} {h : ℕ} where
  unfoldable pub left_child_len : BalancingContext K V h → ℕ
  left_child_len c = length (pairs h c.left_child)

  unfoldable pub right_child_len : BalancingContext K V h → ℕ
  right_child_len c = length (pairs h c.right_child)

  unfoldable pub can_merge : BalancingContext K V h → Bool
  unfolding left_child_len right_child_len
  can_merge c = leb (left_child_len c + 1 + right_child_len c) capacity

  unfoldable pub consider_for_balancing :
      InternalNode K V (Node K V h) → ℕ → Defined (BalancingContext K V h)
  consider_for_balancing parent idx = get_elem? parent.edges idx >>= λ l.
      get_elem? parent.edges (suc idx) >>= λ r.
      some (record { parent = parent; idx = idx; left_child = l; right_child = r })

  -- The context of a child at the edge `idx` of its parent: with the sibling on its left, if there
  -- is one, and else with the one on its right. A parent without pairs is unreachable.
  unfoldable pub choose_parent_kv :
      Node K V h
      → InternalNode K V (Node K V h)
      → ℕ
      → Defined (LeftOrRight (BalancingContext K V h))
  choose_parent_kv n parent idx =
      if ltb 0 idx
      then (get_elem? parent.edges (idx - 1) >>= λ l. some (
          LeftOrRight.left
            (record { parent = parent; idx = idx - 1; left_child = l; right_child = n })))
      else if ltb idx (length parent.kvs)
      then (get_elem? parent.edges (suc idx) >>= λ r. some (
          LeftOrRight.right
            (record { parent = parent; idx = idx; left_child = n; right_child = r })))
      else none

  -- The parent with both children in place.
  unfoldable pub store : BalancingContext K V h → InternalNode K V (Node K V h)
  store c = record c.parent {
    edges = set (set c.parent.edges c.idx c.left_child) (suc c.idx) c.right_child;
  }

module _ {ℓ κ} {K : Type ℓ} {V : Type κ} where
  -- The left node, extended by the pair of the parent and all of the right node.
  unfoldable pub merge_nodes : (h : ℕ) → Node K V h → K × V → Node K V h → Node K V h
  merge_nodes zero l kv r = l ++ kv ∷ r
  merge_nodes (suc h) l kv r = record { kvs = l.kvs ++ kv ∷ r.kvs; edges = l.edges ++ r.edges }

  -- The left node keeps `m` pairs; those behind the pair at `m` go in front of the right node.
  unfoldable pub shift_right :
      (h : ℕ) → ℕ → Node K V h → K × V → Node K V h → Node K V h × Node K V h
  shift_right zero m l kv r = (take m l, drop (suc m) l ++ kv ∷ r)
  shift_right (suc h) m l kv r = (
    record { kvs = take m l.kvs; edges = take (suc m) l.edges },
    record { kvs = drop (suc m) l.kvs ++ kv ∷ r.kvs; edges = drop (suc m) l.edges ++ r.edges },
  )

  -- The first `m` pairs of the right node go behind the left node.
  unfoldable pub shift_left :
      (h : ℕ) → ℕ → Node K V h → K × V → Node K V h → Node K V h × Node K V h
  shift_left zero m l kv r = (l ++ kv ∷ take m r, drop (suc m) r)
  shift_left (suc h) m l kv r = (
    record { kvs = l.kvs ++ kv ∷ take m r.kvs; edges = l.edges ++ take (suc m) r.edges },
    record { kvs = drop (suc m) r.kvs; edges = drop (suc m) r.edges },
  )

  -- The parent without the pair and the edge behind it, and with the merged child.
  unfoldable pub merge_parent :
      (h : ℕ) → BalancingContext K V h → Node K V h → InternalNode K V (Node K V h)
  merge_parent h c merged = record {
    kvs = slice_remove c.parent.kvs c.idx;
    edges = slice_remove (set c.parent.edges c.idx merged) (suc c.idx);
  }

  -- Both results that the callers track: the parent, and the merged child at its edge `idx`.
  unfoldable pub do_merge :
      (h : ℕ) → BalancingContext K V h → Defined (InternalNode K V (Node K V h) × Node K V h)
  do_merge h c = assert (leb (left_child_len c + 1 + right_child_len c) capacity) >>= λ _.
      get_elem? c.parent.kvs c.idx >>= λ kv.
      let merged = merge_nodes h c.left_child kv c.right_child in
      some (merge_parent h c merged, merged)

  unfoldable pub bulk_steal_left :
      (h : ℕ) → BalancingContext K V h → ℕ → Defined (BalancingContext K V h)
  bulk_steal_left h c count =
      let new_left_len = left_child_len c - count in
      assert
        (ltb 0 count && leb (right_child_len c + count) capacity && leb count (left_child_len c))
      >>= λ _. get_elem? (pairs h c.left_child) new_left_len >>= λ kv.
          get_elem? c.parent.kvs c.idx >>= λ parent_kv.
          let (l, r) = shift_right h new_left_len c.left_child parent_kv c.right_child in
          some (record {
            parent = record c.parent { kvs = set c.parent.kvs c.idx kv };
            idx = c.idx;
            left_child = l;
            right_child = r;
          })

  unfoldable pub bulk_steal_right :
      (h : ℕ) → BalancingContext K V h → ℕ → Defined (BalancingContext K V h)
  bulk_steal_right h c count =
      assert
        (ltb 0 count && leb (left_child_len c + count) capacity && leb count (right_child_len c))
      >>= λ _. get_elem? (pairs h c.right_child) (count - 1) >>= λ kv.
          get_elem? c.parent.kvs c.idx >>= λ parent_kv.
          let (l, r) = shift_left h (count - 1) c.left_child parent_kv c.right_child in
          some (record {
            parent = record c.parent { kvs = set c.parent.kvs c.idx kv };
            idx = c.idx;
            left_child = l;
            right_child = r;
          })
