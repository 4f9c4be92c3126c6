-- ===== src/Fix/Left.antt =====
-- The loop of `fix_node_and_affected_ancestors` at a node with a sibling on its left.
use btree_monstrousity.Prelude.{
  refl, inl, ℕ, suc, ◌+◌, ◌-◌, ◌<◌, ◌≡◌, ◌∷◌, length, get_elem?, some, arith, true, false, leb,
  All-get_elem?, drop, length-append, length-drop, length-set, get_elem?_of_lt,
}
use btree_monstrousity.Node.{InternalNode, Node, Parents, up, min_len}
use btree_monstrousity.Node.Content.{IsFilled, path_min}
use btree_monstrousity.Balance.{
  BalancingContext, left_child_len, right_child_len, can_merge, merge_nodes, merge_parent,
  shift_right, store,
}
use btree_monstrousity.Balance.Fill.{merge_nodes-IsFilled, length-merge_nodes, shift_right-IsFilled}
use btree_monstrousity.Balance.Steal.{replaced, do_merge_runs, bulk_steal_left_runs}
use btree_monstrousity.Fix.{fix_node_and_affected_ancestors}
use btree_monstrousity.Fix.Merge.{merge_left_around, steal_left_around}
use btree_monstrousity.Fix.Repair.{Repairs, Loses, merge_parent-IsFilled, replaced-IsFilled}
use btree_monstrousity.Fix.Branches.{fix_left_merges, fix_left_steals}
use btree_monstrousity.Fix.Room.{can_merge_fits, cannot_merge_fits}

module _ {ℓ κ} {K : Type ℓ} {V : Type κ} where
  -- The node is behind the pair `i` of its parent.
  module _ (h : ℕ) (n : Node K V (suc h)) (j i : ℕ) (parent : InternalNode K V (Node K V (suc h)))
      (q : Parents K V (suc (suc h))) (ok : Loses h n j (up parent (suc i) q))
      (short : leb min_len (length n.kvs) ≡ false) where
    in_parent : i < length parent.kvs
    in_parent = omega (arith, ok.on_path.0)

    pub repair_left_merge :
        (l : Node K V (suc h)) (kv : K × V)
        → get_elem? parent.edges i ≡ some l
        → get_elem? parent.kvs i ≡ some kv
        → can_merge {h = suc h}
            (record { parent = parent; idx = i; left_child = l; right_child = n })
          ≡ true
        → ((parent' : InternalNode K V (Node K V (suc h)))
            → Loses (suc h) parent' i q
            → Repairs (suc h) parent' i q (fix_node_and_affected_ancestors (suc h) parent' i q))
        → Repairs h n j
            (up parent (suc i) q)
            (fix_node_and_affected_ancestors h n j (up parent (suc i) q))
    unfolding left_child_len right_child_len
    repair_left_merge l kv gl gkv can rec =
        let c : BalancingContext K V (suc h) = record {
          parent = parent;
          idx = i;
          left_child = l;
          right_child = n;
        } in
        let (_, filled, above) = ok.on_path in
        let fl = All-get_elem? (IsFilled K V min_len (suc h)) parent.edges i filled.3 gl in
        let (stale, gr) =
          get_elem?_of_lt parent.edges (suc i) (omega (arith, filled.2, in_parent)) in
        let fits = can_merge_fits h c can in
        let merged = merge_nodes (suc h) l kv n in
        let fm =
          merge_nodes-IsFilled min_len ok.least min_len (suc h) l kv n fl ok.node_filled fits
            (omega (arith, fl.0)) in
        let (fp, one) =
          merge_parent-IsFilled (path_min (suc (suc h)) q) (suc h) c merged filled in_parent fm in
        let parent' = merge_parent (suc h) c merged in
        let rest = rec parent' (record {
          least = 0;
          node_filled = fp;
          one_less = omega (arith, filled.0, one);
          in_node = omega (arith, in_parent, one);
          on_path = above;
        }) in
        record {
          node = merged;
          idx = length l.kvs + 1 + j;
          path = up rest.node rest.idx rest.path;
          full = rest.full;
          runs =
              fix_left_merges h n l merged j i rest.full parent parent' q
                (up rest.node rest.idx rest.path) short gl can (do_merge_runs (suc h) c kv gkv fits)
                rest.runs;
          around =
              merge_left_around h n l j i parent q kv filled.2 gkv gl stale gr fl.2
                (up rest.node rest.idx rest.path) rest.around;
          filled = (omega (arith, ok.in_node, length-merge_nodes (suc h) l kv n), fm, rest.filled);
          emptied = rest.emptied;
        }

    pub repair_left_steal :
        (l : Node K V (suc h)) (kv : K × V)
        → get_elem? parent.edges i ≡ some l
        → get_elem? parent.kvs i ≡ some kv
        → can_merge {h = suc h}
            (record { parent = parent; idx = i; left_child = l; right_child = n })
          ≡ false
        → Repairs h n j
            (up parent (suc i) q)
            (fix_node_and_affected_ancestors h n j (up parent (suc i) q))
    unfolding left_child_len right_child_len shift_right store
    repair_left_steal l kv gl gkv cannot =
        let c : BalancingContext K V (suc h) = record {
          parent = parent;
          idx = i;
          left_child = l;
          right_child = n;
        } in
        let (_, filled, above) = ok.on_path in
        let fl = All-get_elem? (IsFilled K V min_len (suc h)) parent.edges i filled.3 gl in
        let (stale, gr) =
          get_elem?_of_lt parent.edges (suc i) (omega (arith, filled.2, in_parent)) in
        let few : length n.kvs < min_len = ground arith in
        let many = cannot_merge_fits h c cannot in
        let count = min_len - length n.kvs in
        let m = length l.kvs - count in
        let one : count ≡ 1 = omega (arith, ok.one_less, few) in
        let (x, here) = get_elem?_of_lt l.kvs m (omega arith) in
        let moved = shift_right (suc h) m l kv n in
        let c' = replaced c x moved in
        let (left, right) =
          shift_right-IsFilled min_len ok.least m min_len min_len (suc h) l kv n fl ok.node_filled
            (omega arith) (omega (arith, ok.node_filled.1)) (omega arith) (omega arith) in
        let parent_filled =
          replaced-IsFilled (path_min (suc (suc h)) q) (suc h) c x moved.0 moved.1 filled left
            right in
        record {
          node = c'.right_child;
          idx = count + j;
          path = up (store c') (suc i) q;
          full = true;
          runs = fix_left_steals h n l j i parent q c' short gl cannot (
              bulk_steal_left_runs (suc h) c count kv x gkv here (omega arith) (omega arith)
                (omega arith));
          around =
              steal_left_around h n l j i parent q kv filled.2 gkv gl stale gr fl.2 min_len m count
                x fl here (omega arith);
          filled = (
            omega (
              arith,
              ok.in_node,
              length-append (drop (suc m) l.kvs) (kv ∷ n.kvs),
              length-drop (suc m) l.kvs,
            ),
            right,
            (omega (arith, in_parent, length-set parent.kvs i x), parent_filled, above),
          );
          emptied = inl refl;
        }
