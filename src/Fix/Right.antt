-- ===== src/Fix/Right.antt =====
-- The loop of `fix_node_and_affected_ancestors` at the first child of a parent.
use btree_monstrousity.Prelude.{
  refl, inl, ℕ, suc, ◌-◌, ◌<◌, ◌≡◌, ◌∷◌, length, get_elem?, some, arith, true, false, leb,
  All-get_elem?, take, length-append, get_elem?_of_lt,
}
use btree_monstrousity.Node.{InternalNode, Node, Parents, up, min_len}
use btree_monstrousity.Node.Content.{IsFilled, path_min}
use btree_monstrousity.Balance.{
  BalancingContext, left_child_len, right_child_len, can_merge, merge_nodes, merge_parent,
  shift_left, store,
}
use btree_monstrousity.Balance.Fill.{merge_nodes-IsFilled, length-merge_nodes, shift_left-IsFilled}
use btree_monstrousity.Balance.Steal.{replaced, do_merge_runs, bulk_steal_right_runs}
use btree_monstrousity.Fix.{fix_node_and_affected_ancestors}
use btree_monstrousity.Fix.Merge.{merge_right_around, steal_right_around}
use btree_monstrousity.Fix.Repair.{Repairs, Loses, merge_parent-IsFilled, replaced-IsFilled}
use btree_monstrousity.Fix.Branches.{fix_right_merges, fix_right_steals}
use btree_monstrousity.Fix.Room.{path_min_pos, can_merge_fits, cannot_merge_fits}

module _ {ℓ κ} {K : Type ℓ} {V : Type κ} where
  -- The node is the first child of its parent.
  module _ (h : ℕ) (n : Node K V (suc h)) (j : ℕ) (parent : InternalNode K V (Node K V (suc h)))
      (q : Parents K V (suc (suc h))) (ok : Loses h n j (up parent 0 q))
      (short : leb min_len (length n.kvs) ≡ false) where
    has_pair : 0 < length parent.kvs
    has_pair = omega (arith, ok.on_path.1.0, path_min_pos (suc h) q)

    pub repair_right_merge :
        (r : Node K V (suc h)) (kv : K × V)
        → get_elem? parent.edges 1 ≡ some r
        → get_elem? parent.kvs 0 ≡ some kv
        → can_merge {h = suc h}
            (record { parent = parent; idx = 0; left_child = n; right_child = r })
          ≡ true
        → ((parent' : InternalNode K V (Node K V (suc h)))
            → Loses (suc h) parent' 0 q
            → Repairs (suc h) parent' 0 q (fix_node_and_affected_ancestors (suc h) parent' 0 q))
        → Repairs h n j (up parent 0 q) (fix_node_and_affected_ancestors h n j (up parent 0 q))
    unfolding left_child_len right_child_len
    repair_right_merge r kv gr gkv can rec =
        let c : BalancingContext K V (suc h) = record {
          parent = parent;
          idx = 0;
          left_child = n;
          right_child = r;
        } in
        let (_, filled, above) = ok.on_path in
        let fr = All-get_elem? (IsFilled K V min_len (suc h)) parent.edges 1 filled.3 gr in
        let (stale, gl) = get_elem?_of_lt parent.edges 0 (omega (arith, filled.2)) in
        let fits = can_merge_fits h c can in
        let merged = merge_nodes (suc h) n kv r in
        let fm =
          merge_nodes-IsFilled ok.least min_len min_len (suc h) n kv r ok.node_filled fr fits
            (omega (arith, fr.0)) in
        let (fp, one) =
          merge_parent-IsFilled (path_min (suc (suc h)) q) (suc h) c merged filled has_pair fm in
        let parent' = merge_parent (suc h) c merged in
        let rest = rec parent' (record {
          least = 0;
          node_filled = fp;
          one_less = omega (arith, filled.0, one);
          in_node = omega arith;
          on_path = above;
        }) in
        record {
          node = merged;
          idx = j;
          path = up rest.node rest.idx rest.path;
          full = rest.full;
          runs =
              fix_right_merges h n r merged j rest.full parent parent' q
                (up rest.node rest.idx rest.path) short has_pair gr can
                (do_merge_runs (suc h) c kv gkv fits) rest.runs;
          around =
              merge_right_around h n r j 0 parent q kv filled.2 gkv stale gl gr ok.node_filled.2
                ok.in_node (up rest.node rest.idx rest.path) rest.around;
          filled = (omega (arith, ok.in_node, length-merge_nodes (suc h) n kv r), fm, rest.filled);
          emptied = rest.emptied;
        }

    pub repair_right_steal :
        (r : Node K V (suc h)) (kv : K × V)
        → get_elem? parent.edges 1 ≡ some r
        → get_elem? parent.kvs 0 ≡ some kv
        → can_merge {h = suc h}
            (record { parent = parent; idx = 0; left_child = n; right_child = r })
          ≡ false
        → Repairs h n j (up parent 0 q) (fix_node_and_affected_ancestors h n j (up parent 0 q))
    unfolding left_child_len right_child_len shift_left store
    repair_right_steal r kv gr gkv cannot =
        let c : BalancingContext K V (suc h) = record {
          parent = parent;
          idx = 0;
          left_child = n;
          right_child = r;
        } in
        let (_, filled, above) = ok.on_path in
        let fr = All-get_elem? (IsFilled K V min_len (suc h)) parent.edges 1 filled.3 gr in
        let (stale, gl) = get_elem?_of_lt parent.edges 0 (omega (arith, filled.2)) in
        let few : length n.kvs < min_len = ground arith in
        let many = cannot_merge_fits h c cannot in
        let count = min_len - length n.kvs in
        let m = count - 1 in
        let one : count ≡ 1 = omega (arith, ok.one_less, few) in
        let (x, here) = get_elem?_of_lt r.kvs m (omega arith) in
        let moved = shift_left (suc h) m n kv r in
        let c' = replaced c x moved in
        let (left, right) =
          shift_left-IsFilled ok.least min_len m min_len min_len (suc h) n kv r ok.node_filled fr
            (omega arith) (omega arith) (omega arith) (omega (arith, fr.1)) in
        let parent_filled =
          replaced-IsFilled (path_min (suc (suc h)) q) (suc h) c x moved.0 moved.1 filled left
            right in
        record {
          node = c'.left_child;
          idx = j;
          path = up (store c') 0 q;
          full = true;
          runs = fix_right_steals h n r j parent q c' short has_pair gr cannot (
              bulk_steal_right_runs (suc h) c count kv x gkv here (omega arith) (omega arith)
                (omega arith));
          around =
              steal_right_around h n r j 0 parent q kv filled.2 gkv stale gl gr ok.node_filled.2
                ok.in_node min_len m x fr here;
          filled = (
            omega (arith, ok.in_node, length-append n.kvs (kv ∷ take m r.kvs)),
            left,
            (omega arith, parent_filled, above),
          );
          emptied = inl refl;
        }
