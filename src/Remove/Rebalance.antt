-- ===== src/Remove/Rebalance.antt =====
-- A leaf that lost a pair takes one from a sibling, or is merged with it.
use btree_monstrousity.Prelude.{
  ℕ, zero, suc, ◌+◌, ◌-◌, ◌≤◌, ◌<◌, ◌≡◌, refl, ◌⊎◌, inl, inr, ◌∷◌, ◌++◌, length, take, drop,
  get_elem?, some, arith, true, false, leb, Bool-cases, All-get_elem?, length-take, length-drop,
  length-set, length-append, get_elem?_bound, get_elem?_of_lt,
}
use btree_monstrousity.Node.{LeafNode, InternalNode, Node, Parents, up, min_len, capacity}
use btree_monstrousity.Node.Content.{IsFilled, IsFilledPath, path_min}
use btree_monstrousity.Balance.{
  BalancingContext, left_child_len, right_child_len, can_merge, merge_nodes, merge_parent,
  shift_right, shift_left, store,
}
use btree_monstrousity.Balance.Steal.{
  replaced, do_merge_runs, bulk_steal_left_runs, bulk_steal_right_runs,
}
use btree_monstrousity.Fix.Repair.{Loses, merge_parent-IsFilled, replaced-IsFilled}
use btree_monstrousity.Fix.Branches.{choose_left, choose_right}
use btree_monstrousity.Fix.Room.{path_min_pos}
use btree_monstrousity.Remove.{merge_tracking_child_edge, steal_left, steal_right, rebalance_leaf}
use btree_monstrousity.Remove.Around.{
  SameAt, merge_left_at, steal_left_at, merge_right_at, steal_right_at,
}

module _ {ℓ κ} {K : Type ℓ} {V : Type κ} where
  -- The leaf and the parent after a rebalance, with the position that is tracked.
  pub record Rebalances (n : LeafNode K V) (j : ℕ) (parent : InternalNode K V (Node K V 0)) (i : ℕ)
      (q : Parents K V 1) : Type (ℓ ⊔ κ) where
    pub leaf : LeafNode K V
    pub at : ℕ
    pub node : InternalNode K V (Node K V 0)
    pub idx : ℕ
    pub runs : rebalance_leaf n j parent i ≡ some (leaf, at, node, idx)
    pub around : SameAt leaf at (up node idx q) n j (up parent i q)
    pub filled : IsFilled K V min_len 0 leaf
    pub in_leaf : at ≤ length leaf
    pub loses : Loses 0 node idx q
    pub parent_len :
        (length node.kvs ≡ length parent.kvs) ⊎ (suc (length node.kvs) ≡ length parent.kvs)

  module _ (n : LeafNode K V) (j : ℕ) (parent : InternalNode K V (Node K V 0)) (q : Parents K V 1)
      (less : length n + 1 ≡ min_len) (in_leaf : j ≤ length n) where
    -- The leaf is behind the pair `i` of its parent.
    module _ (i : ℕ) (w : IsFilledPath K V 0 (up parent (suc i) q)) (l : LeafNode K V) (kv : K × V)
        (gl : get_elem? parent.edges i ≡ some l) (gkv : get_elem? parent.kvs i ≡ some kv) where
      abbrev left_side : BalancingContext K V 0
      left_side = record { parent = parent; idx = i; left_child = l; right_child = n }

      rebalance_left_merge : can_merge left_side ≡ true → Rebalances n j parent (suc i) q
      unfolding rebalance_leaf merge_tracking_child_edge left_child_len right_child_len merge_nodes
      rebalance_left_merge can =
          let (_, filled, above) = w in
          let in_parent = get_elem?_bound parent.kvs i gkv in
          let fl = All-get_elem? (IsFilled K V min_len 0) parent.edges i filled.3 gl in
          let (stale, gr) =
            get_elem?_of_lt parent.edges (suc i) (omega (arith, filled.2, in_parent)) in
          let fits : length l + 1 + length n ≤ capacity =
            let e : leb (length l + 1 + length n) capacity ≡ true = unfold can_merge in can in
            ground arith in
          let fm : IsFilled K V min_len 0 (l ++ kv ∷ n) =
            omega (arith, fl.0, fits, length-append l (kv ∷ n)) in
          let (fp, one) =
            merge_parent-IsFilled (path_min 1 q) 0 left_side (l ++ kv ∷ n) filled in_parent fm in
          let inside : leb j (length n) ≡ true = ground arith in
          record {
            leaf = l ++ kv ∷ n;
            at = length l + 1 + j;
            node = merge_parent 0 left_side (l ++ kv ∷ n);
            idx = i;
            runs =
                rw
                  (
                    choose_left 0 n l parent i gl,
                    can,
                    inside,
                    do_merge_runs 0 left_side kv gkv fits,
                  )
                  refl;
            around = merge_left_at n l j i parent q kv filled.2 gkv gl stale gr;
            filled = fm;
            in_leaf = omega (arith, length-append l (kv ∷ n));
            loses = record {
              least = 0;
              node_filled = fp;
              one_less = omega (arith, filled.0, one);
              in_node = omega (arith, in_parent, one);
              on_path = above;
            };
            parent_len = inr (omega (arith, one));
          }

      rebalance_left_steal : can_merge left_side ≡ false → Rebalances n j parent (suc i) q
      unfolding rebalance_leaf steal_left left_child_len right_child_len shift_right store
      rebalance_left_steal cannot =
          let (_, filled, above) = w in
          let in_parent = get_elem?_bound parent.kvs i gkv in
          let fl = All-get_elem? (IsFilled K V min_len 0) parent.edges i filled.3 gl in
          let (stale, gr) =
            get_elem?_of_lt parent.edges (suc i) (omega (arith, filled.2, in_parent)) in
          let many : capacity < length l + 1 + length n =
            let e : leb (length l + 1 + length n) capacity ≡ false = unfold can_merge in cannot in
            ground arith in
          let m = length l - 1 in
          let (x, here) = get_elem?_of_lt l m (omega arith) in
          let moved = shift_right 0 m l kv n in
          let c' = replaced left_side x moved in
          let left : IsFilled K V min_len 0 moved.0 = omega (arith, fl.1, length-take m l) in
          let right : IsFilled K V min_len 0 moved.1 =
            omega (arith, length-append (drop (suc m) l) (kv ∷ n), length-drop (suc m) l) in
          let fp =
            replaced-IsFilled (path_min 1 q) 0 left_side x moved.0 moved.1 filled left right in
          let same = length-set parent.kvs i x in
          record {
            leaf = c'.right_child;
            at = 1 + j;
            node = store c';
            idx = suc i;
            runs =
                rw
                  (
                    choose_left 0 n l parent i gl,
                    cannot,
                    bulk_steal_left_runs 0 left_side 1 kv x gkv here (omega arith) (omega arith)
                        (omega arith),
                  )
                  refl;
            around =
                steal_left_at n l j i parent q kv filled.2 gkv gl stale gr m x here (omega arith);
            filled = right;
            in_leaf = omega (arith, length-append (drop (suc m) l) (kv ∷ n), length-drop (suc m) l);
            loses = record {
              least = path_min 1 q;
              node_filled = fp;
              one_less = omega (arith, filled.0);
              in_node = omega (arith, in_parent);
              on_path = above;
            };
            parent_len = inl (length-set parent.kvs i x);
          }

    -- The leaf is the first child of its parent.
    module _ (w : IsFilledPath K V 0 (up parent 0 q)) (r : LeafNode K V) (kv : K × V)
        (gr : get_elem? parent.edges 1 ≡ some r) (gkv : get_elem? parent.kvs 0 ≡ some kv) where
      abbrev right_side : BalancingContext K V 0
      right_side = record { parent = parent; idx = 0; left_child = n; right_child = r }

      rebalance_right_merge : can_merge right_side ≡ true → Rebalances n j parent 0 q
      unfolding rebalance_leaf merge_tracking_child_edge left_child_len right_child_len merge_nodes
      rebalance_right_merge can =
          let (_, filled, above) = w in
          let in_parent = get_elem?_bound parent.kvs 0 gkv in
          let fr = All-get_elem? (IsFilled K V min_len 0) parent.edges 1 filled.3 gr in
          let (stale, gl) = get_elem?_of_lt parent.edges 0 (omega (arith, filled.2)) in
          let fits : length n + 1 + length r ≤ capacity =
            let e : leb (length n + 1 + length r) capacity ≡ true = unfold can_merge in can in
            ground arith in
          let fm : IsFilled K V min_len 0 (n ++ kv ∷ r) =
            omega (arith, fr.0, fits, length-append n (kv ∷ r)) in
          let (fp, one) =
            merge_parent-IsFilled (path_min 1 q) 0 right_side (n ++ kv ∷ r) filled in_parent fm in
          let inside : leb j (length n) ≡ true = ground arith in
          record {
            leaf = n ++ kv ∷ r;
            at = j;
            node = merge_parent 0 right_side (n ++ kv ∷ r);
            idx = 0;
            runs =
                rw
                  (
                    choose_right 0 n r parent in_parent gr,
                    can,
                    inside,
                    do_merge_runs 0 right_side kv gkv fits,
                  )
                  refl;
            around = merge_right_at n r j 0 parent q kv filled.2 gkv stale gl gr in_leaf;
            filled = fm;
            in_leaf = omega (arith, length-append n (kv ∷ r));
            loses = record {
              least = 0;
              node_filled = fp;
              one_less = omega (arith, filled.0, one);
              in_node = omega arith;
              on_path = above;
            };
            parent_len = inr (omega (arith, one));
          }

      rebalance_right_steal : can_merge right_side ≡ false → Rebalances n j parent 0 q
      unfolding rebalance_leaf steal_right left_child_len right_child_len shift_left store
      rebalance_right_steal cannot =
          let (_, filled, above) = w in
          let in_parent = get_elem?_bound parent.kvs 0 gkv in
          let fr = All-get_elem? (IsFilled K V min_len 0) parent.edges 1 filled.3 gr in
          let (stale, gl) = get_elem?_of_lt parent.edges 0 (omega (arith, filled.2)) in
          let many : capacity < length n + 1 + length r =
            let e : leb (length n + 1 + length r) capacity ≡ false = unfold can_merge in cannot in
            ground arith in
          let (x, here) = get_elem?_of_lt r 0 (omega arith) in
          let moved = shift_left 0 0 n kv r in
          let c' = replaced right_side x moved in
          let left : IsFilled K V min_len 0 moved.0 =
            omega (arith, length-append n (kv ∷ take 0 r), length-take 0 r) in
          let right : IsFilled K V min_len 0 moved.1 = omega (arith, fr.1, length-drop 1 r) in
          let fp =
            replaced-IsFilled (path_min 1 q) 0 right_side x moved.0 moved.1 filled left right in
          record {
            leaf = c'.left_child;
            at = j;
            node = store c';
            idx = 0;
            runs =
                rw
                  (
                    choose_right 0 n r parent in_parent gr,
                    cannot,
                    bulk_steal_right_runs 0 right_side 1 kv x gkv here (omega arith) (omega arith)
                        (omega arith),
                  )
                  refl;
            around = steal_right_at n r j 0 parent q kv filled.2 gkv stale gl gr in_leaf 0 x here;
            filled = left;
            in_leaf = omega (arith, length-append n (kv ∷ take 0 r));
            loses = record {
              least = path_min 1 q;
              node_filled = fp;
              one_less = omega (arith, filled.0);
              in_node = omega arith;
              on_path = above;
            };
            parent_len = inl (length-set parent.kvs 0 x);
          }

    -- For a leaf with one pair less than the least number, below an edge of a filled parent under a
    -- filled path, the leaf is merged with a sibling or takes a pair from it: the call returns, the
    -- pairs on both sides of the tracked edge stay the same, the leaf is filled again, and the
    -- parent has as many pairs as before or exactly one fewer, with all its children filled and the
    -- tracked edge among its edges.
    pub rebalance_leaf_lem :
        (i : ℕ) → IsFilledPath K V 0 (up parent i q) → Rebalances n j parent i q
    rebalance_leaf_lem zero w =
        let pos = path_min_pos 0 q in
        let (kv, gkv) = get_elem?_of_lt parent.kvs 0 (omega (arith, w.1.0)) in
        let (r, gr) = get_elem?_of_lt parent.edges 1 (omega (arith, w.1.0, w.1.2)) in
        elim (Bool-cases (can_merge (right_side w r kv gr gkv))) [
          | inl can ↦ rebalance_right_merge w r kv gr gkv can
          | inr cannot ↦ rebalance_right_steal w r kv gr gkv cannot
        ]
    rebalance_leaf_lem (suc i) w =
        let (kv, gkv) = get_elem?_of_lt parent.kvs i (omega (arith, w.0)) in
        let (l, gl) = get_elem?_of_lt parent.edges i (omega (arith, w.0, w.1.2)) in
        elim (Bool-cases (can_merge (left_side i w l kv gl gkv))) [
          | inl can ↦ rebalance_left_merge i w l kv gl gkv can
          | inr cannot ↦ rebalance_left_steal i w l kv gl gkv cannot
        ]
