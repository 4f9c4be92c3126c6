-- ===== src/Fix/Branches.antt =====
-- What `choose_parent_kv` and the loop of `fix_node_and_affected_ancestors` return on each branch.
use btree_monstrousity.Prelude.{
  ℕ, suc, ◌+◌, ◌-◌, ◌<◌, ◌≡◌, refl, length, get_elem?, some, arith, Bool, true, false, leb, lt→ltb,
}
use btree_monstrousity.Node.{InternalNode, Node, Parents, up, min_len}
use btree_monstrousity.Node.Insert.{LeftOrRight}
use btree_monstrousity.Balance.{
  BalancingContext, left_child_len, can_merge, choose_parent_kv, do_merge, bulk_steal_left,
  bulk_steal_right, store,
}
use btree_monstrousity.Fix.{fix_node_and_affected_ancestors}

module _ {ℓ κ} {K : Type ℓ} {V : Type κ} where
  pub choose_left :
      (h : ℕ) (n l : Node K V h) (parent : InternalNode K V (Node K V h)) (i : ℕ)
      → get_elem? parent.edges i ≡ some l
      → choose_parent_kv n parent (suc i)
        ≡ some (
            LeftOrRight.left (record { parent = parent; idx = i; left_child = l; right_child = n }))
  unfolding choose_parent_kv
  choose_left h n l parent i get =
      let e : suc i - 1 ≡ i = omega arith in rw (lt→ltb 0 (suc i) (omega arith), e, get) refl

  pub choose_right :
      (h : ℕ) (n r : Node K V h) (parent : InternalNode K V (Node K V h))
      → 0 < length parent.kvs
      → get_elem? parent.edges 1 ≡ some r
      → choose_parent_kv n parent 0
        ≡ some (
            LeftOrRight.right
              (record { parent = parent; idx = 0; left_child = n; right_child = r }))
  unfolding choose_parent_kv
  choose_right h n r parent pos get = rw (lt→ltb 0 (length parent.kvs) pos, get) refl

  pub fix_left_merges :
      (h : ℕ) (n l merged : Node K V (suc h)) (j i : ℕ) (full : Bool)
      (parent parent' : InternalNode K V (Node K V (suc h))) (q : Parents K V (suc (suc h)))
      (path : Parents K V (suc h))
      → leb min_len (length n.kvs) ≡ false
      → get_elem? parent.edges i ≡ some l
      → let c : BalancingContext K V (suc h) = record {
        parent = parent;
        idx = i;
        left_child = l;
        right_child = n;
      } in
        can_merge c ≡ true
        → do_merge (suc h) c ≡ some (parent', merged)
        → fix_node_and_affected_ancestors (suc h) parent' i q ≡ some (path, full)
        → fix_node_and_affected_ancestors h n j (up parent (suc i) q)
          ≡ some (up merged (length l.kvs + 1 + j) path, full)
  unfolding fix_node_and_affected_ancestors left_child_len
  fix_left_merges h n l merged j i full parent parent' q path short get can run rest =
      rw (short, choose_left (suc h) n l parent i get, can, run, rest) refl

  pub fix_left_steals :
      (h : ℕ) (n l : Node K V (suc h)) (j i : ℕ) (parent : InternalNode K V (Node K V (suc h)))
      (q : Parents K V (suc (suc h))) (c' : BalancingContext K V (suc h))
      → leb min_len (length n.kvs) ≡ false
      → get_elem? parent.edges i ≡ some l
      → let c : BalancingContext K V (suc h) = record {
        parent = parent;
        idx = i;
        left_child = l;
        right_child = n;
      } in
        can_merge c ≡ false
        → bulk_steal_left (suc h) c (min_len - length n.kvs) ≡ some c'
        → fix_node_and_affected_ancestors h n j (up parent (suc i) q)
          ≡ some (up c'.right_child (min_len - length n.kvs + j) (up (store c') (suc i) q), true)
  unfolding fix_node_and_affected_ancestors
  fix_left_steals h n l j i parent q c' short get cannot run =
      rw (short, choose_left (suc h) n l parent i get, cannot, run) refl

  pub fix_right_merges :
      (h : ℕ) (n r merged : Node K V (suc h)) (j : ℕ) (full : Bool)
      (parent parent' : InternalNode K V (Node K V (suc h))) (q : Parents K V (suc (suc h)))
      (path : Parents K V (suc h))
      → leb min_len (length n.kvs) ≡ false
      → 0 < length parent.kvs
      → get_elem? parent.edges 1 ≡ some r
      → let c : BalancingContext K V (suc h) = record {
        parent = parent;
        idx = 0;
        left_child = n;
        right_child = r;
      } in
        can_merge c ≡ true
        → do_merge (suc h) c ≡ some (parent', merged)
        → fix_node_and_affected_ancestors (suc h) parent' 0 q ≡ some (path, full)
        → fix_node_and_affected_ancestors h n j (up parent 0 q) ≡ some (up merged j path, full)
  unfolding fix_node_and_affected_ancestors
  fix_right_merges h n r merged j full parent parent' q path short pos get can run rest =
      rw (short, choose_right (suc h) n r parent pos get, can, run, rest) refl

  pub fix_right_steals :
      (h : ℕ) (n r : Node K V (suc h)) (j : ℕ) (parent : InternalNode K V (Node K V (suc h)))
      (q : Parents K V (suc (suc h))) (c' : BalancingContext K V (suc h))
      → leb min_len (length n.kvs) ≡ false
      → 0 < length parent.kvs
      → get_elem? parent.edges 1 ≡ some r
      → let c : BalancingContext K V (suc h) = record {
        parent = parent;
        idx = 0;
        left_child = n;
        right_child = r;
      } in
        can_merge c ≡ false
        → bulk_steal_right (suc h) c (min_len - length n.kvs) ≡ some c'
        → fix_node_and_affected_ancestors h n j (up parent 0 q)
          ≡ some (up c'.left_child j (up (store c') 0 q), true)
  unfolding fix_node_and_affected_ancestors
  fix_right_steals h n r j parent q c' short pos get cannot run =
      rw (short, choose_right (suc h) n r parent pos get, cannot, run) refl
