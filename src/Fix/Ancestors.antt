-- ===== src/Fix/Ancestors.antt =====
-- The loop of `fix_node_and_affected_ancestors` as a whole.
use btree_monstrousity.Prelude.{
  inl, inr, ℕ, zero, suc, length, arith, leb, Bool-cases, get_elem?_of_lt,
}
use btree_monstrousity.Node.{InternalNode, Node, Parents, top, up, min_len}
use btree_monstrousity.Balance.{BalancingContext, can_merge}
use btree_monstrousity.Fix.{fix_node_and_affected_ancestors}
use btree_monstrousity.Fix.Repair.{Repairs, Loses, repair_top, repair_none}
use btree_monstrousity.Fix.Room.{path_min_pos}
use btree_monstrousity.Fix.Left.{repair_left_merge, repair_left_steal}
use btree_monstrousity.Fix.Right.{repair_right_merge, repair_right_steal}

module _ {ℓ κ} {K : Type ℓ} {V : Type κ} where
  -- For a node with at most one pair less than its least number, under a filled path, the loop
  -- returns; the pairs in front of the tracked edge and behind it are the same as before, every node
  -- on the new path is filled, save that the root may be an internal node without pairs, and then
  -- the loop answers false.
  pub fix_node_and_affected_ancestors_lem :
      (h : ℕ) (n : InternalNode K V (Node K V h)) (j : ℕ) (p : Parents K V (suc h))
      → Loses h n j p
      → Repairs h n j p (fix_node_and_affected_ancestors h n j p)
  fix_node_and_affected_ancestors_lem h n j top ok = repair_top h n j ok
  fix_node_and_affected_ancestors_lem h n j (up parent zero q) ok =
      let (kv, gkv) =
        get_elem?_of_lt parent.kvs 0 (omega (arith, ok.on_path.1.0, path_min_pos (suc h) q)) in
      let (r, gr) =
        get_elem?_of_lt parent.edges 1
          (omega (arith, ok.on_path.1.2, ok.on_path.1.0, path_min_pos (suc h) q)) in
      let c : BalancingContext K V (suc h) = record {
        parent = parent;
        idx = 0;
        left_child = n;
        right_child = r;
      } in
      elim (Bool-cases (leb min_len (length n.kvs))) [
        | inl e ↦ repair_none h n j parent 0 q ok e
        | inr short ↦ elim (Bool-cases (can_merge c)) [
          | inl can ↦
              repair_right_merge h n j parent q ok short r kv gr gkv can
                (λ parent'. fix_node_and_affected_ancestors_lem (suc h) parent' 0 q)
          | inr cannot ↦ repair_right_steal h n j parent q ok short r kv gr gkv cannot
        ]
      ]
  fix_node_and_affected_ancestors_lem h n j (up parent (suc i) q) ok =
      let (kv, gkv) = get_elem?_of_lt parent.kvs i (omega (arith, ok.on_path.0)) in
      let (l, gl) = get_elem?_of_lt parent.edges i (omega (arith, ok.on_path.1.2, ok.on_path.0)) in
      let c : BalancingContext K V (suc h) = record {
        parent = parent;
        idx = i;
        left_child = l;
        right_child = n;
      } in
      elim (Bool-cases (leb min_len (length n.kvs))) [
        | inl e ↦ repair_none h n j parent (suc i) q ok e
        | inr short ↦ elim (Bool-cases (can_merge c)) [
          | inl can ↦
              repair_left_merge h n j i parent q ok short l kv gl gkv can
                (λ parent'. fix_node_and_affected_ancestors_lem (suc h) parent' i q)
          | inr cannot ↦ repair_left_steal h n j i parent q ok short l kv gl gkv cannot
        ]
      ]
