-- ===== src/Fix/Room.antt =====
-- What the test of `can_merge` says of the lengths, and the least length of a parent.
use btree_monstrousity.Prelude.{ℕ, suc, ◌+◌, ◌≤◌, ◌<◌, ◌≡◌, length, arith, true, false, leb}
use btree_monstrousity.Node.{Parents, top, up, capacity}
use btree_monstrousity.Node.Content.{path_min}
use btree_monstrousity.Balance.{BalancingContext, left_child_len, right_child_len, can_merge}

module _ {ℓ κ} {K : Type ℓ} {V : Type κ} where
  pub path_min_pos : (h : ℕ) (p : Parents K V (suc h)) → 0 < path_min (suc h) p
  path_min_pos h top = omega arith
  path_min_pos h (up n i p) = omega arith

  pub can_merge_fits :
      (h : ℕ) (c : BalancingContext K V (suc h))
      → can_merge c ≡ true
      → length c.left_child.kvs + 1 + length c.right_child.kvs ≤ capacity
  unfolding can_merge left_child_len right_child_len
  can_merge_fits h c e =
      let e' : leb (length c.left_child.kvs + 1 + length c.right_child.kvs) capacity ≡ true = e in
      ground arith

  pub cannot_merge_fits :
      (h : ℕ) (c : BalancingContext K V (suc h))
      → can_merge c ≡ false
      → capacity < length c.left_child.kvs + 1 + length c.right_child.kvs
  unfolding can_merge left_child_len right_child_len
  cannot_merge_fits h c e =
      let e' : leb (length c.left_child.kvs + 1 + length c.right_child.kvs) capacity ≡ false = e in
      ground arith
