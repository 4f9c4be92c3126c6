-- ===== src/Remove/Leaf.antt =====
-- `remove_leaf_kv`: a pair taken out of a leaf, and the repair of the tree around the leaf.
use btree_monstrousity.Prelude.{
  ◌⊎◌, inl, inr, ℕ, suc, ◌+◌, ◌≤◌, ◌<◌, ◌≡◌, refl, ap, ◌∙◌, List, ◌++◌, length, take, drop,
  get_elem?, some, arith, Bool, true, false, ltb, Bool-cases, get_elem?_bound,
}
use btree_monstrousity.Node.{LeafNode, Parents, top, up, min_len, capacity}
use btree_monstrousity.Node.Slots.{
  slice_remove, length-slice_remove, take-slice_remove, drop-slice_remove,
}
use btree_monstrousity.Node.Content.{
  entries_before, entries_after, IsFilled, IsFilledPath, IsFilledPathWith, path_min, path_min_with,
}
use btree_monstrousity.Fix.Repair.{root_least, root_len}
use btree_monstrousity.Fix.Ancestors.{fix_node_and_affected_ancestors_lem}
use btree_monstrousity.Remove.{settle_leaf, remove_leaf_kv}
use btree_monstrousity.Remove.Around.{edge_before, edge_after, SameAt-path}
use btree_monstrousity.Remove.Rebalance.{rebalance_leaf_lem}

module _ {ℓ κ} {K : Type ℓ} {V : Type κ} where
  -- A leaf edge with `front` and `back` around it, in a tree whose root is filled or emptied.
  pub record Settled (front back : List (K × V)) : Type (ℓ ⊔ κ) where
    pub leaf : LeafNode K V
    pub at : ℕ
    pub path : Parents K V 0
    pub full : Bool
    pub before : edge_before leaf at path ≡ front
    pub after : edge_after leaf at path ≡ back
    pub on_path : IsFilledPathWith K V (root_least full) 0 path
    pub filled : IsFilled K V (path_min_with (root_least full) 0 path) 0 leaf
    pub in_leaf : at ≤ length leaf
    pub emptied : (full ≡ true) ⊎ (root_len 0 1 path ≡ 0)

  settle_leaf_lem :
      (n : LeafNode K V) (j : ℕ) (p : Parents K V 0)
      → IsFilledPath K V 0 p
      → path_min 0 p ≤ length n + 1
      → length n < min_len
      → j ≤ length n
      → (s : Settled (edge_before n j p) (edge_after n j p)) × (settle_leaf n j p
          ≡ some ((s.leaf, s.at, s.path), s.full))
  unfolding settle_leaf
  settle_leaf_lem n j top w less short le = (
    record {
      leaf = n;
      at = j;
      path = top;
      full = true;
      before = refl;
      after = refl;
      on_path = tt;
      filled = omega arith;
      in_leaf = le;
      emptied = inl refl;
    },
    refl,
  )
  settle_leaf_lem n j (up parent i q) w less short le =
      let b = rebalance_leaf_lem n j parent q (omega arith) le i w in
      let r = fix_node_and_affected_ancestors_lem 0 b.node b.idx q b.loses in
      let (front, back) =
        SameAt-path b.leaf b.at (up b.node b.idx q) (up r.node r.idx r.path) n j (up parent i q)
          r.around b.around in
      (
        record {
          leaf = b.leaf;
          at = b.at;
          path = up r.node r.idx r.path;
          full = r.full;
          before = front;
          after = back;
          on_path = r.filled;
          filled = b.filled;
          in_leaf = b.in_leaf;
          emptied = r.emptied;
        },
        rw (b.runs, r.runs) refl,
      )

  -- At a pair of a filled leaf under a filled path, `remove_leaf_kv` returns that pair and a leaf
  -- edge with exactly the other pairs in front of it and behind it; the leaf and the nodes on its
  -- path are filled, save that the root may be an internal node without pairs, and then the call
  -- says so.
  pub remove_leaf_kv_lem :
      (n : LeafNode K V) (i : ℕ) (p : Parents K V 0) (x : K × V)
      → get_elem? n i ≡ some x
      → IsFilled K V (path_min 0 p) 0 n
      → IsFilledPath K V 0 p
      → (s : Settled (entries_before 0 p ++ take i n) (drop (suc i) n ++ entries_after 0 p))
        × (remove_leaf_kv n i p ≡ some (x, (s.leaf, s.at, s.path), s.full))
  unfolding remove_leaf_kv
  remove_leaf_kv_lem n i p x get f w =
      let bound = get_elem?_bound n i get in
      let less = length-slice_remove n i bound in
      let n' = slice_remove n i in
      let front = ap (λ a. entries_before 0 p ++ a) (take-slice_remove n i (omega arith)) in
      let back = ap (λ a. a ++ entries_after 0 p) (drop-slice_remove n i (omega arith)) in
      elim (Bool-cases (ltb (length n') min_len)) [
        | inl short ↦
            let (s, run) =
              settle_leaf_lem n' i p w (omega (arith, f.0)) (ground arith) (omega arith) in
            (
              record {
                leaf = s.leaf;
                at = s.at;
                path = s.path;
                full = s.full;
                before = s.before ∙ front;
                after = s.after ∙ back;
                on_path = s.on_path;
                filled = s.filled;
                in_leaf = s.in_leaf;
                emptied = s.emptied;
              },
              rw (get, short, run) refl,
            )
        | inr enough ↦ (
          record {
            leaf = n';
            at = i;
            path = p;
            full = true;
            before = front;
            after = back;
            on_path = w;
            filled = still_filled n' p enough (omega (arith, f.1));
            in_leaf = omega arith;
            emptied = inl refl;
          },
          rw (get, enough) refl,
        )
      ]
    where
      still_filled :
          (n' : LeafNode K V) (p : Parents K V 0)
          → ltb (length n') min_len ≡ false
          → length n' ≤ capacity
          → IsFilled K V (path_min 0 p) 0 n'
      still_filled n' top e le = omega arith
      still_filled n' (up m i p) e le = (ground arith, le, tt)
