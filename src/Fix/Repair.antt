-- ===== src/Fix/Repair.antt =====
-- The loop of `fix_node_and_affected_ancestors`: what it leaves of a path.
use btree_monstrousity.Prelude.{
  ◌⊎◌, inl, inr, ℕ, suc, ◌+◌, ◌≤◌, ◌<◌, ◌≡◌, refl, length, set, some, arith, tests, Bool, true,
  false, ltb, leb, Bool-cases, All-set, length-set,
}
use btree_monstrousity.Defined.{Defined}
use btree_monstrousity.Node.{InternalNode, Node, Parents, top, up, min_len}
use btree_monstrousity.Node.Slots.{length-slice_remove, All-slice_remove}
use btree_monstrousity.Node.Content.{IsFilled, IsFilledPath, IsFilledPathWith, path_min, root_min}
use btree_monstrousity.Balance.{BalancingContext, merge_parent, store}
use btree_monstrousity.Balance.Steal.{replaced}
use btree_monstrousity.Fix.{fix_node_and_affected_ancestors}
use btree_monstrousity.Fix.Merge.{SameAround}

-- The least number of pairs of a root, once it is known whether it was emptied.
abbrev pub root_least : Bool → ℕ → ℕ
root_least true h = root_min h
root_least false h = 0

module _ {ℓ κ} {K : Type ℓ} {V : Type κ} where
  -- The number of pairs of the root above a node with `d` pairs.
  abbrev pub root_len : (h : ℕ) → ℕ → Parents K V h → ℕ
  root_len h d top = d
  root_len h d (up n i p) = root_len (suc h) (length n.kvs) p

  -- A repair of the path to the edge `j` of `n`.
  pub record Repairs (h : ℕ) (n : InternalNode K V (Node K V h)) (j : ℕ) (p : Parents K V (suc h))
      (result : Defined (Parents K V h × Bool)) : Type (ℓ ⊔ κ) where
    pub node : InternalNode K V (Node K V h)
    pub idx : ℕ
    pub path : Parents K V (suc h)
    pub full : Bool
    pub runs : result ≡ some (up node idx path, full)
    pub around : SameAround h (up node idx path) (up n j p)
    pub filled : IsFilledPathWith K V (root_least full) h (up node idx path)
    pub emptied : (full ≡ true) ⊎ (root_len h 1 (up node idx path) ≡ 0)

  -- The node that the loop looks at: it may have lost one pair.
  pub record Loses (h : ℕ) (n : InternalNode K V (Node K V h)) (j : ℕ) (p : Parents K V (suc h))
      : Type (ℓ ⊔ κ) where
    pub least : ℕ
    pub node_filled : IsFilled K V least (suc h) n
    pub one_less : path_min (suc h) p ≤ length n.kvs + 1
    pub in_node : j ≤ length n.kvs
    pub on_path : IsFilledPath K V (suc h) p

  pub repair_top :
      (h : ℕ) (n : InternalNode K V (Node K V h)) (j : ℕ)
      → Loses h n j top
      → Repairs h n j top (fix_node_and_affected_ancestors h n j top)
  unfolding fix_node_and_affected_ancestors
  repair_top h n j ok = elim (Bool-cases (ltb 0 (length n.kvs))) [
    | inl some_left ↦ record {
      node = n;
      idx = j;
      path = top;
      full = true;
      runs = ground arith;
      around = (refl, refl);
      filled = (
        ok.in_node,
        (omega (tests, some_left), ok.node_filled.1, ok.node_filled.2, ok.node_filled.3),
        tt,
      );
      emptied = inl refl;
    }
    | inr none_left ↦ record {
      node = n;
      idx = j;
      path = top;
      full = false;
      runs = ground arith;
      around = (refl, refl);
      filled =
          (ok.in_node, (omega arith, ok.node_filled.1, ok.node_filled.2, ok.node_filled.3), tt);
      emptied = inr (omega (tests, none_left));
    }
  ]

  pub repair_none :
      (h : ℕ) (n : InternalNode K V (Node K V h)) (j : ℕ)
      (parent : InternalNode K V (Node K V (suc h))) (i : ℕ) (q : Parents K V (suc (suc h)))
      → Loses h n j (up parent i q)
      → leb min_len (length n.kvs) ≡ true
      → Repairs h n j (up parent i q) (fix_node_and_affected_ancestors h n j (up parent i q))
  unfolding fix_node_and_affected_ancestors
  repair_none h n j parent i q ok e = record {
    node = n;
    idx = j;
    path = up parent i q;
    full = true;
    runs = rw e refl;
    around = (refl, refl);
    filled = (
      ok.in_node,
      (ground arith, ok.node_filled.1, ok.node_filled.2, ok.node_filled.3),
      ok.on_path,
    );
    emptied = inl refl;
  }

  -- The parent after a merge is filled but for the pair that it lost.
  pub merge_parent-IsFilled :
      (least h : ℕ) (c : BalancingContext K V h) (merged : Node K V h)
      → IsFilled K V least (suc h) c.parent
      → c.idx < length c.parent.kvs
      → IsFilled K V min_len h merged
      → IsFilled K V 0 (suc h) (merge_parent h c merged)
        × (suc (length (merge_parent h c merged).kvs) ≡ length c.parent.kvs)
  unfolding merge_parent
  merge_parent-IsFilled least h c merged (a, b, e, all) bound f =
      let edges = set c.parent.edges c.idx merged in
      let lk = length-slice_remove c.parent.kvs c.idx bound in
      let ls = length-set c.parent.edges c.idx merged in
      let le = length-slice_remove edges (suc c.idx) (omega arith) in
      (
        (
          omega arith,
          omega arith,
          omega arith,
          All-slice_remove (IsFilled K V min_len h) edges (suc c.idx)
              (All-set (IsFilled K V min_len h) c.parent.edges c.idx merged f all),
        ),
        lk,
      )

  -- The parent after its pair and both children were replaced.
  pub replaced-IsFilled :
      (least h : ℕ) (c : BalancingContext K V h) (x : K × V) (l r : Node K V h)
      → IsFilled K V least (suc h) c.parent
      → IsFilled K V min_len h l
      → IsFilled K V min_len h r
      → IsFilled K V least (suc h) (store (replaced c x (l, r)))
  unfolding store
  replaced-IsFilled least h c x l r (a, b, e, all) fl fr =
      let P = IsFilled K V min_len h in
      let lk = length-set c.parent.kvs c.idx x in
      let l1 = length-set c.parent.edges c.idx l in
      let l2 = length-set (set c.parent.edges c.idx l) (suc c.idx) r in
      (
        omega arith,
        omega arith,
        omega arith,
        All-set P (set c.parent.edges c.idx l) (suc c.idx) r fr
            (All-set P c.parent.edges c.idx l fl all),
      )
