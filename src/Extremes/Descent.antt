-- ===== src/Extremes/Descent.antt =====
-- Where the descents to the first and to the last leaf of a tree end.
use btree_monstrousity.Prelude.{
  ◌-◌, lt→ltb, ℕ, zero, suc, ◌<◌, ◌≡◌, refl, sym, ap, ◌∙◌, [], ◌++◌, drop, get_elem?, some, arith,
  get_elem?_of_lt, get_elem?_split, All-get_elem?, append_assoc, append-nil,
}
use btree_monstrousity.Node.{LeafNode, InternalNode, Node, Root, Parents, top, up, min_len, replant}
use btree_monstrousity.Node.Content.{
  weave, weave_tail, weave-cons, entries, root_entries, entries_before, entries_after, IsFilled,
  IsFilledRoot, IsFilledPath, path_min,
}
use btree_monstrousity.Remove.Next.{replant-child}
use btree_monstrousity.Extremes.{first_leaf_edge, left_kv}

module _ {ℓ κ} {K : Type ℓ} {V : Type κ} where
  -- The first leaf of a tree: nothing is in front of it, and it begins the pairs of the tree.
  pub record FirstLeaf (root : Root K V) (leaf : LeafNode K V) (path : Parents K V 0)
      : Type (ℓ ⊔ κ) where
    pub same : replant 0 leaf path ≡ root
    pub before : entries_before 0 path ≡ []
    pub all : leaf ++ entries_after 0 path ≡ root_entries root
    pub on_path : IsFilledPath K V 0 path
    pub filled : IsFilled K V (path_min 0 path) 0 leaf

  -- A child and what follows it, at the first edge of a node.
  first_child :
      (h : ℕ) (n : InternalNode K V (Node K V h)) (c : Node K V h)
      → get_elem? n.edges 0 ≡ some c
      → entries h c ++ weave_tail (entries h) n.kvs (drop 1 n.edges) ≡ entries (suc h) n
  first_child h n c get = sym (
      ap (weave (entries h) n.kvs) (get_elem?_split n.edges 0 c get)
      ∙ weave-cons (entries h) n.kvs c (drop 1 n.edges))

  first_leaf_edge_at :
      (root : Root K V) (h : ℕ) (n : Node K V h) (p : Parents K V h)
      → replant h n p ≡ root
      → entries_before h p ≡ []
      → entries h n ++ entries_after h p ≡ root_entries root
      → IsFilledPath K V h p
      → IsFilled K V (path_min h p) h n
      → (leaf : LeafNode K V) × (path : Parents K V 0) × (first_leaf_edge h n p
          ≡ some (leaf, 0, path))
        × FirstLeaf root leaf path
  unfolding first_leaf_edge
  first_leaf_edge_at root zero n p same nothing all w f =
      (n, p, refl, record { same = same; before = nothing; all = all; on_path = w; filled = f })
  first_leaf_edge_at root (suc h) n p same nothing all w f =
      let (c, get) = get_elem?_of_lt n.edges 0 (omega (arith, f.2)) in
      let fc = All-get_elem? (IsFilled K V min_len h) n.edges 0 f.3 get in
      let (leaf, path, run, ok) =
        first_leaf_edge_at root h c (up n 0 p) (replant-child h 0 n c p get ∙ same)
          (ap (λ a. a ++ []) nothing)
          (sym (
              append_assoc (entries h c) (weave_tail (entries h) n.kvs (drop 1 n.edges))
                (entries_after (suc h) p))
            ∙ ap (λ a. a ++ entries_after (suc h) p) (first_child h n c get)
            ∙ all)
          (omega arith, f, w) fc in
      (leaf, path, rw (get, first_leaf_edge) run, ok)

  pub first_leaf_edge_lem :
      (root : Root K V)
      → IsFilledRoot K V root
      → (leaf : LeafNode K V) × (path : Parents K V 0) × (first_leaf_edge root.height root.node top
          ≡ some (leaf, 0, path))
        × FirstLeaf root leaf path
  unfolding replant
  first_leaf_edge_lem root f =
      first_leaf_edge_at root root.height root.node top refl refl (append-nil (root_entries root))
        tt f

  -- A leaf without pairs is the root.
  pub nothing_after :
      (p : Parents K V 0) → IsFilled K V (path_min 0 p) 0 [] → entries_after 0 p ≡ []
  nothing_after top f = refl
  nothing_after (up n i p) f = absurd (omega (arith, f.0))

  pub left_kv-get_elem? :
      (n : LeafNode K V) (i : ℕ) (x : K × V)
      → 0 < i
      → get_elem? n (i - 1) ≡ some x
      → left_kv n i ≡ some x
  unfolding left_kv
  left_kv-get_elem? n i x pos get = rw (lt→ltb 0 i pos) get
