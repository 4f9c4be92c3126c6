-- ===== src/Remove/Next.antt =====
-- The steps of navigate.rs that a removal in an internal node takes: down to the last leaf edge, and
-- from an edge to the pair behind it.
use btree_monstrousity.Prelude.{
  ℕ, zero, suc, ◌≤◌, ◌<◌, ◌≡◌, refl, sym, ap, ap₂, ◌∙◌, [], ◌++◌, length, take, drop, get_elem?,
  some, arith, get_elem?_bound, get_elem?_of_lt, drop_beyond, append_assoc, append-nil,
  All-get_elem?, set-get_elem?,
}
use btree_monstrousity.Node.{replant, LeafNode, InternalNode, Node, Parents, up, min_len}
use btree_monstrousity.Node.Content.{
  weave, weave_tail, entries, entries_before, entries_after, IsFilled, IsFilledPath, path_min,
}
use btree_monstrousity.Node.Replant.{weave-set}
use btree_monstrousity.Remove.{last_leaf_edge}

module _ {ℓ κ} {K : Type ℓ} {V : Type κ} where
  -- Behind the last edge of a node there is only what stands behind the node.
  pub nothing_behind :
      (h i : ℕ) (n : InternalNode K V (Node K V h))
      → length n.edges ≡ suc (length n.kvs)
      → length n.kvs ≤ i
      → weave_tail (entries h) (drop i n.kvs) (drop (suc i) n.edges) ≡ []
  nothing_behind h i n len le =
      ap₂ (weave_tail (entries h)) (drop_beyond n.kvs i le)
        (drop_beyond n.edges (suc i) (omega arith))

  -- The content of a node up to an edge, with the child at that edge.
  pub before_child :
      (h i : ℕ) (n : InternalNode K V (Node K V h)) (c : Node K V h) (p : Parents K V (suc h))
      → length n.edges ≡ suc (length n.kvs)
      → get_elem? n.edges i ≡ some c
      → entries_before h (up n i p)
          ++ (entries h c ++ weave_tail (entries h) (drop i n.kvs) (drop (suc i) n.edges))
        ≡ entries_before (suc h) p ++ entries (suc h) n
  before_child h i n c p len get =
      append_assoc (entries_before (suc h) p) (weave (entries h) (take i n.kvs) (take i n.edges))
        (entries h c ++ weave_tail (entries h) (drop i n.kvs) (drop (suc i) n.edges))
      ∙ ap (λ a. entries_before (suc h) p ++ a)
          (sym (
              weave-set (entries h) n.kvs n.edges i c (omega (arith, get_elem?_bound n.edges i get))
                (get_elem?_bound n.edges i get))
            ∙ ap (weave (entries h) n.kvs) (set-get_elem? n.edges i c get))

  -- The child that is at an edge changes nothing.
  pub replant-child :
      (h i : ℕ) (n : InternalNode K V (Node K V h)) (c : Node K V h) (p : Parents K V (suc h))
      → get_elem? n.edges i ≡ some c
      → replant h c (up n i p) ≡ replant (suc h) n p
  unfolding replant
  replant-child h i n c p get =
      ap (λ es. replant (suc h) (record n { edges = es }) p) (set-get_elem? n.edges i c get)

  -- The last leaf below a node, with all of the node in front of its last edge.
  pub record Lasts (h : ℕ) (n : Node K V h) (p : Parents K V h) : Type (ℓ ⊔ κ) where
    pub leaf : LeafNode K V
    pub path : Parents K V 0
    pub runs : last_leaf_edge h n p ≡ some (leaf, length leaf, path)
    pub same : replant 0 leaf path ≡ replant h n p
    pub before : entries_before 0 path ++ leaf ≡ entries_before h p ++ entries h n
    pub after : entries_after 0 path ≡ entries_after h p
    pub on_path : IsFilledPath K V 0 path
    pub filled : IsFilled K V (path_min 0 path) 0 leaf
    pub some_pair : 0 < length leaf

  -- Below a filled node that may not be empty, under a filled path, the descent returns the last
  -- leaf, which is filled and not empty; in front of its last edge is all that was in front of the
  -- node and all of the node, and behind it what was behind the node.
  pub last_leaf_edge_lem :
      (h : ℕ) (n : Node K V h) (p : Parents K V h)
      → IsFilled K V (path_min h p) h n
      → IsFilledPath K V h p
      → 0 < path_min h p
      → Lasts h n p
  unfolding last_leaf_edge
  last_leaf_edge_lem zero n p f w pos = record {
    leaf = n;
    path = p;
    runs = refl;
    same = refl;
    before = refl;
    after = refl;
    on_path = w;
    filled = f;
    some_pair = omega (arith, f.0);
  }
  last_leaf_edge_lem (suc h) n p f w pos =
      let i = length n.kvs in
      let (child, get) = get_elem?_of_lt n.edges i (omega (arith, f.2)) in
      let fc = All-get_elem? (IsFilled K V min_len h) n.edges i f.3 get in
      let down = last_leaf_edge_lem h child (up n i p) fc (omega arith, f, w) (omega arith) in
      let no_more = nothing_behind h i n f.2 (omega arith) in
      record {
        leaf = down.leaf;
        path = down.path;
        runs = rw get down.runs;
        same = down.same ∙ replant-child h i n child p get;
        before =
            down.before
            ∙ sym (
                ap (λ a. entries_before h (up n i p) ++ a)
                  (ap (λ a. entries h child ++ a) no_more ∙ append-nil (entries h child)))
            ∙ before_child h i n child p f.2 get;
        after = down.after ∙ ap (λ a. a ++ entries_after (suc h) p) no_more;
        on_path = down.on_path;
        filled = down.filled;
        some_pair = down.some_pair;
      }
