-- ===== src/Remove/Tracking.antt =====
-- `remove_kv_tracking`: a pair taken out of a node of any height.
use btree_monstrousity.Prelude.{
  true, ◌⊎◌, inl, inr, ℕ, zero, suc, ◌-◌, ◌<◌, ◌≡◌, refl, sym, ap, ap₂, ◌∙◌, List, [], ◌∷◌, ◌++◌,
  length, take, drop, get_elem?, some, arith, Bool, lt→ltb, get_elem?_bound, get_elem?_of_lt,
  get_elem?_split, drop_beyond, drop_split, take-suc, length-take, append_assoc, append-nil,
  take-append-drop, All-get_elem?,
}
use btree_monstrousity.Node.{
  LeafNode, InternalNode, Node, Root, Parents, up, pairs, min_len, replant,
}
use btree_monstrousity.Node.Content.{
  weave, weave_tail, weave_at, entries, entries_before, entries_after, kv_before, kv_after,
  root_entries, IsFilled, IsFilledPath, IsFilledPathWith, path_min,
}
use btree_monstrousity.Node.Replant.{replant_content_with, replant-IsFilled_with}
use btree_monstrousity.Fix.Repair.{root_least}
use btree_monstrousity.Remove.{
  last_leaf_edge, remove_leaf_kv, replace_next, remove_kv_tracking, remove_internal_kv,
}
use btree_monstrousity.Remove.Around.{edge_before, edge_after}
use btree_monstrousity.Remove.Leaf.{remove_leaf_kv_lem}
use btree_monstrousity.Remove.Next.{last_leaf_edge_lem}
use btree_monstrousity.Remove.Replace.{IsEmptied, replant-IsEmptied, replace_next_lem}

module _ {ℓ κ} {K : Type ℓ} {V : Type κ} where
  -- The tree without the pair `i` of a node: filled, save for an internal root without pairs.
  pub record Removes (h : ℕ) (n : Node K V h) (i : ℕ) (p : Parents K V h) (x : K × V)
      : Type (ℓ ⊔ κ) where
    pub root : Root K V
    pub full : Bool
    pub runs : remove_kv_tracking h n i p ≡ some (x, root, full)
    pub content :
        root_entries root
        ≡ (entries_before h p ++ kv_before h n i) ++ (kv_after h n i ++ entries_after h p)
    pub filled : IsFilled K V (root_least full root.height) root.height root.node
    pub emptied : (full ≡ true) ⊎ IsEmptied root

  edge_content_with :
      (rl : ℕ → ℕ) (n : LeafNode K V) (i : ℕ) (p : Parents K V 0)
      → IsFilledPathWith K V rl 0 p
      → root_entries (replant 0 n p) ≡ edge_before n i p ++ edge_after n i p
  edge_content_with rl n i p w =
      replant_content_with rl 0 n p w
      ∙ ap (λ a. entries_before 0 p ++ (a ++ entries_after 0 p)) (sym (take-append-drop i n))
      ∙ simp append_assoc

  remove_from_leaf :
      (n : LeafNode K V) (i : ℕ) (p : Parents K V 0) (x : K × V)
      → get_elem? n i ≡ some x
      → IsFilled K V (path_min 0 p) 0 n
      → IsFilledPath K V 0 p
      → Removes 0 n i p x
  unfolding remove_kv_tracking
  remove_from_leaf n i p x get f w =
      let (s, run) = remove_leaf_kv_lem n i p x get f w in
      record {
        root = replant 0 s.leaf s.path;
        full = s.full;
        runs = rw run refl;
        content =
            edge_content_with (root_least s.full) s.leaf s.at s.path s.on_path
            ∙ ap₂ (λ a c. a ++ c) s.before s.after;
        filled = replant-IsFilled_with (root_least s.full) 0 s.leaf s.path s.on_path s.filled;
        emptied = elim s.emptied [
          | inl e ↦ inl e
          | inr e ↦ inr (replant-IsEmptied s.leaf s.path e)
        ];
      }

  -- A child at an edge is the end of what stands in front of the pair behind that edge.
  pub before_kv :
      (h i : ℕ) (n : InternalNode K V (Node K V h)) (c : Node K V h)
      → i < length n.kvs
      → get_elem? n.edges i ≡ some c
      → weave (entries h) (take i n.kvs) (take i n.edges) ++ entries h c ≡ kv_before (suc h) n i
  before_kv h i n c lt get = sym (
      ap₂ (weave (entries h)) (sym (append-nil (take i n.kvs))) (take-suc n.edges i c get)
      ∙ weave_at (entries h) (take i n.kvs) [] (take i n.edges) c []
          (omega (arith, length-take i n.kvs, length-take i n.edges, get_elem?_bound n.edges i get))
      ∙ ap (λ a. weave (entries h) (take i n.kvs) (take i n.edges) ++ a) (append-nil (entries h c)))

  pub after_edge :
      (h i : ℕ) (n : InternalNode K V (Node K V h)) (p : Parents K V (suc h)) (x : K × V)
      → get_elem? n.kvs i ≡ some x
      → entries_after h (up n i p) ≡ x ∷ (kv_after (suc h) n i ++ entries_after (suc h) p)
  after_edge h i n p x get =
      ap (λ a. weave_tail (entries h) a (drop (suc i) n.edges) ++ entries_after (suc h) p)
        (drop_split n.kvs i x get)

  remove_internal_runs :
      (h : ℕ) (n : Node K V (suc h)) (i : ℕ) (p : Parents K V (suc h)) (child : Node K V h)
      (leaf hole : LeafNode K V) (edge at : ℕ) (leaf_path path : Parents K V 0) (y x : K × V)
      (root : Root K V) (full : Bool)
      → get_elem? n.edges i ≡ some child
      → last_leaf_edge h child (up n i p) ≡ some (leaf, edge, leaf_path)
      → 0 < edge
      → remove_leaf_kv leaf (edge - 1) leaf_path ≡ some (y, (hole, at, path), full)
      → replace_next hole at path y ≡ some (x, root)
      → remove_kv_tracking (suc h) n i p ≡ some (x, root, full)
  unfolding remove_kv_tracking remove_internal_kv
  remove_internal_runs h n i p child leaf hole edge at leaf_path path y x root full gc down pos run
        there =
      rw (gc, down, lt→ltb 0 edge pos, run, there) refl

  remove_from_internal :
      (h : ℕ) (n : Node K V (suc h)) (i : ℕ) (p : Parents K V (suc h)) (x : K × V)
      → get_elem? n.kvs i ≡ some x
      → IsFilled K V (path_min (suc h) p) (suc h) n
      → IsFilledPath K V (suc h) p
      → Removes (suc h) n i p x
  remove_from_internal h n i p x get f w =
      let bound = get_elem?_bound n.kvs i get in
      let (child, gc) = get_elem?_of_lt n.edges i (omega (arith, f.2)) in
      let fc = All-get_elem? (IsFilled K V min_len h) n.edges i f.3 gc in
      let down = last_leaf_edge_lem h child (up n i p) fc (omega arith, f, w) (omega arith) in
      let pos = down.some_pair in
      let k = length down.leaf - 1 in
      let (y, gy) = get_elem?_of_lt down.leaf k (omega arith) in
      let (s, run) = remove_leaf_kv_lem down.leaf k down.path y gy down.filled down.on_path in
      let end = drop_beyond down.leaf (suc k) (omega arith) in
      let rest = kv_after (suc h) n i ++ entries_after (suc h) p in
      let behind : edge_after s.leaf s.at s.path ≡ x ∷ rest =
        s.after
        ∙ ap (λ a. a ++ entries_after 0 down.path) end
        ∙ down.after
        ∙ after_edge h i n p x get in
      let r =
        replace_next_lem (root_least s.full) y s.leaf s.at s.path x rest s.on_path s.filled
          s.in_leaf behind in
      let split : down.leaf ≡ take k down.leaf ++ y ∷ [] =
        get_elem?_split down.leaf k y gy ∙ ap (λ a. take k down.leaf ++ y ∷ a) end in
      record {
        root = r.root;
        full = s.full;
        runs =
            remove_internal_runs h n i p child down.leaf s.leaf (length down.leaf) s.at down.path
              s.path y x r.root s.full gc down.runs pos run r.runs;
        content =
            r.content
            ∙ ap (λ a. a ++ y ∷ rest) s.before
            ∙ regroup (entries_before 0 down.path) (take k down.leaf) rest y
            ∙ ap (λ a. (entries_before 0 down.path ++ a) ++ rest) (sym split)
            ∙ ap (λ a. a ++ rest)
                (down.before
                  ∙ append_assoc (entries_before (suc h) p)
                      (weave (entries h) (take i n.kvs) (take i n.edges)) (entries h child)
                  ∙ ap (λ a. entries_before (suc h) p ++ a) (before_kv h i n child bound gc));
        filled = r.filled;
        emptied = elim s.emptied [
          | inl e ↦ inl e
          | inr e ↦ elim r.emptied [
            | inl pos ↦ absurd (omega (arith, e, pos))
            | inr empty ↦ inr empty
          ]
        ];
      }
    where
      regroup : (a c d : List (K × V)) (y : K × V) → (a ++ c) ++ y ∷ d ≡ (a ++ (c ++ y ∷ [])) ++ d
      regroup a c d y = simp append_assoc

  -- At a pair of a filled node of any height under a filled path, `remove_kv_tracking` returns that
  -- pair and a tree with exactly the pairs in front of it and behind it; every node of the tree is
  -- filled, save that the root may be an internal node without pairs, and then the call says so.
  pub remove_kv_tracking_lem :
      (h : ℕ) (n : Node K V h) (i : ℕ) (p : Parents K V h) (x : K × V)
      → get_elem? (pairs h n) i ≡ some x
      → IsFilled K V (path_min h p) h n
      → IsFilledPath K V h p
      → Removes h n i p x
  remove_kv_tracking_lem zero n i p x get f w = remove_from_leaf n i p x get f w
  remove_kv_tracking_lem (suc h) n i p x get f w = remove_from_internal h n i p x get f w
