-- ===== src/Navigate/Ends.antt =====
-- From a pair to the leaf edges on both sides of it.
use btree_monstrousity.Prelude.{
  ℕ, zero, suc, ◌≤◌, ◌<◌, ◌≡◌, refl, sym, ap, ◌∙◌, List, [], ◌∷◌, ◌++◌, length, take, drop,
  get_elem?, some, arith, get_elem?_of_lt, get_elem?_bound, get_elem?_split, All-get_elem?,
  append_assoc, append-nil, take-suc, drop_split, take_beyond, drop_beyond, length-take,
}
use btree_monstrousity.Defined.{◌>>=◌}
use btree_monstrousity.Node.{LeafNode, InternalNode, Node, Root, Parents, up, min_len, pairs}
use btree_monstrousity.Node.Content.{
  weave, weave_tail, weave-cons, weave_middle, entries, entries_before, entries_after, kv_before,
  kv_after, IsFilled, IsFilledPath, path_min,
}
use btree_monstrousity.Remove.Around.{edge_before, edge_after}
use btree_monstrousity.Remove.Next.{last_leaf_edge_lem}
use btree_monstrousity.Remove.Tracking.{before_kv, after_edge}
use btree_monstrousity.Extremes.{first_leaf_edge}
use btree_monstrousity.Navigate.{
  LeafEdge, KvHandle, leaf_edge_behind, leaf_edge_before, next_leaf_edge, next_back_leaf_edge,
}
use btree_monstrousity.Navigate.Linked.{
  IsLinked, root_above, IsLeafOf, first_leaf_edge-IsLeafOf, last_leaf_edge-IsLeafOf,
}

module _ {ℓ κ} {K : Type ℓ} {V : Type κ} where
  -- A leaf edge of a filled tree, with the pairs in front of it and behind it.
  pub record IsEdge (root : Root K V) (e : LeafEdge K V) (front back : List (K × V))
      : Type (ℓ ⊔ κ) where
    pub of_root : IsLeafOf root e.leaf e.path
    pub in_leaf : e.idx ≤ length e.leaf
    pub filled : IsFilled K V (path_min 0 e.path) 0 e.leaf
    pub on_path : IsFilledPath K V 0 e.path
    pub before : edge_before e.leaf e.idx e.path ≡ front
    pub after : edge_after e.leaf e.idx e.path ≡ back

  -- A pair of a filled tree, with the pairs in front of it and behind it.
  pub record IsKv (root : Root K V) (k : KvHandle K V) (front : List (K × V)) (x : K × V)
      (back : List (K × V)) : Type (ℓ ⊔ κ) where
    pub linked : IsLinked k.height k.node k.path
    pub of_root : root_above k.height k.node k.path ≡ root
    pub here : get_elem? (pairs k.height k.node) k.idx ≡ some x
    pub filled : IsFilled K V (path_min k.height k.path) k.height k.node
    pub on_path : IsFilledPath K V k.height k.path
    pub before : entries_before k.height k.path ++ kv_before k.height k.node k.idx ≡ front
    pub after : kv_after k.height k.node k.idx ++ entries_after k.height k.path ≡ back

  -- The first leaf below a node.
  pub record Firsts (h : ℕ) (n : Node K V h) (p : Parents K V h) : Type (ℓ ⊔ κ) where
    pub leaf : LeafNode K V
    pub path : Parents K V 0
    pub runs : first_leaf_edge h n p ≡ some (leaf, 0, path)
    pub before : entries_before 0 path ≡ entries_before h p
    pub after : leaf ++ entries_after 0 path ≡ entries h n ++ entries_after h p
    pub on_path : IsFilledPath K V 0 path
    pub filled : IsFilled K V (path_min 0 path) 0 leaf

  pub first_leaf_edge-Firsts :
      (h : ℕ) (n : Node K V h) (p : Parents K V h)
      → IsFilled K V (path_min h p) h n
      → IsFilledPath K V h p
      → Firsts h n p
  unfolding first_leaf_edge
  first_leaf_edge-Firsts zero n p f w = record {
    leaf = n;
    path = p;
    runs = refl;
    before = refl;
    after = refl;
    on_path = w;
    filled = f;
  }
  first_leaf_edge-Firsts (suc h) n p f w =
      let (c, get) = get_elem?_of_lt n.edges 0 (omega (arith, f.2)) in
      let fc = All-get_elem? (IsFilled K V min_len h) n.edges 0 f.3 get in
      let down = first_leaf_edge-Firsts h c (up n 0 p) fc (omega arith, f, w) in
      let tail = weave_tail (entries h) n.kvs (drop 1 n.edges) in
      record {
        leaf = down.leaf;
        path = down.path;
        runs = rw (get, first_leaf_edge) down.runs;
        before = down.before ∙ append-nil (entries_before (suc h) p);
        after =
            down.after
            ∙ sym (append_assoc (entries h c) tail (entries_after (suc h) p))
            ∙ ap (λ a. a ++ entries_after (suc h) p)
                (sym (
                  ap (weave (entries h) n.kvs) (get_elem?_split n.edges 0 c get)
                  ∙ weave-cons (entries h) n.kvs c (drop 1 n.edges)));
        on_path = down.on_path;
        filled = down.filled;
      }

  -- A pair closes what is in front of the edge behind it.
  pub with_last :
      (h : ℕ) (n : InternalNode K V (Node K V h)) (i : ℕ) (x : K × V)
      → length n.edges ≡ suc (length n.kvs)
      → i < length n.kvs
      → weave (entries h) (take i n.kvs ++ x ∷ []) (take (suc i) n.edges)
        ≡ kv_before (suc h) n i ++ x ∷ []
  with_last h n i x len lt =
      ap (weave (entries h) (take i n.kvs ++ x ∷ [])) (sym (append-nil (take (suc i) n.edges)))
      ∙ weave_middle (entries h) (take i n.kvs) [] x (take (suc i) n.edges) []
          (omega (arith, length-take i n.kvs, length-take (suc i) n.edges))

  -- A child opens what is behind the pair in front of it.
  pub with_child :
      (h : ℕ) (n : InternalNode K V (Node K V h)) (i : ℕ) (c : Node K V h) (p : Parents K V (suc h))
      → get_elem? n.edges i ≡ some c
      → entries h c ++ entries_after h (up n i p)
        ≡ weave (entries h) (drop i n.kvs) (drop i n.edges) ++ entries_after (suc h) p
  with_child h n i c p get =
      let tail = weave_tail (entries h) (drop i n.kvs) (drop (suc i) n.edges) in
      sym (append_assoc (entries h c) tail (entries_after (suc h) p))
      ∙ ap (λ a. a ++ entries_after (suc h) p)
          (sym (
            ap (weave (entries h) (drop i n.kvs)) (drop_split n.edges i c get)
            ∙ weave-cons (entries h) (drop i n.kvs) c (drop (suc i) n.edges)))

module _ {ℓ κ} {K : Type ℓ} {V : Type κ} (root : Root K V) (front back : List (K × V))
    (x : K × V) where
  behind_internal :
      (h : ℕ) (n : Node K V (suc h)) (i : ℕ) (p : Parents K V (suc h))
      → IsKv root (record { height = suc h; node = n; idx = i; path = p }) front x back
      → (e : LeafEdge K V) × (leaf_edge_behind (suc h) n i p ≡ some e)
        × IsEdge root e (front ++ x ∷ []) back
  unfolding leaf_edge_behind
  behind_internal h n i p k =
      let bound = get_elem?_bound n.kvs i k.here in
      let (c, get) = get_elem?_of_lt n.edges (suc i) (omega (arith, k.filled.2)) in
      let fc = All-get_elem? (IsFilled K V min_len h) n.edges (suc i) k.filled.3 get in
      let down =
        first_leaf_edge-Firsts h c (up n (suc i) p) fc (omega arith, k.filled, k.on_path) in
      let (l, r) =
        first_leaf_edge-IsLeafOf h c (up n (suc i) p) down.leaf 0 down.path (get, k.linked)
          down.runs in
      (
        record { leaf = down.leaf; idx = 0; path = down.path },
        rw (get, down.runs, ◌>>=◌) refl,
        record {
          of_root = (l, r ∙ k.of_root);
          in_leaf = omega arith;
          filled = down.filled;
          on_path = down.on_path;
          before =
              append-nil (entries_before 0 down.path)
              ∙ down.before
              ∙ ap (λ a. entries_before (suc h) p ++ weave (entries h) a (take (suc i) n.edges))
                  (take-suc n.kvs i x k.here)
              ∙ ap (λ a. entries_before (suc h) p ++ a) (with_last h n i x k.filled.2 bound)
              ∙ sym (append_assoc (entries_before (suc h) p) (kv_before (suc h) n i) (x ∷ []))
              ∙ ap (λ a. a ++ x ∷ []) k.before;
          after = down.after ∙ with_child h n (suc i) c p get ∙ k.after;
        },
      )

  before_internal :
      (h : ℕ) (n : Node K V (suc h)) (i : ℕ) (p : Parents K V (suc h))
      → IsKv root (record { height = suc h; node = n; idx = i; path = p }) front x back
      → (e : LeafEdge K V) × (leaf_edge_before (suc h) n i p ≡ some e)
        × IsEdge root e front (x ∷ back)
  unfolding leaf_edge_before
  before_internal h n i p k =
      let bound = get_elem?_bound n.kvs i k.here in
      let (c, get) = get_elem?_of_lt n.edges i (omega (arith, k.filled.2)) in
      let fc = All-get_elem? (IsFilled K V min_len h) n.edges i k.filled.3 get in
      let down =
        last_leaf_edge_lem h c (up n i p) fc (omega arith, k.filled, k.on_path) (omega arith) in
      let (l, r) =
        last_leaf_edge-IsLeafOf h c (up n i p) down.leaf (length down.leaf) down.path
          (get, k.linked) down.runs in
      (
        record { leaf = down.leaf; idx = length down.leaf; path = down.path },
        rw (get, down.runs, ◌>>=◌) refl,
        record {
          of_root = (l, r ∙ k.of_root);
          in_leaf = omega arith;
          filled = down.filled;
          on_path = down.on_path;
          before =
              ap (λ a. entries_before 0 down.path ++ a)
                (take_beyond down.leaf (length down.leaf) (omega arith))
              ∙ down.before
              ∙ append_assoc (entries_before (suc h) p)
                  (weave (entries h) (take i n.kvs) (take i n.edges)) (entries h c)
              ∙ ap (λ a. entries_before (suc h) p ++ a) (before_kv h i n c bound get)
              ∙ k.before;
          after =
              ap (λ a. a ++ entries_after 0 down.path)
                (drop_beyond down.leaf (length down.leaf) (omega arith))
              ∙ down.after
              ∙ after_edge h i n p x k.here
              ∙ ap (◌∷◌ x) k.after;
        },
      )

  pub next_leaf_edge_lem :
      (k : KvHandle K V)
      → IsKv root k front x back
      → (e : LeafEdge K V) × (next_leaf_edge k ≡ some e) × IsEdge root e (front ++ x ∷ []) back
  unfolding next_leaf_edge
  next_leaf_edge_lem k ok = at k.height k.node k.idx k.path ok
    where
      at :
          (h : ℕ) (n : Node K V h) (i : ℕ) (p : Parents K V h)
          → IsKv root (record { height = h; node = n; idx = i; path = p }) front x back
          → (e : LeafEdge K V) × (leaf_edge_behind h n i p ≡ some e)
            × IsEdge root e (front ++ x ∷ []) back
      at zero n i p k = (
        record { leaf = n; idx = suc i; path = p },
        unfold leaf_edge_behind in refl,
        record {
          of_root = (k.linked, k.of_root);
          in_leaf = omega (arith, get_elem?_bound n i k.here);
          filled = k.filled;
          on_path = k.on_path;
          before =
              ap (λ a. entries_before 0 p ++ a) (take-suc n i x k.here)
              ∙ sym (append_assoc (entries_before 0 p) (take i n) (x ∷ []))
              ∙ ap (λ a. a ++ x ∷ []) k.before;
          after = k.after;
        },
      )
      at (suc h) n i p k = behind_internal h n i p k

  pub next_back_leaf_edge_lem :
      (k : KvHandle K V)
      → IsKv root k front x back
      → (e : LeafEdge K V) × (next_back_leaf_edge k ≡ some e) × IsEdge root e front (x ∷ back)
  unfolding next_back_leaf_edge
  next_back_leaf_edge_lem k ok = at k.height k.node k.idx k.path ok
    where
      at :
          (h : ℕ) (n : Node K V h) (i : ℕ) (p : Parents K V h)
          → IsKv root (record { height = h; node = n; idx = i; path = p }) front x back
          → (e : LeafEdge K V) × (leaf_edge_before h n i p ≡ some e)
            × IsEdge root e front (x ∷ back)
      at zero n i p k = (
        record { leaf = n; idx = i; path = p },
        unfold leaf_edge_before in refl,
        record {
          of_root = (k.linked, k.of_root);
          in_leaf = omega (arith, get_elem?_bound n i k.here);
          filled = k.filled;
          on_path = k.on_path;
          before = k.before;
          after = ap (λ a. a ++ entries_after 0 p) (drop_split n i x k.here) ∙ ap (◌∷◌ x) k.after;
        },
      )
      at (suc h) n i p k = before_internal h n i p k
