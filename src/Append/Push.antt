-- ===== src/Append/Push.antt =====
-- The loop of `bulk_push`: each pair goes to the end of an open tree.
use btree_monstrousity.Prelude.{
  ℕ, zero, suc, ◌+◌, ◌≤◌, ◌<◌, ◌≡◌, refl, sym, ap, ap₂, ◌∙◌, subst, lt→ltb, ge→ltb, below, List, [],
  ◌∷◌, ◌++◌, length, set, some, inl, inr, arith, All, All-append, length-append, append_assoc,
  append-nil,
}
use btree_monstrousity.Defined.{Defined, ◌>>=◌}
use btree_monstrousity.Node.{LeafNode, Node, Parents, top, up, capacity}
use btree_monstrousity.Node.Content.{weave, weave-append, entries, entries_before}
use btree_monstrousity.Clone.{leaf_push, internal_push, push_internal_level}
use btree_monstrousity.Append.{right_tree, push_open, push_above, push_pair, push_pairs}
use btree_monstrousity.Append.Spine.{
  IsFull, IsOpen, RootPairs, IsOpenPath, set_last, last_content, last_leaf_edge-IsOpen,
}

module _ {ℓ κ} {K : Type ℓ} {V : Type κ} where
  -- The last leaf of an open tree with the given content.
  pub record Pushed (content : List (K × V)) (r : Defined (LeafNode K V × Parents K V 0))
      : Type (ℓ ⊔ κ) where
    pub leaf : LeafNode K V
    pub path : Parents K V 0
    pub runs : r ≡ some (leaf, path)
    pub room : length leaf ≤ capacity
    pub has : RootPairs K V 0 leaf path
    pub on_path : IsOpenPath K V 0 path
    pub before : entries_before 0 path ++ leaf ≡ content

  right_tree-IsOpen :
      (h : ℕ) → IsOpen K V h (right_tree K V h) × (entries h (right_tree K V h) ≡ [])
  unfolding right_tree push_internal_level
  right_tree-IsOpen zero = ((omega arith, refl), refl)
  right_tree-IsOpen (suc h) =
      let (o, none) = right_tree-IsOpen h in
      (
        ([], right_tree K V h, refl, refl, omega arith, tt, o),
        append-nil (entries h (right_tree K V h)) ∙ none,
      )

  root_longer :
      (h : ℕ) (m : Node K V (suc h)) (q : Parents K V (suc h))
      → 0 < length m.kvs
      → RootPairs K V (suc h) m q
  root_longer h m top less = less
  root_longer h m (up m' i q) less = tt

  push_open_lem :
      (h : ℕ) (n : Node K V (suc h)) (p : Parents K V (suc h)) (kv : K × V)
      (init : List (Node K V h)) (last : Node K V h)
      → n.edges ≡ init ++ last ∷ []
      → length init ≡ length n.kvs
      → length n.kvs < capacity
      → All (IsFull K V h) n.edges
      → IsOpenPath K V (suc h) p
      → Pushed ((entries_before (suc h) p ++ entries (suc h) n) ++ kv ∷ []) (push_open h n p kv)
  unfolding push_open internal_push
  push_open_lem h n p kv init last e len less full w =
      let t = right_tree K V h in
      let n' : Node K V (suc h) = record { kvs = n.kvs ++ kv ∷ []; edges = n.edges ++ t ∷ [] } in
      let (o, empty) = right_tree-IsOpen h in
      let longer = length-append n.kvs (kv ∷ []) in
      let edges_len : length n.edges ≡ length init + 1 =
        ap length e ∙ length-append init (last ∷ []) in
      let as_many : length n.edges ≡ length n'.kvs = omega (arith, longer, edges_len, len) in
      let before : weave (entries h) n'.kvs n.edges ≡ entries (suc h) n ++ kv ∷ [] =
        ap (weave (entries h) n'.kvs) e
        ∙ weave-append (entries h) n.kvs (kv ∷ []) init (last ∷ []) (omega (arith, len))
        ∙ sym (append_assoc (weave (entries h) n.kvs init) (entries h last) (kv ∷ []))
        ∙ ap (λ a. a ++ kv ∷ []) (sym (last_content h n init last e len)) in
      let content : entries (suc h) n' ≡ entries (suc h) n ++ kv ∷ [] =
        last_content h n' n.edges t refl as_many
        ∙ ap₂ (◌++◌) before empty
        ∙ append-nil (entries (suc h) n ++ kv ∷ []) in
      let down =
        last_leaf_edge-IsOpen (suc h) n' p
          (n.edges, t, refl, as_many, omega (arith, longer, less), full, o)
          (root_longer h n' p (omega (arith, longer))) w in
      record {
        leaf = down.leaf;
        path = down.path;
        runs = rw (lt→ltb (length n.kvs) capacity less, ◌>>=◌, down.runs) refl;
        room = down.room;
        has = down.has;
        on_path = down.on_path;
        before =
            down.before
            ∙ ap (λ a. entries_before (suc h) p ++ a) content
            ∙ sym (append_assoc (entries_before (suc h) p) (entries (suc h) n) (kv ∷ []));
      }

  push_above_lem :
      (h : ℕ) (n : Node K V h) (p : Parents K V h) (kv : K × V)
      → IsFull K V h n
      → IsOpenPath K V h p
      → Pushed ((entries_before h p ++ entries h n) ++ kv ∷ []) (push_above h n p kv)
  unfolding push_above push_internal_level
  push_above_lem h n top kv full w =
      subst (λ es. Pushed (es ++ kv ∷ []) (push_above h n top kv)) (append-nil (entries h n))
        (push_open_lem h (push_internal_level h n) top kv [] n refl refl (omega arith) (full, tt)
          tt)
  push_above_lem h n (up m i q) kv full (init, stale, e, len, at, le, before, has, w) =
      let m' : Node K V (suc h) = record m { edges = set m.edges i n } in
      let (e', same) = set_last h n m q i init stale e len at in
      let edges_full : All (IsFull K V h) m'.edges =
        subst (All (IsFull K V h)) (sym e')
          (All-append (IsFull K V h) init (n ∷ []) before (full, tt)) in
      let edges_len : length m'.edges ≡ length init + 1 =
        ap length e' ∙ length-append init (n ∷ []) in
      elim (below (length m.kvs) capacity) [
        | inl less ↦ rw (lt→ltb (length m.kvs) capacity less) (
            subst (λ es. Pushed (es ++ kv ∷ []) (push_open h m' q kv)) same
              (push_open_lem h m' q kv init n e' len less edges_full w))
        | inr more ↦ rw (ge→ltb (length m.kvs) capacity more) (
            subst (λ es. Pushed (es ++ kv ∷ []) (push_above (suc h) m' q kv)) same
              (push_above_lem (suc h) m' q kv
                (omega (arith, le, more), omega (arith, edges_len, len, le, more), edges_full) w))
      ]

  push_pair_lem :
      (n : LeafNode K V) (p : Parents K V 0) (kv : K × V)
      → length n ≤ capacity
      → IsOpenPath K V 0 p
      → Pushed ((entries_before 0 p ++ n) ++ kv ∷ []) (push_pair n p kv)
  unfolding push_pair leaf_push
  push_pair_lem n p kv le w = elim (below (length n) capacity) [
    | inl less ↦
        let longer = length-append n (kv ∷ []) in
        record {
          leaf = n ++ kv ∷ [];
          path = p;
          runs = rw (lt→ltb (length n) capacity less) refl;
          room = omega (arith, longer, less);
          has = leaf_pairs (n ++ kv ∷ []) p;
          on_path = w;
          before = sym (append_assoc (entries_before 0 p) n (kv ∷ []));
        }
    | inr more ↦
        rw (ge→ltb (length n) capacity more)
          (push_above_lem 0 n p kv (omega (arith, le, more), refl) w)
  ]
    where
      leaf_pairs : (n : LeafNode K V) (p : Parents K V 0) → RootPairs K V 0 n p
      leaf_pairs n top = tt
      leaf_pairs n (up m i q) = tt

  -- The last leaf after all pushes, and how many there were.
  pub record PushedAll (content : List (K × V)) (len : ℕ)
      (r : Defined ((LeafNode K V × Parents K V 0) × ℕ)) : Type (ℓ ⊔ κ) where
    pub leaf : LeafNode K V
    pub path : Parents K V 0
    pub runs : r ≡ some ((leaf, path), len)
    pub room : length leaf ≤ capacity
    pub has : RootPairs K V 0 leaf path
    pub on_path : IsOpenPath K V 0 path
    pub before : entries_before 0 path ++ leaf ≡ content

  pub push_pairs_lem :
      (n : LeafNode K V) (p : Parents K V 0) (kvs : List (K × V)) (len : ℕ)
      → length n ≤ capacity
      → RootPairs K V 0 n p
      → IsOpenPath K V 0 p
      → PushedAll ((entries_before 0 p ++ n) ++ kvs) (len + length kvs) (push_pairs n p kvs len)
  unfolding push_pairs
  push_pairs_lem n p [] len le has w = record {
    leaf = n;
    path = p;
    runs = ap (λ c. some ((n, p), c)) (omega arith);
    room = le;
    has = has;
    on_path = w;
    before = sym (append-nil (entries_before 0 p ++ n));
  }
  push_pairs_lem n p (kv ∷ kvs) len le has w =
      let one = push_pair_lem n p kv le w in
      let rest = push_pairs_lem one.leaf one.path kvs (len + 1) one.room one.has one.on_path in
      record {
        leaf = rest.leaf;
        path = rest.path;
        runs =
            rw (one.runs, ◌>>=◌)
              (rest.runs ∙ ap (λ c. some ((rest.leaf, rest.path), c)) (omega arith));
        room = rest.room;
        has = rest.has;
        on_path = rest.on_path;
        before =
            rest.before
            ∙ ap (λ a. a ++ kvs) one.before
            ∙ append_assoc (entries_before 0 p ++ n) (kv ∷ []) kvs;
      }
