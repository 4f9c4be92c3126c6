-- ===== src/Search/Descent.antt =====
-- The descent from the root: where it ends, and what it passed on the way.
use Prim.Native.Nat.Ordering.{eq}
use btree_monstrousity.Prelude.{
  ℕ, zero, suc, ◌≤◌, ◌≡◌, refl, sym, ◌∙◌, ap, subst, List, [], ◌∷◌, ◌++◌, length, take, drop,
  get_elem?, some, Ordering, arith, length-drop, length-take, All-get_elem?, get_elem?_of_lt,
  set-get_elem?, take-append-drop,
}
use btree_monstrousity.Node.{LeafNode, Node, Root, Parents, top, up, pairs, replant, min_len}
use btree_monstrousity.Node.Content.{
  weave, weave_tail, entries, entries_before, entries_after, kv_before, kv_after, entries_split,
  IsFilled, IsFilledPath, IsFilledRoot, root_entries, path_min,
}
use btree_monstrousity.Node.Replant.{weave-set}
use btree_monstrousity.Order.{IsFront, IsBack, IsSorted, IsCut}
use btree_monstrousity.Order.Cut.{
  IsSorted-append_left, IsSorted-append_right, IsFront-append, IsBack-append, IsFront-of_ne_lt,
  IsBack-of_ne_gt,
}
use btree_monstrousity.Search.{IndexResult, SearchResult, find_key_index, search_tree}
use btree_monstrousity.Search.Index.{Stops, Located, find_key_index-Located}

module _ {ℓ κ} {K : Type ℓ} {V : Type κ} (comp : K → Ordering) where
  -- The handle is one into the tree, whose shape is as before; a pair is found where the
  -- comparator accepts it, and an edge lies between what is in front of the needle and behind.
  abbrev pub SearchOk : Root K V → SearchResult K V → Type (ℓ ⊔ κ)
  SearchOk root (SearchResult.found h n i p) =
      (replant h n p ≡ root)
      × IsFilled K V (path_min h p) h n
      × IsFilledPath K V h p
      × (x : K × V) × (get_elem? (pairs h n) i ≡ some x)
      × (comp x.0 ≡ eq)
      × IsFront comp (entries_before h p ++ kv_before h n i)
      × IsBack comp (kv_after h n i ++ entries_after h p)
  SearchOk root (SearchResult.go_down n i p) =
      (replant 0 n p ≡ root)
      × IsFilled K V (path_min 0 p) 0 n
      × IsFilledPath K V 0 p
      × (i ≤ length n)
      × IsFront comp (entries_before 0 p ++ take i n)
      × IsBack comp (drop i n ++ entries_after 0 p)
  SearchOk root SearchResult.out_of_bounds = ⊥ × Unit

module _ {ℓ κ μ} {K : Type ℓ} {V : Type κ} (before : K → K → Type μ) (comp : K → Ordering)
    (cut : IsCut before comp) where
  pub Stops-IsBack : (xs : List (K × V)) → IsSorted before xs → Stops comp xs → IsBack comp xs
  Stops-IsBack [] s h = tt
  Stops-IsBack (x ∷ xs) s h = (h, IsBack-of_ne_gt before comp cut x xs s (λ e. cc))

  weave-IsFront {ν} :
      {E : Type ν} (f : E → List (K × V)) (es : List (K × V)) (cs : List E)
      → length es ≡ length cs
      → IsSorted before (weave f es cs)
      → IsFront comp es
      → IsFront comp (weave f es cs)
  weave-IsFront f [] [] l s h = tt
  weave-IsFront f [] (c ∷ cs) l s h = absurd (omega arith)
  weave-IsFront f (e ∷ es) [] l s h = absurd (omega arith)
  weave-IsFront f (e ∷ es) (c ∷ cs) l s h =
      IsFront-append comp (f c) (e ∷ weave f es cs)
        (IsFront-of_ne_lt before comp cut (f c) e (weave f es cs) s (λ p. cc (h.0)))
        (
          h.0,
          weave-IsFront f es cs (omega arith)
              (IsSorted-append_right before (f c) (e ∷ weave f es cs) s).1 h.1,
        )

  weave_tail-IsBack {ν} :
      {E : Type ν} (f : E → List (K × V)) (es : List (K × V)) (cs : List E)
      → length es ≡ length cs
      → IsSorted before (weave_tail f es cs)
      → Stops comp es
      → IsBack comp (weave_tail f es cs)
  weave_tail-IsBack f [] [] l s h = tt
  weave_tail-IsBack f [] (c ∷ cs) l s h = absurd (omega arith)
  weave_tail-IsBack f (e ∷ es) cs l s h =
      (h, IsBack-of_ne_gt before comp cut e (weave f es cs) s (λ p. cc))

  -- A node that holds the pair the search stops at.
  found_ok :
      (least h : ℕ) (n : Node K V h) (i : ℕ) (x : K × V)
      → IsFilled K V least h n
      → IsSorted before (entries h n)
      → get_elem? (pairs h n) i ≡ some x
      → comp x.0 ≡ eq
      → IsFront comp (kv_before h n i) × IsBack comp (kv_after h n i)
  found_ok least h n i x f s get same =
      let front = kv_before h n i in
      let back = kv_after h n i in
      let s' = subst (IsSorted before) (entries_split least h n i x f get) s in
      (
        IsFront-of_ne_lt before comp cut front x back s' (λ e. cc),
        IsBack-of_ne_gt before comp cut x back (IsSorted-append_right before front (x ∷ back) s')
            (λ e. cc),
      )

  -- The content around the edge at which the search goes down.
  child_split :
      (h : ℕ) (n : Node K V (suc h)) (i : ℕ) (child : Node K V h)
      → i ≤ length n.kvs
      → length n.edges ≡ suc (length n.kvs)
      → get_elem? n.edges i ≡ some child
      → entries (suc h) n
        ≡ weave (entries h) (take i n.kvs) (take i n.edges)
          ++ (entries h child ++ weave_tail (entries h) (drop i n.kvs) (drop (suc i) n.edges))
  child_split h n i child le len get =
      ap (weave (entries h) n.kvs) (sym (set-get_elem? n.edges i child get))
      ∙ weave-set (entries h) n.kvs n.edges i child le (omega arith)

  go_down_ok :
      (h : ℕ) (n : Node K V (suc h)) (i : ℕ) (child : Node K V h)
      → i ≤ length n.kvs
      → length n.edges ≡ suc (length n.kvs)
      → get_elem? n.edges i ≡ some child
      → IsSorted before (entries (suc h) n)
      → IsFront comp (take i n.kvs)
      → Stops comp (drop i n.kvs)
      → IsFront comp (weave (entries h) (take i n.kvs) (take i n.edges))
        × IsSorted before (entries h child)
        × IsBack comp (weave_tail (entries h) (drop i n.kvs) (drop (suc i) n.edges))
  go_down_ok h n i child le len get s front stop =
      let l = weave (entries h) (take i n.kvs) (take i n.edges) in
      let r = weave_tail (entries h) (drop i n.kvs) (drop (suc i) n.edges) in
      let mid = entries h child in
      let s' = subst (IsSorted before) (child_split h n i child le len get) s in
      let s'' = IsSorted-append_right before l (mid ++ r) s' in
      (
        weave-IsFront (entries h) (take i n.kvs) (take i n.edges)
            (omega (arith, length-take i n.kvs, length-take i n.edges))
            (IsSorted-append_left before l (mid ++ r) s') front,
        IsSorted-append_left before mid r s'',
        weave_tail-IsBack (entries h) (drop i n.kvs) (drop (suc i) n.edges)
            (omega (arith, length-drop i n.kvs, length-drop (suc i) n.edges))
            (IsSorted-append_right before mid r s'') stop,
      )

  -- The state of the descent: the node is sorted, the path is filled and was taken rightly.
  record Descends (h : ℕ) (n : Node K V h) (p : Parents K V h) : Type (ℓ ⊔ κ ⊔ μ) where
    filled : IsFilled K V (path_min h p) h n
    on_path : IsFilledPath K V h p
    sorted : IsSorted before (entries h n)
    front : IsFront comp (entries_before h p)
    back : IsBack comp (entries_after h p)

  found_step :
      (h : ℕ) (n : Node K V h) (p : Parents K V h) (j : ℕ)
      → Descends h n p
      → Located comp (pairs h n) 0 (IndexResult.kv j)
      → SearchOk comp (replant h n p) (SearchResult.found h n j p)
  found_step h n p j d (m, x, at, get, same, _) =
      let get' : get_elem? (pairs h n) j ≡ some x =
        subst (λ i. get_elem? (pairs h n) i ≡ some x) (omega arith) get in
      let (f, b) = found_ok (path_min h p) h n j x d.filled d.sorted get' same in
      (
        refl,
        d.filled,
        d.on_path,
        x,
        get',
        same,
        IsFront-append comp (entries_before h p) (kv_before h n j) d.front f,
        IsBack-append comp (kv_after h n j) (entries_after h p) b d.back,
      )

  leaf_step :
      (n : LeafNode K V) (p : Parents K V 0) (j : ℕ)
      → Descends 0 n p
      → Located comp n 0 (IndexResult.edge j)
      → SearchOk comp (replant 0 n p) (SearchResult.go_down n j p)
  leaf_step n p j d (m, at, le, f, stop) =
      let e : m ≡ j = omega arith in
      let b =
        Stops-IsBack (drop m n)
          (IsSorted-append_right before (take m n) (drop m n)
            (subst (IsSorted before) (sym (take-append-drop m n)) d.sorted))
          stop in
      (
        refl,
        d.filled,
        d.on_path,
        omega arith,
        IsFront-append comp (entries_before 0 p) (take j n) d.front
            (subst (λ i. IsFront comp (take i n)) e f),
        IsBack-append comp (drop j n) (entries_after 0 p) (subst (λ i. IsBack comp (drop i n)) e b)
            d.back,
      )

  down_step :
      (h : ℕ) (n : Node K V (suc h)) (p : Parents K V (suc h)) (j : ℕ) (child : Node K V h)
      → Descends (suc h) n p
      → Located comp n.kvs 0 (IndexResult.edge j)
      → get_elem? n.edges j ≡ some child
      → Descends h child (up n j p)
  down_step h n p j child d (m, at, le, f, stop) get =
      let e : m ≡ j = omega arith in
      let (a, s, b) =
        go_down_ok h n j child (omega arith) d.filled.2 get d.sorted
          (subst (λ i. IsFront comp (take i n.kvs)) e f)
          (subst (λ i. Stops comp (drop i n.kvs)) e stop) in
      record {
        filled = All-get_elem? (IsFilled K V min_len h) n.edges j d.filled.3 get;
        on_path = (omega arith, d.filled, d.on_path);
        sorted = s;
        front = IsFront-append comp (entries_before (suc h) p) _ d.front a;
        back = IsBack-append comp _ (entries_after (suc h) p) b d.back;
      }

  search_tree_ok :
      (h : ℕ) (n : Node K V h) (p : Parents K V h)
      → Descends h n p
      → SearchOk comp (replant h n p) (search_tree comp h n p)
  unfolding search_tree
  search_tree_ok zero n p d =
      go (find_key_index comp n 0) refl (find_key_index-Located comp n 0 (omega arith))
    where
      go :
          (r : IndexResult)
          → find_key_index comp n 0 ≡ r
          → Located comp n 0 r
          → SearchOk comp (replant 0 n p) (search_tree comp 0 n p)
      go (IndexResult.kv j) e l = rw (e, search_tree) (found_step 0 n p j d l)
      go (IndexResult.edge j) e l = rw (e, search_tree) (leaf_step n p j d l)
  search_tree_ok (suc h) n p d =
      go (search_tree_ok h) (find_key_index comp n.kvs 0) refl
        (find_key_index-Located comp n.kvs 0 (omega arith))
    where
      go :
          ((c : Node K V h) (q : Parents K V h)
            → Descends h c q
            → SearchOk comp (replant h c q) (search_tree comp h c q))
          → (r : IndexResult) → find_key_index comp n.kvs 0 ≡ r
          → Located comp n.kvs 0 r
          → SearchOk comp (replant (suc h) n p) (search_tree comp (suc h) n p)
      go ih (IndexResult.kv j) e l = rw (e, search_tree) (found_step (suc h) n p j d l)
      go ih (IndexResult.edge j) e l =
          let (child, get) = get_elem?_of_lt n.edges j (omega (arith, d.filled.2)) in
          rw (e, get, search_tree)
            (subst (λ root. SearchOk comp root (search_tree comp h child (up n j p)))
              (ap (λ es. replant (suc h) (record n { edges = es }) p)
                (set-get_elem? n.edges j child get))
              (unfold replant in ih child (up n j p) (down_step h n p j child d l get)))

  -- In a filled tree whose pairs are sorted, with a comparator that cuts the order, `search_tree`
  -- never indexes out of bounds; it ends at an accepted pair, or at a leaf edge, with the needle
  -- behind all pairs in front of that place and in front of all pairs behind it, and with a path
  -- that leads back to the same tree.
  pub search_tree_lem :
      (root : Root K V)
      → IsFilledRoot K V root
      → IsSorted before (root_entries root)
      → SearchOk comp root (search_tree comp root.height root.node top)
  unfolding replant
  search_tree_lem root f s =
      search_tree_ok root.height root.node top
        (record { filled = f; on_path = tt; sorted = s; front = tt; back = tt })
