-- ===== src/Append/Spine.antt =====
-- append.rs: a tree that grows at its right end: full but for the nodes on the way to its last leaf.
use btree_monstrousity.Prelude.{
  ℕ, zero, suc, ◌≤◌, ◌<◌, ◌≡◌, refl, sym, ap, ap₂, ◌∙◌, List, [], ◌∷◌, ◌++◌, length, take, set,
  get_elem?, some, arith, All, append_assoc, append-nil,
}
use btree_monstrousity.Defined.{◌>>=◌}
use btree_monstrousity.Node.{LeafNode, Node, Parents, top, up, capacity, min_len, replant}
use btree_monstrousity.Node.Content.{
  weave, weave-append, entries, root_entries, entries_before, IsFilled,
}
use btree_monstrousity.Remove.{last_leaf_edge}

module _ {ℓ} {A : Type ℓ} where
  pub take_length : (xs ys : List A) → take (length xs) (xs ++ ys) ≡ xs
  take_length [] ys = refl
  take_length (x ∷ xs) ys = ap (◌∷◌ x) (take_length xs ys)

  pub set_length : (xs : List A) (x y : A) → set (xs ++ x ∷ []) (length xs) y ≡ xs ++ y ∷ []
  set_length [] x y = refl
  set_length (z ∷ xs) x y = ap (◌∷◌ z) (set_length xs x y)

  pub get_length :
      (xs : List A) (x : A) (ys : List A) → get_elem? (xs ++ x ∷ ys) (length xs) ≡ some x
  get_length [] x ys = refl
  get_length (z ∷ xs) x ys = get_length xs x ys

  pub All-map {κ μ} :
      {P : A → Type κ} {Q : A → Type μ}
      → ((x : A) → P x → Q x)
      → (xs : List A) → All P xs
      → All Q xs
  All-map f [] ps = tt
  All-map f (x ∷ xs) (p, ps) = (f x p, All-map f xs ps)

  pub take_all : (xs : List A) → take (length xs) xs ≡ xs
  take_all [] = refl
  take_all (x ∷ xs) = ap (◌∷◌ x) (take_all xs)

module _ {ℓ κ} (K : Type ℓ) (V : Type κ) where
  -- Every node holds as many pairs as it may.
  abbrev pub IsFull : (h : ℕ) → Node K V h → Type (ℓ ⊔ κ)
  IsFull zero n = (length n ≡ capacity) × (n ≡ n)
  IsFull (suc h) n =
      (length n.kvs ≡ capacity) × (length n.edges ≡ suc capacity) × All (IsFull h) n.edges

  -- All but the last edge of each node lead to full trees.
  abbrev pub IsOpen : (h : ℕ) → Node K V h → Type (ℓ ⊔ κ)
  IsOpen zero n = (length n ≤ capacity) × (n ≡ n)
  IsOpen (suc h) n =
      (init : List (Node K V h)) × (last : Node K V h) × (n.edges ≡ init ++ last ∷ [])
      × (length init ≡ length n.kvs)
      × (length n.kvs ≤ capacity)
      × All (IsFull h) init
      × IsOpen h last

  -- Only the root must hold a pair, if it is no leaf.
  abbrev pub HasPairs : (h : ℕ) → Node K V h → Type 0
  HasPairs zero n = Unit
  HasPairs (suc h) n = 0 < length n.kvs

  abbrev pub RootPairs : (h : ℕ) → Node K V h → Parents K V h → Type 0
  RootPairs h n top = HasPairs h n
  RootPairs h n (up m i q) = Unit

  -- The way to the last leaf.
  abbrev pub IsOpenPath : (h : ℕ) → Parents K V h → Type (ℓ ⊔ κ)
  IsOpenPath h top = Unit
  IsOpenPath h (up m i q) =
      (init : List (Node K V h)) × (stale : Node K V h) × (m.edges ≡ init ++ stale ∷ [])
      × (length init ≡ length m.kvs)
      × (i ≡ length m.kvs)
      × (length m.kvs ≤ capacity)
      × All (IsFull h) init
      × RootPairs (suc h) m q
      × IsOpenPath (suc h) q

  pub IsFull-IsFilled :
      (least h : ℕ) (n : Node K V h) → least ≤ capacity → IsFull h n → IsFilled K V least h n
  IsFull-IsFilled least zero n le (len, _) = (omega (arith, le, len), omega (arith, len), tt)
  IsFull-IsFilled least (suc h) n le (len, len', f) = (
    omega (arith, le, len),
    omega (arith, len),
    omega (arith, len, len'),
    All-map (λ m g. IsFull-IsFilled min_len h m (omega arith) g) n.edges f,
  )

module _ {ℓ κ} {K : Type ℓ} {V : Type κ} where
  -- In front of the last child of a node are its pairs and the other children.
  pub before_last :
      (h : ℕ) (m : Node K V (suc h)) (q : Parents K V (suc h)) (init : List (Node K V h))
      (last : Node K V h) (i : ℕ)
      → m.edges ≡ init ++ last ∷ []
      → length init ≡ length m.kvs
      → i ≡ length m.kvs
      → entries_before h (up m i q) ≡ entries_before (suc h) q ++ weave (entries h) m.kvs init
  before_last h m q init last i e len at =
      let all : i ≡ length init = omega (arith, len, at) in
      ap (λ a. entries_before (suc h) q ++ a)
        (ap₂ (weave (entries h)) (ap (λ k. take k m.kvs) at ∙ take_all m.kvs)
          (ap₂ take all e ∙ take_length init (last ∷ [])))

  -- The content of a node is that with its last child behind.
  pub last_content :
      (h : ℕ) (m : Node K V (suc h)) (init : List (Node K V h)) (last : Node K V h)
      → m.edges ≡ init ++ last ∷ []
      → length init ≡ length m.kvs
      → entries (suc h) m ≡ weave (entries h) m.kvs init ++ entries h last
  last_content h m init last e len =
      ap₂ (weave (entries h)) (sym (append-nil m.kvs)) e
      ∙ weave-append (entries h) m.kvs [] init (last ∷ []) (omega (arith, len))
      ∙ ap (λ a. weave (entries h) m.kvs init ++ a) (append-nil (entries h last))

  -- The last leaf of an open tree.
  pub record OpenEnd (h : ℕ) (n : Node K V h) (p : Parents K V h) : Type (ℓ ⊔ κ) where
    pub leaf : LeafNode K V
    pub path : Parents K V 0
    pub runs : last_leaf_edge h n p ≡ some (leaf, length leaf, path)
    pub room : length leaf ≤ capacity
    pub has : RootPairs K V 0 leaf path
    pub on_path : IsOpenPath K V 0 path
    pub before : entries_before 0 path ++ leaf ≡ entries_before h p ++ entries h n

  pub last_leaf_edge-IsOpen :
      (h : ℕ) (n : Node K V h) (p : Parents K V h)
      → IsOpen K V h n
      → RootPairs K V h n p
      → IsOpenPath K V h p
      → OpenEnd h n p
  unfolding last_leaf_edge
  last_leaf_edge-IsOpen zero n p (le, _) has w = record {
    leaf = n;
    path = p;
    runs = refl;
    room = le;
    has = has;
    on_path = w;
    before = refl;
  }
  last_leaf_edge-IsOpen (suc h) n p (init, last, e, len, le, full, o) has w =
      let i = length n.kvs in
      let get : get_elem? n.edges i ≡ some last =
        ap₂ get_elem? e (sym len) ∙ get_length init last [] in
      let down =
        last_leaf_edge-IsOpen h last (up n i p) o tt (init, last, e, len, refl, le, full, has, w) in
      record {
        leaf = down.leaf;
        path = down.path;
        runs = rw (get, ◌>>=◌) down.runs;
        room = down.room;
        has = down.has;
        on_path = down.on_path;
        before =
            down.before
            ∙ ap (λ a. a ++ entries h last) (before_last h n p init last i e len refl)
            ∙ append_assoc (entries_before (suc h) p) (weave (entries h) n.kvs init)
                (entries h last)
            ∙ ap (λ a. entries_before (suc h) p ++ a) (sym (last_content h n init last e len));
      }

  pub root_pairs :
      (h : ℕ) (m : Node K V (suc h)) (q : Parents K V (suc h)) (es : List (Node K V h))
      → RootPairs K V (suc h) m q
      → RootPairs K V (suc h) (record m { edges = es }) q
  root_pairs h m top es has = has
  root_pairs h m (up m' i q) es has = tt

  -- A node put back as the last child of its parent.
  pub set_last :
      (h : ℕ) (n : Node K V h) (m : Node K V (suc h)) (q : Parents K V (suc h)) (i : ℕ)
      (init : List (Node K V h)) (stale : Node K V h)
      → m.edges ≡ init ++ stale ∷ []
      → length init ≡ length m.kvs
      → i ≡ length m.kvs
      → let m' = record m { edges = set m.edges i n } in
        (m'.edges ≡ init ++ n ∷ [])
        × (entries_before (suc h) q ++ entries (suc h) m'
            ≡ entries_before h (up m i q) ++ entries h n)
  set_last h n m q i init stale e len at =
      let m' : Node K V (suc h) = record m { edges = set m.edges i n } in
      let e' : m'.edges ≡ init ++ n ∷ [] =
        ap (λ es. set es i n) e
        ∙ ap (λ k. set (init ++ stale ∷ []) k n) (at ∙ sym len)
        ∙ set_length init stale n in
      (
        e',
        ap (λ a. entries_before (suc h) q ++ a) (last_content h m' init n e' len)
            ∙ sym (
                append_assoc (entries_before (suc h) q) (weave (entries h) m.kvs init)
                  (entries h n))
            ∙ ap (λ a. a ++ entries h n) (sym (before_last h m q init stale i e len at)),
      )

  -- Put back, the last leaf makes an open tree of all that is in front of its end.
  pub replant-IsOpen :
      (h : ℕ) (n : Node K V h) (p : Parents K V h)
      → IsOpen K V h n
      → RootPairs K V h n p
      → IsOpenPath K V h p
      → let r = replant h n p in
        IsOpen K V r.height r.node
        × HasPairs K V r.height r.node
        × (root_entries r ≡ entries_before h p ++ entries h n)
  unfolding replant
  replant-IsOpen h n top o has w = (o, has, refl)
  replant-IsOpen h n (up m i q) o has (init, stale, e, len, at, le, full, has', w) =
      let m' : Node K V (suc h) = record m { edges = set m.edges i n } in
      let (e', same) = set_last h n m q i init stale e len at in
      let pairs : RootPairs K V (suc h) m' q = root_pairs h m q (set m.edges i n) has' in
      let (o', has'', content) =
        replant-IsOpen (suc h) m' q (init, n, e', len, le, full, o) pairs w in
      (o', has'', content ∙ same)
