-- ===== src/Node/Insert/Step.antt =====
-- One insertion into one node: its content, and the fill of what it leaves.
use btree_monstrousity.Prelude.{
  ℕ, suc, ◌≤◌, ◌<◌, ◌≡◌, refl, inl, inr, List, [], ◌∷◌, ◌++◌, length, take, drop, get_elem?, some,
  get_elem?_of_lt, length-take, length-drop, arith, true, false, ltb, Bool-cases, All-take,
  All-drop, tests,
}
use btree_monstrousity.Node.{LeafNode, InternalNode, Node, capacity, min_len}
use btree_monstrousity.Node.Slots.{slice_insert, length-slice_insert, All-slice_insert}
use btree_monstrousity.Node.Content.{weave, entries, IsFilled}
use btree_monstrousity.Node.Insert.{
  LeftOrRight, splitpoint, InsertResult, leaf_split, leaf_insert_half, leaf_insert_fit, leaf_insert,
  internal_split, internal_insert_half, internal_insert_fit, internal_insert,
}
use btree_monstrousity.Node.Insert.Split.{
  SplitsAt, splitpoint-SplitsAt, SplitsAt-bound, leaf_half_content, internal_half_content,
}

module _ {ℓ κ μ} {K : Type ℓ} {V : Type κ} {N : Type μ} (f : N → List (K × V)) where
  -- The pairs that an insertion leaves, split or not.
  abbrev pub result_content : InsertResult K V N → List (K × V)
  result_content (InsertResult.fit n) = f n
  result_content (InsertResult.split s) = f s.left ++ s.kv ∷ f s.right
  result_content InsertResult.out_of_bounds = []

-- The insertion stays in bounds, and what it leaves is filled.
abbrev pub IsFilledResult {ℓ κ} :
    (K : Type ℓ) (V : Type κ) → ℕ → (h : ℕ) → InsertResult K V (Node K V h) → Type (ℓ ⊔ κ)
IsFilledResult K V least h (InsertResult.fit n) = IsFilled K V least h n
IsFilledResult K V least h (InsertResult.split s) =
    IsFilled K V min_len h s.left × IsFilled K V min_len h s.right
IsFilledResult K V least h InsertResult.out_of_bounds = ⊥ × Unit

module _ {ℓ κ} {K : Type ℓ} {V : Type κ} where
  leaf_insert_fits :
      (n : LeafNode K V) (idx : ℕ) (kv : K × V)
      → ltb (length n) capacity ≡ true
      → leaf_insert n idx kv ≡ InsertResult.fit (slice_insert n idx kv)
  unfolding leaf_insert leaf_insert_fit
  leaf_insert_fits n idx kv e = rw e refl

  leaf_insert_splits :
      (n : LeafNode K V) (idx : ℕ) (kv mid : K × V)
      → ltb (length n) capacity ≡ false
      → get_elem? n (splitpoint idx).0 ≡ some mid
      → leaf_insert n idx kv
        ≡ InsertResult.split
            (leaf_insert_half (leaf_split n (splitpoint idx).0 mid) (splitpoint idx).1 kv)
  unfolding leaf_insert
  leaf_insert_splits n idx kv mid e g = ground arith

  leaf_half-IsFilled :
      (n : LeafNode K V) (idx m : ℕ) (ins : LeftOrRight ℕ) (mid kv : K × V)
      → SplitsAt idx (m, ins)
      → length n ≡ capacity
      → idx ≤ capacity
      → (least : ℕ)
      → IsFilledResult K V least 0
          (InsertResult.split (leaf_insert_half (leaf_split n m mid) ins kv))
  unfolding leaf_insert_half leaf_split leaf_insert_fit
  leaf_half-IsFilled n idx m (LeftOrRight.left i) mid kv h full le least = omega (
    arith,
    length-slice_insert (take m n) i kv (omega (arith, length-take m n)),
    length-take m n,
    length-drop (suc m) n,
  )
  leaf_half-IsFilled n idx m (LeftOrRight.right i) mid kv h full le least = omega (
    arith,
    length-slice_insert (drop (suc m) n) i kv (omega (arith, length-drop (suc m) n)),
    length-take m n,
    length-drop (suc m) n,
  )

  -- At an edge of a filled leaf `leaf_insert` stays in bounds; the leaf, or both halves of a split,
  -- are filled, and together hold the pairs of before with the new one at the edge.
  pub leaf_insert_step :
      (least : ℕ) (n : LeafNode K V) (idx : ℕ) (kv : K × V)
      → IsFilled K V least 0 n
      → idx ≤ length n
      → IsFilledResult K V least 0 (leaf_insert n idx kv)
        × (result_content (λ l. l) (leaf_insert n idx kv) ≡ slice_insert n idx kv)
  leaf_insert_step least n idx kv h le = elim (Bool-cases (ltb (length n) capacity)) [
    | inl fits ↦
        rw (leaf_insert_fits n idx kv fits)
          (omega (tests, length-slice_insert n idx kv le, fits), refl)
    | inr full ↦
        let m = (splitpoint idx).0 in
        let len : length n ≡ capacity = omega (tests, full) in
        let at = splitpoint-SplitsAt idx (omega arith) in
        let lt = SplitsAt-bound idx (splitpoint idx) at in
        let (mid, found) = get_elem?_of_lt n m (omega arith) in
        rw (leaf_insert_splits n idx kv mid full found) (
          leaf_half-IsFilled n idx m (splitpoint idx).1 mid kv at len (omega arith) least,
          leaf_half_content n idx m (splitpoint idx).1 mid kv at found (omega arith),
        )
  ]

  internal_insert_fits {μ} :
      {E : Type μ} (n : InternalNode K V E) (idx : ℕ) (kv : K × V) (edge : E)
      → ltb (length n.kvs) capacity ≡ true
      → internal_insert n idx kv edge ≡ InsertResult.fit (internal_insert_fit n idx kv edge)
  unfolding internal_insert
  internal_insert_fits n idx kv edge e = rw e refl

  internal_insert_splits {μ} :
      {E : Type μ} (n : InternalNode K V E) (idx : ℕ) (kv mid : K × V) (edge : E)
      → ltb (length n.kvs) capacity ≡ false
      → get_elem? n.kvs (splitpoint idx).0 ≡ some mid
      → internal_insert n idx kv edge
        ≡ InsertResult.split (
            internal_insert_half
              (internal_split n (splitpoint idx).0 mid)
              (splitpoint idx).1
              kv
              edge)
  unfolding internal_insert
  internal_insert_splits n idx kv mid edge e g = ground arith

  internal_fit-IsFilled :
      (least h : ℕ) (n : Node K V (suc h)) (idx : ℕ) (kv : K × V) (edge : Node K V h)
      → IsFilled K V least (suc h) n
      → idx ≤ length n.kvs
      → length n.kvs < capacity
      → IsFilled K V min_len h edge
      → IsFilled K V least (suc h) (internal_insert_fit n idx kv edge)
  unfolding internal_insert_fit
  internal_fit-IsFilled least h n idx kv edge (l, c, e, a) le lt w = (
    omega (arith, length-slice_insert n.kvs idx kv le),
    omega (arith, length-slice_insert n.kvs idx kv le),
    omega (
      arith,
      length-slice_insert n.kvs idx kv le,
      length-slice_insert n.edges (suc idx) edge (omega arith),
    ),
    All-slice_insert (IsFilled K V min_len h) n.edges (suc idx) edge w a,
  )

  internal_half-IsFilled :
      (least h : ℕ) (n : Node K V (suc h)) (idx m : ℕ) (ins : LeftOrRight ℕ) (mid kv : K × V)
      (edge : Node K V h)
      → SplitsAt idx (m, ins)
      → IsFilled K V least (suc h) n
      → length n.kvs ≡ capacity
      → idx ≤ capacity
      → IsFilled K V min_len h edge
      → IsFilledResult K V least
          (suc h)
          (InsertResult.split (internal_insert_half (internal_split n m mid) ins kv edge))
  unfolding internal_insert_half internal_split internal_insert_fit
  internal_half-IsFilled least h n idx m (LeftOrRight.left i) mid kv edge s (l, c, e, a) full top
        w =
      let P = IsFilled K V min_len h in
      let lk = length-slice_insert (take m n.kvs) i kv (omega (arith, length-take m n.kvs)) in
      let le =
        length-slice_insert (take (suc m) n.edges) (suc i) edge
          (omega (arith, length-take (suc m) n.edges)) in
      let dk = length-drop (suc m) n.kvs in
      let de = length-drop (suc m) n.edges in
      let tk = length-take m n.kvs in
      let te = length-take (suc m) n.edges in
      (
        (
          omega arith,
          omega arith,
          omega arith,
          All-slice_insert P (take (suc m) n.edges) (suc i) edge w (All-take P (suc m) n.edges a),
        ),
        (omega arith, omega arith, omega arith, All-drop P (suc m) n.edges a),
      )
  internal_half-IsFilled least h n idx m (LeftOrRight.right i) mid kv edge s (l, c, e, a) full top
        w =
      let P = IsFilled K V min_len h in
      let lk =
        length-slice_insert (drop (suc m) n.kvs) i kv (omega (arith, length-drop (suc m) n.kvs)) in
      let le =
        length-slice_insert (drop (suc m) n.edges) (suc i) edge
          (omega (arith, length-drop (suc m) n.edges)) in
      let dk = length-drop (suc m) n.kvs in
      let de = length-drop (suc m) n.edges in
      let tk = length-take m n.kvs in
      let te = length-take (suc m) n.edges in
      (
        (omega arith, omega arith, omega arith, All-take P (suc m) n.edges a),
        (
          omega arith,
          omega arith,
          omega arith,
          All-slice_insert P (drop (suc m) n.edges) (suc i) edge w (All-drop P (suc m) n.edges a),
        ),
      )

  -- At an edge of a filled internal node, with a filled child to insert, `internal_insert` stays in
  -- bounds; the node, or both halves of a split, are filled, and together hold the content of before
  -- with the new pair at the edge and the child behind the pair.
  pub internal_insert_step :
      (least h : ℕ) (n : Node K V (suc h)) (idx : ℕ) (kv : K × V) (edge : Node K V h)
      → IsFilled K V least (suc h) n
      → idx ≤ length n.kvs
      → IsFilled K V min_len h edge
      → IsFilledResult K V least (suc h) (internal_insert n idx kv edge)
        × (result_content (entries (suc h)) (internal_insert n idx kv edge)
            ≡ weave (entries h) (slice_insert n.kvs idx kv) (slice_insert n.edges (suc idx) edge))
  internal_insert_step least h n idx kv edge a le w =
      elim (Bool-cases (ltb (length n.kvs) capacity)) [
        | inl fits ↦ rw (internal_insert_fits n idx kv edge fits) (
          internal_fit-IsFilled least h n idx kv edge a le (omega (tests, fits)) w,
          unfold internal_insert_fit in refl,
        )
        | inr full ↦
            let m = (splitpoint idx).0 in
            let len : length n.kvs ≡ capacity = omega (tests, full) in
            let at = splitpoint-SplitsAt idx (omega arith) in
            let lt = SplitsAt-bound idx (splitpoint idx) at in
            let (mid, found) = get_elem?_of_lt n.kvs m (omega arith) in
            rw (internal_insert_splits n idx kv mid edge full found) (
              internal_half-IsFilled least h n idx m (splitpoint idx).1 mid kv edge at a len
                  (omega arith) w,
              internal_half_content (entries h) n idx m (splitpoint idx).1 mid kv edge at found
                  (omega arith) a.2,
            )
      ]
