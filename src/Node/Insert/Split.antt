-- ===== src/Node/Insert/Split.antt =====
-- `splitpoint`, and the content of a node that is split while a pair is inserted.
use btree_monstrousity.Prelude.{
  ℕ, suc, ◌+◌, ◌-◌, ◌≤◌, ◌<◌, ◌≡◌, ap, ap₂, sym, ◌∙◌, List, ◌∷◌, ◌++◌, length, take, drop,
  get_elem?, some, get_elem?_split, take-append-drop, length-take, arith,
}
use btree_monstrousity.Node.{LeafNode, InternalNode, capacity, min_len}
use btree_monstrousity.Node.Slots.{
  slice_insert, length-slice_insert, slice_insert-append_left, slice_insert-append_right,
}
use btree_monstrousity.Node.Content.{weave, weave_middle}
use btree_monstrousity.Node.Insert.{
  LeftOrRight, splitpoint, leaf_split, leaf_insert_half, internal_split, internal_insert_half,
}

-- What the split of a full node at a pair and the insertion in one half rely on: the insertion
-- position is the one asked for, and both halves end with enough pairs.
abbrev pub SplitsAt : ℕ → ℕ × LeftOrRight ℕ → Type 0
SplitsAt edge_idx (m, LeftOrRight.left i) =
    (i ≡ edge_idx) × (i ≤ m) × (min_len ≤ m + 1) × (min_len ≤ capacity - suc m) × (m < capacity)
SplitsAt edge_idx (m, LeftOrRight.right i) =
    (edge_idx ≡ suc m + i) × (min_len ≤ m) × (min_len ≤ capacity - suc m + 1) × (m < capacity)

-- For every edge of a full node `splitpoint` names a pair of the node and an edge in one of the
-- halves that is the same position, and with the insertion counted both halves hold at least the
-- least number of pairs.
pub splitpoint-SplitsAt :
    (edge_idx : ℕ) → edge_idx ≤ capacity → SplitsAt edge_idx (splitpoint edge_idx)
unfolding splitpoint
splitpoint-SplitsAt edge_idx h = ground arith

pub SplitsAt-bound : (edge_idx : ℕ) (s : ℕ × LeftOrRight ℕ) → SplitsAt edge_idx s → s.0 < capacity
SplitsAt-bound edge_idx (m, LeftOrRight.left i) h = h.4
SplitsAt-bound edge_idx (m, LeftOrRight.right i) h = h.3

module _ {ℓ κ} {K : Type ℓ} {V : Type κ} where
  -- The pairs of both halves of a leaf are those of the leaf with the new one.
  pub leaf_half_content :
      (n : LeafNode K V) (idx : ℕ) (m : ℕ) (ins : LeftOrRight ℕ) (mid kv : K × V)
      → SplitsAt idx (m, ins)
      → get_elem? n m ≡ some mid
      → m < length n
      → let s = leaf_insert_half (leaf_split n m mid) ins kv in
        s.left ++ s.kv ∷ s.right ≡ slice_insert n idx kv
  unfolding leaf_insert_half leaf_split
  leaf_half_content n idx m (LeftOrRight.left i) mid kv h e lt =
      sym (
        slice_insert-append_left (take m n) (mid ∷ drop (suc m) n) i kv
          (omega (arith, length-take m n)))
      ∙ ap₂ (λ xs j. slice_insert xs j kv) (sym (get_elem?_split n m mid e)) h.0
  leaf_half_content n idx m (LeftOrRight.right i) mid kv h e lt =
      sym (
        slice_insert-append_right (take m n) (mid ∷ drop (suc m) n) idx (suc i) kv
          (omega (arith, length-take m n)))
      ∙ ap (λ xs. slice_insert xs idx kv) (sym (get_elem?_split n m mid e))

module _ {ℓ κ μ} {K : Type ℓ} {V : Type κ} {E : Type μ} (f : E → List (K × V)) where
  abbrev content : InternalNode K V E → List (K × V)
  content n = weave f n.kvs n.edges

  -- The content of both halves of an internal node is that of the node with the new pair and edge.
  pub internal_half_content :
      (n : InternalNode K V E) (idx m : ℕ) (ins : LeftOrRight ℕ) (mid kv : K × V) (edge : E)
      → SplitsAt idx (m, ins)
      → get_elem? n.kvs m ≡ some mid
      → m < length n.kvs
      → length n.edges ≡ suc (length n.kvs)
      → let s = internal_insert_half (internal_split n m mid) ins kv edge in
        content s.left ++ s.kv ∷ content s.right
        ≡ weave f (slice_insert n.kvs idx kv) (slice_insert n.edges (suc idx) edge)
  unfolding internal_insert_half internal_split
  internal_half_content n idx m (LeftOrRight.left i) mid kv edge h e lt le =
      let kvs = take m n.kvs in
      let edges = take (suc m) n.edges in
      sym (
        weave_middle f (slice_insert kvs i kv) (drop (suc m) n.kvs) mid
          (slice_insert edges (suc i) edge) (drop (suc m) n.edges)
          (omega (
            arith,
            length-slice_insert edges (suc i) edge (omega (arith, length-take (suc m) n.edges)),
            length-slice_insert kvs i kv (omega (arith, length-take m n.kvs)),
            length-take m n.kvs,
            length-take (suc m) n.edges,
          )))
      ∙ ap₂ (weave f)
          (sym (
              slice_insert-append_left kvs (mid ∷ drop (suc m) n.kvs) i kv
                (omega (arith, length-take m n.kvs)))
            ∙ ap₂ (λ xs j. slice_insert xs j kv) (sym (get_elem?_split n.kvs m mid e)) h.0)
          (sym (
              slice_insert-append_left edges (drop (suc m) n.edges) (suc i) edge
                (omega (arith, length-take (suc m) n.edges)))
            ∙ ap₂ (λ xs j. slice_insert xs (suc j) edge) (take-append-drop (suc m) n.edges) h.0)
  internal_half_content n idx m (LeftOrRight.right i) mid kv edge h e lt le =
      sym (
        weave_middle f (take m n.kvs) (slice_insert (drop (suc m) n.kvs) i kv) mid
          (take (suc m) n.edges) (slice_insert (drop (suc m) n.edges) (suc i) edge)
          (omega (arith, length-take m n.kvs, length-take (suc m) n.edges)))
      ∙ ap₂ (weave f)
          (sym (
              slice_insert-append_right (take m n.kvs) (mid ∷ drop (suc m) n.kvs) idx (suc i) kv
                (omega (arith, length-take m n.kvs)))
            ∙ ap (λ xs. slice_insert xs idx kv) (sym (get_elem?_split n.kvs m mid e)))
          (sym (
              slice_insert-append_right (take (suc m) n.edges) (drop (suc m) n.edges) (suc idx)
                (suc i) edge (omega (arith, length-take (suc m) n.edges)))
            ∙ ap (λ xs. slice_insert xs (suc idx) edge) (take-append-drop (suc m) n.edges))
