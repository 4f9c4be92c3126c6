-- ===== src/Node/Insert.antt =====
-- node.rs, lines 874 to 1067: insertion at an edge, with splits that climb to the root.
pub mod Split
pub mod Step
pub mod Climb
use btree_monstrousity.Prelude.{
  ℕ, zero, suc, ◌+◌, ◌-◌, List, [], ◌∷◌, length, take, drop, set, get_elem?, Option, none, some,
  ltb, ◌==◌, if◌then◌else◌,
}
use btree_monstrousity.Node.{
  LeafNode, InternalNode, Node, Root, Parents, top, up, capacity, kv_idx_center,
  edge_idx_left_of_center, edge_idx_right_of_center, replant,
}
use btree_monstrousity.Defined.{Defined}
use btree_monstrousity.Node.Slots.{slice_insert}

pub data LeftOrRight {ℓ} (T : Type ℓ) : Type ℓ where
  left : T → LeftOrRight T
  right : T → LeftOrRight T

-- Where to split a full node, and on which side and where the insertion then goes.
unfoldable pub splitpoint : ℕ → ℕ × LeftOrRight ℕ
splitpoint edge_idx =
    if ltb edge_idx edge_idx_left_of_center
    then (kv_idx_center - 1, LeftOrRight.left edge_idx)
    else if edge_idx == edge_idx_left_of_center
    then (kv_idx_center, LeftOrRight.left edge_idx)
    else if edge_idx == edge_idx_right_of_center
    then (kv_idx_center, LeftOrRight.right 0)
    else (kv_idx_center + 1, LeftOrRight.right (edge_idx - (kv_idx_center + 1 + 1)))

-- `left` stays in the tree, `right` is new and of the same height; `N` is the type of the node.
pub record SplitResult {ℓ κ μ} (K : Type ℓ) (V : Type κ) (N : Type μ) : Type (ℓ ⊔ κ ⊔ μ) where
  pub left : N
  pub kv : K × V
  pub right : N

-- What an insertion into one node leaves: the node changed, or split in two. A read of a slot
-- that is not initialised is undefined behaviour in the source.
pub data InsertResult {ℓ κ μ} (K : Type ℓ) (V : Type κ) (N : Type μ) : Type (ℓ ⊔ κ ⊔ μ) where
  fit : N → InsertResult K V N
  split : SplitResult K V N → InsertResult K V N
  out_of_bounds : InsertResult K V N

module _ {ℓ κ} {K : Type ℓ} {V : Type κ} where
  unfoldable pub leaf_insert_fit : LeafNode K V → ℕ → K × V → LeafNode K V
  leaf_insert_fit n idx kv = slice_insert n idx kv

  -- `Handle<Leaf, KV>::split` at `idx`, where the pair `kv` is read.
  unfoldable pub leaf_split : LeafNode K V → ℕ → K × V → SplitResult K V (LeafNode K V)
  leaf_split n idx kv = record { left = take idx n; kv = kv; right = drop (suc idx) n }

  -- The insertion edge lies in the left or in the right half of a leaf just split.
  unfoldable pub leaf_insert_half :
      SplitResult K V (LeafNode K V) → LeftOrRight ℕ → K × V → SplitResult K V (LeafNode K V)
  unfolding leaf_insert_fit
  leaf_insert_half s (LeftOrRight.left i) kv = record s { left = leaf_insert_fit s.left i kv }
  leaf_insert_half s (LeftOrRight.right i) kv = record s { right = leaf_insert_fit s.right i kv }

  unfoldable pub leaf_insert : LeafNode K V → ℕ → K × V → InsertResult K V (LeafNode K V)
  leaf_insert n idx kv =
      if ltb (length n) capacity
      then InsertResult.fit (leaf_insert_fit n idx kv)
      else let (middle_kv_idx, insertion) = splitpoint idx in
        elim (get_elem? n middle_kv_idx) [
          | none ↦ InsertResult.out_of_bounds
          | some middle ↦
              InsertResult.split (leaf_insert_half (leaf_split n middle_kv_idx middle) insertion kv)
        ]

module _ {ℓ κ μ} {K : Type ℓ} {V : Type κ} {E : Type μ} where
  unfoldable pub internal_insert_fit : InternalNode K V E → ℕ → K × V → E → InternalNode K V E
  internal_insert_fit n idx kv edge = record {
    kvs = slice_insert n.kvs idx kv;
    edges = slice_insert n.edges (suc idx) edge;
  }

  -- `Handle<Internal, KV>::split`: the edges behind the pair go with the new node.
  unfoldable pub internal_split :
      InternalNode K V E → ℕ → K × V → SplitResult K V (InternalNode K V E)
  internal_split n idx kv = record {
    left = record { kvs = take idx n.kvs; edges = take (suc idx) n.edges };
    kv = kv;
    right = record { kvs = drop (suc idx) n.kvs; edges = drop (suc idx) n.edges };
  }

  unfoldable pub internal_insert_half :
      SplitResult K V (InternalNode K V E)
      → LeftOrRight ℕ
      → K × V
      → E
      → SplitResult K V (InternalNode K V E)
  unfolding internal_insert_fit
  internal_insert_half s (LeftOrRight.left i) kv edge = record s {
    left = internal_insert_fit s.left i kv edge;
  }
  internal_insert_half s (LeftOrRight.right i) kv edge = record s {
    right = internal_insert_fit s.right i kv edge;
  }

  unfoldable pub internal_insert :
      InternalNode K V E → ℕ → K × V → E → InsertResult K V (InternalNode K V E)
  internal_insert n idx kv edge =
      if ltb (length n.kvs) capacity
      then InsertResult.fit (internal_insert_fit n idx kv edge)
      else let (middle_kv_idx, insertion) = splitpoint idx in
        elim (get_elem? n.kvs middle_kv_idx) [
          | none ↦ InsertResult.out_of_bounds
          | some middle ↦
              InsertResult.split
                (internal_insert_half (internal_split n middle_kv_idx middle) insertion kv edge)
        ]

module _ {ℓ κ} {K : Type ℓ} {V : Type κ} where
  -- `VacantEntry::insert`'s closure: the root is wrapped in a new level and gets the split pair.
  unfoldable pub split_root : (h : ℕ) → SplitResult K V (Node K V h) → Root K V
  split_root h s = record {
    height = suc h;
    node = record { kvs = s.kv ∷ []; edges = s.left ∷ s.right ∷ [] };
  }

  -- The loop of `insert_recursing`, at a node of height `h` whose parents are the path.
  unfoldable pub insert_climb :
      (h : ℕ) → InsertResult K V (Node K V h) → Parents K V h → Defined (Root K V)
  insert_climb h (InsertResult.fit n) p = some (replant h n p)
  insert_climb h InsertResult.out_of_bounds p = none
  insert_climb h (InsertResult.split s) top = some (split_root h s)
  insert_climb h (InsertResult.split s) (up parent idx p) =
      insert_climb (suc h)
        (internal_insert (record parent { edges = set parent.edges idx s.left }) idx s.kv s.right) p

  -- The tree after an insertion at a leaf edge; `none` stands for undefined behaviour.
  unfoldable pub insert_recursing : LeafNode K V → ℕ → Parents K V 0 → K × V → Defined (Root K V)
  insert_recursing n idx p kv = insert_climb 0 (leaf_insert n idx kv) p
