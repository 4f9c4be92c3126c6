-- ===== src/Node.antt =====
-- node.rs: nodes, the constants of the tree, and the path of parents that leads to a node.
-- `keys` and `vals` are always moved together and only their first `len` slots hold values, so a
-- node keeps the list of its initialised pairs; `len` is the length of that list.
pub mod Content
pub mod Slots
pub mod Insert
pub mod Replant
use btree_monstrousity.Prelude.{ℕ, zero, suc, ◌-◌, ◌*◌, List, set}

abbrev pub b : ℕ
b = 6

abbrev pub capacity : ℕ
capacity = 2 * b - 1

abbrev pub min_len_after_split : ℕ
min_len_after_split = b - 1

abbrev pub kv_idx_center : ℕ
kv_idx_center = b - 1

abbrev pub edge_idx_left_of_center : ℕ
edge_idx_left_of_center = b - 1

abbrev pub edge_idx_right_of_center : ℕ
edge_idx_right_of_center = b

abbrev pub min_len : ℕ
min_len = min_len_after_split

-- The pairs of a node; a leaf is no more than that.
abbrev pub LeafNode {ℓ κ} : Type ℓ → Type κ → Type (ℓ ⊔ κ)
LeafNode K V = List (K × V)

-- `E` is the type of the children, nodes one level lower.
pub record InternalNode {ℓ κ μ} (K : Type ℓ) (V : Type κ) (E : Type μ) : Type (ℓ ⊔ κ ⊔ μ) where
  pub kvs : List (K × V)
  pub edges : List E

-- The target of a `NodeRef` of a given height: `force` tells leaf from internal by the height.
abbrev pub Node {ℓ κ} : Type ℓ → Type κ → ℕ → Type (ℓ ⊔ κ)
Node K V zero = LeafNode K V
Node K V (suc h) = InternalNode K V (Node K V h)

-- An owned root: its height, and the node.
pub record Root {ℓ κ} (K : Type ℓ) (V : Type κ) : Type (ℓ ⊔ κ) where
  pub height : ℕ
  pub node : Node K V height

-- What `ascend` walks: the parents of a node of height `h`, each with the index of the edge.
-- The child at that index is under the reference and is put back by `replant`.
pub data Parents {ℓ κ} (K : Type ℓ) (V : Type κ) : ℕ → Type (ℓ ⊔ κ) where
  top : {h : ℕ} → Parents K V h
  up : {h : ℕ} → InternalNode K V (Node K V h) → ℕ → Parents K V (suc h) → Parents K V h

module _ {ℓ κ} {K : Type ℓ} {V : Type κ} where
  -- `LeafNode::keys` with the values: the pairs of a node of any height.
  abbrev pub pairs : (h : ℕ) → Node K V h → List (K × V)
  pairs zero n = n
  pairs (suc h) n = n.kvs

  -- The whole tree after a change in place of the node at the end of a path.
  unfoldable pub replant : (h : ℕ) → Node K V h → Parents K V h → Root K V
  replant h n top = record { height = h; node = n }
  replant h n (up parent idx p) =
      replant (suc h) (record parent { edges = set parent.edges idx n }) p
