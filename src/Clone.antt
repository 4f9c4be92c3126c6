-- ===== src/Clone.antt =====
-- `clone` of map.rs, lines 232 to 317, with the pushes of node.rs that it takes.
pub mod Subtree
pub mod Whole
use btree_monstrousity.Prelude.{
  ℕ, zero, suc, ◌+◌, ◌≡◌, ◌==◌, Bool, true, false, List, [], ◌∷◌, ◌++◌, length, get_elem?, Option,
  none, some, ltb, if◌then◌else◌,
}
use mathlib.Core.Option
use btree_monstrousity.Defined.{Defined, ◌>>=◌, assert}
use btree_monstrousity.Node.{LeafNode, InternalNode, Node, Root, capacity}
use btree_monstrousity.Map.{BTreeMap, new, is_empty}

module _ {ℓ κ} {K : Type ℓ} {V : Type κ} where
  -- `push` on a leaf: a full one panics.
  unfoldable pub leaf_push : LeafNode K V → K × V → Defined (LeafNode K V)
  leaf_push n kv = assert (ltb (length n) capacity) >>= λ _. some (n ++ kv ∷ [])

  -- `push` on an internal node; that the edge is one level lower is in its type.
  unfoldable pub internal_push :
      (h : ℕ) → Node K V (suc h) → K × V → Node K V h → Defined (Node K V (suc h))
  internal_push h n kv edge = assert (ltb (length n.kvs) capacity) >>= λ _.
      some (record { kvs = n.kvs ++ kv ∷ []; edges = n.edges ++ edge ∷ [] })

  -- `push_internal_level`: a new root with the old one as its only child.
  unfoldable pub push_internal_level : (h : ℕ) → Node K V h → Node K V (suc h)
  push_internal_level h n = record { kvs = []; edges = n ∷ [] }

-- How keys and values are cloned is the callers' code.
module _ {ℓ κ} {K : Type ℓ} {V : Type κ} (clone_key : K → K) (clone_value : V → V) where
  abbrev pub clone_kv : K × V → K × V
  clone_kv (k, v) = (clone_key k, clone_value v)

  -- The loop over the pairs of a leaf, with the pushed copy and its length.
  unfoldable pub clone_leaf : List (K × V) → LeafNode K V → ℕ → Defined (LeafNode K V × ℕ)
  clone_leaf [] out len = some (out, len)
  clone_leaf (kv ∷ kvs) out len =
      leaf_push out (clone_kv kv) >>= λ out'. clone_leaf kvs out' (len + 1)

  -- The loop over the pairs of an internal node and the children behind them.
  unfoldable pub clone_pairs :
      (h : ℕ)
      → (Node K V h → Defined (Node K V h × ℕ))
      → List (K × V)
      → List (Node K V h)
      → Node K V (suc h)
      → ℕ
      → Defined (Node K V (suc h) × ℕ)
  clone_pairs h clone [] es out len = some (out, len)
  clone_pairs h clone (kv ∷ kvs) [] out len = none
  clone_pairs h clone (kv ∷ kvs) (e ∷ es) out len = clone e >>= λ (subroot, sublength).
      internal_push h out (clone_kv kv) subroot >>= λ out'.
      clone_pairs h clone kvs es out' (len + (1 + sublength))

  -- The copy of all below a node, and the number of its pairs.
  unfoldable pub clone_subtree : (h : ℕ) → Node K V h → Defined (Node K V h × ℕ)
  clone_subtree zero n = clone_leaf n [] 0
  clone_subtree (suc h) n = elim n.edges [
    | [] ↦ none
    | first ∷ rest ↦ clone_subtree h first >>= λ (out_root, len).
        clone_pairs h (clone_subtree h) n.kvs rest (push_internal_level h out_root) len
  ]

  unfoldable pub clone : BTreeMap K V → Defined (BTreeMap K V)
  clone m =
      if is_empty m
      then some new
      else (m.root >>= λ root. clone_subtree root.height root.node >>= λ (out, len).
          some (record { root = some (record { height = root.height; node = out }); length = len }))
