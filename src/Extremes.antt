-- ===== src/Extremes.antt =====
-- map.rs, lines 739 to 871: the first and the last pair of a map, with the descent of navigate.rs to
-- the first leaf.
pub mod Descent
pub mod Pop
pub mod Read
use btree_monstrousity.Prelude.{
  ℕ, zero, suc, ◌-◌, List, get_elem?, length, Option, none, some, ltb, if◌then◌else◌,
}
use btree_monstrousity.Defined.{Defined, ◌>>=◌}
use btree_monstrousity.Node.{LeafNode, Node, Parents, top, up}
use btree_monstrousity.Remove.{last_leaf_edge}
use btree_monstrousity.Map.{BTreeMap, occupied_remove_kv}

module _ {ℓ κ} {K : Type ℓ} {V : Type κ} where
  -- `first_leaf_edge` with the parents passed.
  unfoldable pub first_leaf_edge :
      (h : ℕ) → Node K V h → Parents K V h → Defined (LeafNode K V × ℕ × Parents K V 0)
  first_leaf_edge zero n p = some (n, 0, p)
  first_leaf_edge (suc h) n p = get_elem? n.edges 0 >>= λ child. first_leaf_edge h child (up n 0 p)

  -- `left_kv` of an edge of a leaf: the pair in front of it, if there is one.
  unfoldable pub left_kv : LeafNode K V → ℕ → Option (K × V)
  left_kv n idx = if ltb 0 idx then get_elem? n (idx - 1) else none

  unfoldable pub first_key_value : BTreeMap K V → Defined (Option (K × V))
  first_key_value m = elim m.root [
    | none ↦ some none
    | some root ↦ first_leaf_edge root.height root.node top >>= λ (n, i, p). some (get_elem? n i)
  ]

  unfoldable pub last_key_value : BTreeMap K V → Defined (Option (K × V))
  last_key_value m = elim m.root [
    | none ↦ some none
    | some root ↦ last_leaf_edge root.height root.node top >>= λ (n, i, p). some (left_kv n i)
  ]

  -- `first_entry`, and `remove_entry` of it.
  unfoldable pub pop_first : BTreeMap K V → Defined (Option (K × V) × BTreeMap K V)
  pop_first m = elim m.root [
    | none ↦ some (none, m)
    | some root ↦ first_leaf_edge root.height root.node top >>= λ (n, i, p). elim (get_elem? n i) [
      | none ↦ some (none, m)
      | some _ ↦
          occupied_remove_kv m (record { height = 0; node = n; idx = i; path = p }) >>= λ (kv, m').
          some (some kv, m')
    ]
  ]

  -- `last_entry`, and `remove_entry` of it.
  unfoldable pub pop_last : BTreeMap K V → Defined (Option (K × V) × BTreeMap K V)
  pop_last m = elim m.root [
    | none ↦ some (none, m)
    | some root ↦ last_leaf_edge root.height root.node top >>= λ (n, i, p). elim (left_kv n i) [
      | none ↦ some (none, m)
      | some _ ↦
          occupied_remove_kv m (record { height = 0; node = n; idx = i - 1; path = p })
          >>= λ (kv, m'). some (some kv, m')
    ]
  ]
