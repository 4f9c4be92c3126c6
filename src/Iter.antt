-- ===== src/Iter.antt =====
-- Iterators of map.rs, with the lazy ranges of navigate.rs that they keep: a range starts at the
-- root and goes down to its first or last leaf edge when that end is first asked.
pub mod Range
pub mod Next
pub mod Script
use btree_monstrousity.Prelude.{
  ℕ, zero, suc, ◌-◌, ◌==◌, List, [], ◌∷◌, Option, none, some, if◌then◌else◌,
}
use mathlib.Core.Option
use btree_monstrousity.Defined.{Defined, ◌>>=◌}
use btree_monstrousity.Node.{Root, top}
use btree_monstrousity.Remove.{last_leaf_edge}
use btree_monstrousity.Extremes.{first_leaf_edge}
use btree_monstrousity.Map.{BTreeMap}
use btree_monstrousity.Navigate.{LeafEdge, edge_of, next_unchecked, next_back_unchecked}

pub data LazyLeafHandle {ℓ κ} (K : Type ℓ) (V : Type κ) : Type (ℓ ⊔ κ) where
  at_root : Root K V → LazyLeafHandle K V
  at_edge : LeafEdge K V → LazyLeafHandle K V

pub record LazyLeafRange {ℓ κ} (K : Type ℓ) (V : Type κ) : Type (ℓ ⊔ κ) where
  pub front : Option (LazyLeafHandle K V)
  pub back : Option (LazyLeafHandle K V)

pub record Iter {ℓ κ} (K : Type ℓ) (V : Type κ) : Type (ℓ ⊔ κ) where
  pub range : LazyLeafRange K V
  pub length : ℕ

module _ {ℓ κ} {K : Type ℓ} {V : Type κ} where
  unfoldable pub empty_range : LazyLeafRange K V
  empty_range = record { front = none; back = none }

  unfoldable pub full_range : Root K V → Root K V → LazyLeafRange K V
  full_range root1 root2 = record {
    front = some (LazyLeafHandle.at_root root1);
    back = some (LazyLeafHandle.at_root root2);
  }

  abbrev with_front : LazyLeafRange K V → LeafEdge K V → LazyLeafRange K V
  with_front r e = record r { front = some (LazyLeafHandle.at_edge e) }

  abbrev with_back : LazyLeafRange K V → LeafEdge K V → LazyLeafRange K V
  with_back r e = record r { back = some (LazyLeafHandle.at_edge e) }

  -- The edge that the source returns a reference to, with the range.
  unfoldable pub init_front :
      LazyLeafRange K V → Defined (Option (LeafEdge K V) × LazyLeafRange K V)
  init_front r = elim r.front [
    | none ↦ some (none, r)
    | some (LazyLeafHandle.at_root root) ↦ first_leaf_edge root.height root.node top >>= λ e.
        some (some (edge_of e), with_front r (edge_of e))
    | some (LazyLeafHandle.at_edge e) ↦ some (some e, r)
  ]

  unfoldable pub init_back : LazyLeafRange K V → Defined (Option (LeafEdge K V) × LazyLeafRange K V)
  init_back r = elim r.back [
    | none ↦ some (none, r)
    | some (LazyLeafHandle.at_root root) ↦ last_leaf_edge root.height root.node top >>= λ e.
        some (some (edge_of e), with_back r (edge_of e))
    | some (LazyLeafHandle.at_edge e) ↦ some (some e, r)
  ]

  -- `next_unchecked` of a range; `unwrap` of no edge panics.
  unfoldable pub range_next_unchecked : LazyLeafRange K V → Defined ((K × V) × LazyLeafRange K V)
  range_next_unchecked r = init_front r >>= λ (e, r').
      e >>= λ e. next_unchecked e >>= λ (kv, e'). some (kv, with_front r' e')

  unfoldable pub range_next_back_unchecked :
      LazyLeafRange K V → Defined ((K × V) × LazyLeafRange K V)
  range_next_back_unchecked r = init_back r >>= λ (e, r').
      e >>= λ e. next_back_unchecked e >>= λ (kv, e'). some (kv, with_back r' e')

  unfoldable pub iter : BTreeMap K V → Iter K V
  unfolding full_range empty_range
  iter m = elim m.root [
    | some root ↦ record { range = full_range root root; length = m.length }
    | none ↦ record { range = empty_range; length = 0 }
  ]

  unfoldable pub next : Iter K V → Defined (Option (K × V) × Iter K V)
  next it =
      if it.length == 0
      then some (none, it)
      else (range_next_unchecked it.range >>= λ (kv, r).
          some (some kv, record { range = r; length = it.length - 1 }))

  unfoldable pub next_back : Iter K V → Defined (Option (K × V) × Iter K V)
  next_back it =
      if it.length == 0
      then some (none, it)
      else (range_next_back_unchecked it.range >>= λ (kv, r).
          some (some kv, record { range = r; length = it.length - 1 }))

  unfoldable pub size_hint : Iter K V → ℕ × Option ℕ
  size_hint it = (it.length, some it.length)

  -- A `for` loop over an iterator, with fuel for its steps.
  unfoldable pub collect : ℕ → Iter K V → Defined (List (K × V))
  collect zero it = none
  collect (suc fuel) it = next it >>= λ (kv, it'). elim kv [
    | none ↦ some []
    | some kv ↦ collect fuel it' >>= λ rest. some (kv ∷ rest)
  ]
