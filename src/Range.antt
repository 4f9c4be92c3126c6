-- ===== src/Range.antt =====
-- Ranges: search.rs, lines 66 to 157, navigate.rs, lines 11 to 97 and 240 to 330, and `range` of
-- map.rs. The search goes down to the node where both bounds part, and from there to the two leaf
-- edges of the range in step.
pub mod Narrow
pub mod Sides
pub mod Edge
pub mod Spread
pub mod Descent
pub mod Position
pub mod Offset
pub mod Next
pub mod Select
pub mod Found
pub mod Between
pub mod Script
pub mod Reversed
use btree_monstrousity.Prelude.{
  ℕ, zero, suc, ◌==◌, ◌&&◌, Bool, true, false, List, [], ◌∷◌, get_elem?, length, Option, none, some,
  ltb, Ordering, if◌then◌else◌,
}
use mathlib.Core.Option
use btree_monstrousity.Defined.{Defined, ◌>>=◌}
use btree_monstrousity.Node.{LeafNode, Node, Root, Parents, top, up, pairs}
use btree_monstrousity.Search.{SearchBound, find_lower_bound_index, find_upper_bound_index}
use btree_monstrousity.Map.{BTreeMap}
use btree_monstrousity.Navigate.{
  LeafEdge, next_kv, next_back_kv, next_leaf_edge, next_back_leaf_edge, handle_kv,
}

pub data SearchBoundCustom : Type 0 where
  included : SearchBoundCustom
  excluded : SearchBoundCustom
  all_included : SearchBoundCustom
  all_excluded : SearchBoundCustom

-- `SearchBound::from`.
unfoldable pub from_custom : SearchBoundCustom → SearchBound
from_custom SearchBoundCustom.included = SearchBound.included
from_custom SearchBoundCustom.excluded = SearchBound.excluded
from_custom SearchBoundCustom.all_included = SearchBound.all_included
from_custom SearchBoundCustom.all_excluded = SearchBound.all_excluded

pub record LeafRange {ℓ κ} (K : Type ℓ) (V : Type κ) : Type (ℓ ⊔ κ) where
  pub front : Option (LeafEdge K V)
  pub back : Option (LeafEdge K V)

-- A node with the edges where the bounds part and the bounds for the children, or the leaf edge that
-- matches both bounds.
pub data Bifurcation {ℓ κ} (K : Type ℓ) (V : Type κ) : Type (ℓ ⊔ κ) where
  parted :
      (h : ℕ) → Node K V h → ℕ → ℕ → Parents K V h → SearchBound → SearchBound → Bifurcation K V
  common : LeafEdge K V → Bifurcation K V

module _ {ℓ κ} {K : Type ℓ} {V : Type κ} where
  unfoldable pub no_range : LeafRange K V
  no_range = record { front = none; back = none }

  -- A node is told from others by the way that leads to it from the root.
  unfoldable pub same_path : (h : ℕ) → Parents K V h → Parents K V h → Bool
  same_path h top top = true
  same_path h top (up n j q) = false
  same_path h (up m i p) top = false
  same_path h (up m i p) (up n j q) = (i == j) && same_path (suc h) p q

  -- `==` of two handles: the same node and the same index.
  unfoldable pub same_edge : LeafEdge K V → LeafEdge K V → Bool
  unfolding same_path
  same_edge e e' = same_path 0 e.path e'.path && (e.idx == e'.idx)

  unfoldable pub is_empty : LeafRange K V → Bool
  is_empty r = elim r.front [
    | none ↦ elim r.back [ none ↦ true | some _ ↦ false ]
    | some e ↦ elim r.back [ none ↦ false | some e' ↦ same_edge e e' ]
  ]

  -- `next_checked` with `perform_next_checked`; `unwrap` of nothing panics.
  unfoldable pub next_checked : LeafRange K V → Defined (Option (K × V) × LeafRange K V)
  next_checked r =
      if is_empty r
      then some (none, r)
      else (r.front >>= λ front. next_kv front >>= λ kv. handle_kv kv >>= λ result.
          next_leaf_edge kv >>= λ e. some (some result, record r { front = some e }))

  unfoldable pub next_back_checked : LeafRange K V → Defined (Option (K × V) × LeafRange K V)
  next_back_checked r =
      if is_empty r
      then some (none, r)
      else (r.back >>= λ back. next_back_kv back >>= λ kv. handle_kv kv >>= λ result.
          next_back_leaf_edge kv >>= λ e. some (some result, record r { back = some e }))

module _ {ℓ κ} {K : Type ℓ} (comp : K → Ordering) where
  -- The edge of a node for a bound, as its index, with the bound for the child there.
  unfoldable pub find_lower_bound_edge :
      (V : Type κ) (h : ℕ) → Node K V h → SearchBound → ℕ × SearchBound
  find_lower_bound_edge V h n bound = find_lower_bound_index comp (pairs h n) bound

  unfoldable pub find_upper_bound_edge :
      (V : Type κ) (h : ℕ) → Node K V h → SearchBound → ℕ × SearchBound
  find_upper_bound_edge V h n bound = find_upper_bound_index comp (pairs h n) bound 0

module _ {ℓ κ} {K : Type ℓ} {V : Type κ} (lower_comp upper_comp : K → Ordering) where
  unfoldable pub search_tree_for_bifurcation :
      (h : ℕ) → Node K V h → Parents K V h → SearchBound → SearchBound → Defined (Bifurcation K V)
  search_tree_for_bifurcation zero n p lower_bound upper_bound =
      let (lower_edge_idx, lower_child_bound) = find_lower_bound_index lower_comp n lower_bound in
      let (upper_edge_idx, upper_child_bound) =
        find_upper_bound_index upper_comp n upper_bound lower_edge_idx in
      if ltb lower_edge_idx upper_edge_idx
      then some (
          Bifurcation.parted zero n lower_edge_idx upper_edge_idx p lower_child_bound
            upper_child_bound)
      else some (Bifurcation.common (record { leaf = n; idx = lower_edge_idx; path = p }))
  search_tree_for_bifurcation (suc h) n p lower_bound upper_bound =
      let (lower_edge_idx, lower_child_bound) =
        find_lower_bound_index lower_comp n.kvs lower_bound in
      let (upper_edge_idx, upper_child_bound) =
        find_upper_bound_index upper_comp n.kvs upper_bound lower_edge_idx in
      elim (ltb lower_edge_idx upper_edge_idx) [
        | true ↦ some (
            Bifurcation.parted (suc h) n lower_edge_idx upper_edge_idx p lower_child_bound
              upper_child_bound)
        | false ↦ get_elem? n.edges lower_edge_idx >>= λ child.
            search_tree_for_bifurcation h child (up n lower_edge_idx p) lower_child_bound
              upper_child_bound
      ]

  -- The loop of `find_leaf_edges_spanning_range`, from two edges at one height.
  unfoldable pub spread :
      (h : ℕ)
      → Node K V h
      → ℕ
      → Parents K V h
      → Node K V h
      → ℕ
      → Parents K V h
      → SearchBound
      → SearchBound
      → Defined (LeafRange K V)
  spread zero n i p n' i' p' lower_child_bound upper_child_bound = some (record {
    front = some (record { leaf = n; idx = i; path = p });
    back = some (record { leaf = n'; idx = i'; path = p' });
  })
  spread (suc h) n i p n' i' p' lower_child_bound upper_child_bound =
      get_elem? n.edges i >>= λ child. get_elem? n'.edges i' >>= λ child'.
      let (j, lower_bound) = find_lower_bound_edge lower_comp V h child lower_child_bound in
      let (j', upper_bound) = find_upper_bound_edge upper_comp V h child' upper_child_bound in
      spread h child j (up n i p) child' j' (up n' i' p') lower_bound upper_bound

  unfoldable pub find_leaf_edges_spanning_range :
      Root K V → SearchBound → SearchBound → Defined (LeafRange K V)
  find_leaf_edges_spanning_range root lower_bound upper_bound =
      search_tree_for_bifurcation root.height root.node top lower_bound upper_bound >>= λ b.
      elim b [
        | Bifurcation.common e ↦ some no_range
        | Bifurcation.parted h n i j p lower_child_bound upper_child_bound ↦
            spread h n i p n j p lower_child_bound upper_child_bound
      ]

  unfoldable pub range :
      BTreeMap K V → SearchBoundCustom → SearchBoundCustom → Defined (LeafRange K V)
  unfolding from_custom
  range m lower_bound upper_bound = elim m.root [
    | none ↦ some no_range
    | some root ↦
        find_leaf_edges_spanning_range root (from_custom lower_bound) (from_custom upper_bound)
  ]
