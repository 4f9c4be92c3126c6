-- ===== src/Search.antt =====
-- search.rs: the linear search in a node, the bounds of a range in a node, and the descent.
pub mod Index
pub mod Descent
pub mod Bounds
pub mod Divide
use Prim.Native.Nat.Ordering.{lt, eq, gt}
use btree_monstrousity.Prelude.{
  ℕ, zero, suc, List, [], ◌∷◌, length, drop, get_elem?, none, some, Ordering,
}
use btree_monstrousity.Node.{LeafNode, Node, Parents, up, pairs}

pub data SearchBound : Type 0 where
  included : SearchBound
  excluded : SearchBound
  all_included : SearchBound
  all_excluded : SearchBound

pub data IndexResult : Type 0 where
  kv : ℕ → IndexResult
  edge : ℕ → IndexResult

-- `found` is a handle to a pair in a node of any height, `go_down` a handle to an edge of a leaf.
pub data SearchResult {ℓ κ} (K : Type ℓ) (V : Type κ) : Type (ℓ ⊔ κ) where
  found : (h : ℕ) → Node K V h → ℕ → Parents K V h → SearchResult K V
  go_down : LeafNode K V → ℕ → Parents K V 0 → SearchResult K V
  out_of_bounds : SearchResult K V

module _ {ℓ κ} {K : Type ℓ} {V : Type κ} (comp : K → Ordering) where
  -- The loop over the keys from an index on; `count` is `keys.len()`.
  unfoldable pub scan_keys : ℕ → List (K × V) → ℕ → IndexResult
  scan_keys count [] i = IndexResult.edge count
  scan_keys count (x ∷ xs) i =
      let rest = scan_keys count xs (suc i) in
      elim (comp x.0) [ gt ↦ rest | eq ↦ IndexResult.kv i | lt ↦ IndexResult.edge i ]

  unfoldable pub find_key_index : List (K × V) → ℕ → IndexResult
  unfolding scan_keys
  find_key_index kvs start_index = scan_keys (length kvs) (drop start_index kvs) start_index

  unfoldable pub find_lower_bound_index : List (K × V) → SearchBound → ℕ × SearchBound
  unfolding find_key_index
  find_lower_bound_index kvs SearchBound.included = elim (find_key_index kvs 0) [
    | IndexResult.kv idx ↦ (idx, SearchBound.all_excluded)
    | IndexResult.edge idx ↦ (idx, SearchBound.included)
  ]
  find_lower_bound_index kvs SearchBound.excluded = elim (find_key_index kvs 0) [
    | IndexResult.kv idx ↦ (suc idx, SearchBound.all_included)
    | IndexResult.edge idx ↦ (idx, SearchBound.excluded)
  ]
  find_lower_bound_index kvs SearchBound.all_included = (0, SearchBound.all_included)
  find_lower_bound_index kvs SearchBound.all_excluded = (length kvs, SearchBound.all_excluded)

  unfoldable pub find_upper_bound_index : List (K × V) → SearchBound → ℕ → ℕ × SearchBound
  unfolding find_key_index
  find_upper_bound_index kvs SearchBound.included start_index =
      elim (find_key_index kvs start_index) [
        | IndexResult.kv idx ↦ (suc idx, SearchBound.all_excluded)
        | IndexResult.edge idx ↦ (idx, SearchBound.included)
      ]
  find_upper_bound_index kvs SearchBound.excluded start_index =
      elim (find_key_index kvs start_index) [
        | IndexResult.kv idx ↦ (idx, SearchBound.all_included)
        | IndexResult.edge idx ↦ (idx, SearchBound.excluded)
      ]
  find_upper_bound_index kvs SearchBound.all_included start_index =
      (length kvs, SearchBound.all_included)
  find_upper_bound_index kvs SearchBound.all_excluded start_index =
      (start_index, SearchBound.all_excluded)

  -- `search_tree` from a node down, with the parents passed so far.
  unfoldable pub search_tree : (h : ℕ) → Node K V h → Parents K V h → SearchResult K V
  search_tree zero n p = elim (find_key_index n 0) [
    | IndexResult.kv i ↦ SearchResult.found 0 n i p
    | IndexResult.edge i ↦ SearchResult.go_down n i p
  ]
  search_tree (suc h) n p = elim (find_key_index n.kvs 0) [
    | IndexResult.kv i ↦ SearchResult.found (suc h) n i p
    | IndexResult.edge i ↦ elim (get_elem? n.edges i) [
      | none ↦ SearchResult.out_of_bounds
      | some child ↦ search_tree h child (up n i p)
    ]
  ]
