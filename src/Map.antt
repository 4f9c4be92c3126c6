-- ===== src/Map.antt =====
-- map.rs and map/entry.rs: the map and its operations on single keys.
pub mod View
pub mod Get
pub mod Upsert
pub mod Insert
pub mod Delete
pub mod Remove
pub mod RoundTrip
pub mod Update
use Prim.Native.Nat.Ordering.{lt, eq, gt}
use btree_monstrousity.Prelude.{
  ℕ, zero, suc, ◌+◌, ◌-◌, ◌≡◌, Bool, true, false, List, [], ◌∷◌, length, Option, none, some,
  Ordering, get_elem?, set, ◌==◌, ltb, if◌then◌else◌,
}
use mathlib.Core.Option
use btree_monstrousity.Node.{LeafNode, InternalNode, Node, Root, Parents, top, pairs, replant}
use btree_monstrousity.Node.Insert.{insert_recursing}
use btree_monstrousity.Search.{SearchResult, search_tree}
use btree_monstrousity.Remove.{remove_kv_tracking}
use btree_monstrousity.Defined.{Defined, ◌>>=◌, assert}

pub record BTreeMap {ℓ κ} (K : Type ℓ) (V : Type κ) : Type (ℓ ⊔ κ) where
  pub root : Option (Root K V)
  pub length : ℕ

-- A handle to a pair in the map: the node, the index in it, and its parents.
pub record OccupiedEntry {ℓ κ} (K : Type ℓ) (V : Type κ) : Type (ℓ ⊔ κ) where
  pub height : ℕ
  pub node : Node K V height
  pub idx : ℕ
  pub path : Parents K V height

-- The edge of a leaf where the key belongs; none in a map that has no root.
pub record VacantEntry {ℓ κ} (K : Type ℓ) (V : Type κ) : Type (ℓ ⊔ κ) where
  pub key : K
  pub handle : Option (LeafNode K V × ℕ × Parents K V 0)

pub data Entry {ℓ κ} (K : Type ℓ) (V : Type κ) : Type (ℓ ⊔ κ) where
  occupied : OccupiedEntry K V → Entry K V
  vacant : VacantEntry K V → Entry K V

module _ {ℓ κ} {K : Type ℓ} {V : Type κ} where
  unfoldable pub new : BTreeMap K V
  new = record { root = none; length = 0 }

  unfoldable pub len : BTreeMap K V → ℕ
  len m = m.length

  unfoldable pub is_empty : BTreeMap K V → Bool
  unfolding len
  is_empty m = len m == 0

  -- `into_kv`: the pair under a handle.
  unfoldable pub into_kv : (h : ℕ) → Node K V h → ℕ → Defined (K × V)
  into_kv h n i = get_elem? (pairs h n) i

  -- A write of the value under a handle, `into_val_mut` and `kv_mut`, in the node.
  unfoldable pub write_kv : (h : ℕ) → Node K V h → ℕ → K × V → Node K V h
  write_kv zero n i kv = set n i kv
  write_kv (suc h) n i kv = record n { kvs = set n.kvs i kv }

  unfoldable pub get_key_value : BTreeMap K V → (K → Ordering) → Defined (Option (K × V))
  get_key_value m comp = elim m.root [
    | none ↦ some none
    | some root ↦ elim (search_tree comp root.height root.node top) [
      | SearchResult.found h n i p ↦ into_kv h n i >>= λ kv. some (some kv)
      | SearchResult.go_down n i p ↦ some none
      | SearchResult.out_of_bounds ↦ none
    ]
  ]

  unfoldable pub get : BTreeMap K V → (K → Ordering) → Defined (Option V)
  get m comp = elim m.root [
    | none ↦ some none
    | some root ↦ elim (search_tree comp root.height root.node top) [
      | SearchResult.found h n i p ↦ into_kv h n i >>= λ kv. some (some kv.1)
      | SearchResult.go_down n i p ↦ some none
      | SearchResult.out_of_bounds ↦ none
    ]
  ]

  unfoldable pub contains_key : BTreeMap K V → (K → Ordering) → Defined Bool
  contains_key m comp = get m comp >>= λ v. some (elim v [ none ↦ false | some _ ↦ true ])

  -- `double_comp` is asked with the stored key first.
  unfoldable pub entry : BTreeMap K V → K → (K → K → Ordering) → Defined (Entry K V)
  entry m key double_comp = elim m.root [
    | none ↦ some (Entry.vacant (record { key = key; handle = none }))
    | some root ↦ elim (search_tree (λ k. double_comp k key) root.height root.node top) [
      | SearchResult.found h n i p ↦
          some (Entry.occupied (record { height = h; node = n; idx = i; path = p }))
      | SearchResult.go_down n i p ↦
          some (Entry.vacant (record { key = key; handle = some (n, i, p) }))
      | SearchResult.out_of_bounds ↦ none
    ]
  ]

  -- The map after the value of an occupied entry is replaced, and the old value.
  unfoldable pub occupied_insert : BTreeMap K V → OccupiedEntry K V → V → Defined (V × BTreeMap K V)
  occupied_insert m e value = into_kv e.height e.node e.idx >>= λ kv. some (
    kv.1,
    record m {
      root = some (replant e.height (write_kv e.height e.node e.idx (kv.0, value)) e.path);
    },
  )

  unfoldable pub vacant_insert : BTreeMap K V → VacantEntry K V → V → Defined (BTreeMap K V)
  vacant_insert m e value = elim e.handle [
    | none ↦
        some
          (record { root = some (record { height = 0; node = (e.key, value) ∷ [] }); length = 1 })
    | some (n, idx, p) ↦ insert_recursing n idx p (e.key, value) >>= λ root.
        some (record { root = some root; length = m.length + 1 })
  ]

  unfoldable pub insert :
      BTreeMap K V → K → V → (K → K → Ordering) → Defined (Option V × BTreeMap K V)
  insert m key value double_comp = entry m key double_comp >>= λ e. elim e [
    | Entry.occupied o ↦ occupied_insert m o value >>= λ (old, m'). some (some old, m')
    | Entry.vacant v ↦ vacant_insert m v value >>= λ m'. some (none, m')
  ]

  -- `pop_internal_level`: a leaf as the root panics.
  unfoldable pub pop_level : (h : ℕ) → Node K V h → Defined (Root K V)
  pop_level zero n = none
  pop_level (suc h) n = get_elem? n.edges 0 >>= λ child. some (record { height = h; node = child })

  unfoldable pub pop_internal_level : Root K V → Defined (Root K V)
  unfolding pop_level
  pop_internal_level r = pop_level r.height r.node

  -- The length is decremented with a check for overflow.
  unfoldable pub occupied_remove_kv :
      BTreeMap K V → OccupiedEntry K V → Defined ((K × V) × BTreeMap K V)
  occupied_remove_kv m e =
      remove_kv_tracking e.height e.node e.idx e.path >>= λ (old_kv, root, full).
      assert (ltb 0 m.length) >>= λ _.
      (if full then some root else pop_internal_level root) >>= λ root'.
      some (old_kv, record { root = some root'; length = m.length - 1 })

  unfoldable pub remove_entry :
      BTreeMap K V → (K → Ordering) → Defined (Option (K × V) × BTreeMap K V)
  remove_entry m comp = elim m.root [
    | none ↦ some (none, m)
    | some root ↦ elim (search_tree comp root.height root.node top) [
      | SearchResult.found h n i p ↦
          occupied_remove_kv m (record { height = h; node = n; idx = i; path = p }) >>= λ (kv, m').
          some (some kv, m')
      | SearchResult.go_down n i p ↦ some (none, m)
      | SearchResult.out_of_bounds ↦ none
    ]
  ]

  unfoldable pub remove : BTreeMap K V → (K → Ordering) → Defined (Option V × BTreeMap K V)
  remove m comp = remove_entry m comp >>= λ (kv, m'). some (Option.map (λ (x : K × V). x.1) kv, m')

  -- `get_mut`, with what the caller does to the value behind the reference it is given.
  unfoldable pub get_mut :
      BTreeMap K V → (K → Ordering) → (V → V) → Defined (Option V × BTreeMap K V)
  get_mut m comp f = elim m.root [
    | none ↦ some (none, m)
    | some root ↦ elim (search_tree comp root.height root.node top) [
      | SearchResult.found h n i p ↦ into_kv h n i >>= λ kv.
          some (some kv.1, record m { root = some (replant h (write_kv h n i (kv.0, f kv.1)) p) })
      | SearchResult.go_down n i p ↦ some (none, m)
      | SearchResult.out_of_bounds ↦ none
    ]
  ]
