-- ===== src/Navigate.antt =====
-- navigate.rs: steps on handles, from a leaf edge to the pair next to it and on to the leaf edge
-- beyond. The tree is only read, so a parent on a path has the node below in its edge slot.
pub mod Linked
pub mod Ends
pub mod Climb
pub mod Back
pub mod Step
use btree_monstrousity.Prelude.{
  ℕ, zero, suc, ◌-◌, List, [], ◌∷◌, length, get_elem?, Option, none, some, ltb, if◌then◌else◌,
}
use btree_monstrousity.Defined.{Defined, ◌>>=◌}
use btree_monstrousity.Node.{LeafNode, Node, Root, Parents, top, up, pairs}
use btree_monstrousity.Remove.{last_leaf_edge}
use btree_monstrousity.Extremes.{first_leaf_edge}

-- A handle to an edge of a leaf, and one to a pair of a node of any height.
pub record LeafEdge {ℓ κ} (K : Type ℓ) (V : Type κ) : Type (ℓ ⊔ κ) where
  pub leaf : LeafNode K V
  pub idx : ℕ
  pub path : Parents K V 0

pub record KvHandle {ℓ κ} (K : Type ℓ) (V : Type κ) : Type (ℓ ⊔ κ) where
  pub height : ℕ
  pub node : Node K V height
  pub idx : ℕ
  pub path : Parents K V height

module _ {ℓ κ} {K : Type ℓ} {V : Type κ} where
  abbrev pub edge_of : LeafNode K V × ℕ × Parents K V 0 → LeafEdge K V
  edge_of (n, i, p) = record { leaf = n; idx = i; path = p }

  -- The loop of `next_kv` from an edge of a node of any height; `none` is the end of the tree.
  unfoldable pub next_kv_from : (h : ℕ) → Node K V h → ℕ → Parents K V h → Option (KvHandle K V)
  next_kv_from h n i top =
      if ltb i (length (pairs h n))
      then some (record { height = h; node = n; idx = i; path = top })
      else none
  next_kv_from h n i (up parent j q) =
      let above = next_kv_from (suc h) parent j q in
      if ltb i (length (pairs h n))
      then some (record { height = h; node = n; idx = i; path = up parent j q })
      else above

  unfoldable pub next_kv : LeafEdge K V → Option (KvHandle K V)
  unfolding next_kv_from
  next_kv e = next_kv_from 0 e.leaf e.idx e.path

  -- The loop of `next_back_kv`.
  unfoldable pub next_back_kv_from :
      (h : ℕ) → Node K V h → ℕ → Parents K V h → Option (KvHandle K V)
  next_back_kv_from h n i top =
      if ltb 0 i then some (record { height = h; node = n; idx = i - 1; path = top }) else none
  next_back_kv_from h n i (up parent j q) =
      let above = next_back_kv_from (suc h) parent j q in
      if ltb 0 i
      then some (record { height = h; node = n; idx = i - 1; path = up parent j q })
      else above

  unfoldable pub next_back_kv : LeafEdge K V → Option (KvHandle K V)
  unfolding next_back_kv_from
  next_back_kv e = next_back_kv_from 0 e.leaf e.idx e.path

  unfoldable pub leaf_edge_behind :
      (h : ℕ) → Node K V h → ℕ → Parents K V h → Defined (LeafEdge K V)
  leaf_edge_behind zero n i p = some (record { leaf = n; idx = suc i; path = p })
  leaf_edge_behind (suc h) n i p = get_elem? n.edges (suc i) >>= λ child.
      first_leaf_edge h child (up n (suc i) p) >>= λ e. some (edge_of e)

  -- `next_leaf_edge`: the leaf edge just behind a pair.
  unfoldable pub next_leaf_edge : KvHandle K V → Defined (LeafEdge K V)
  unfolding leaf_edge_behind
  next_leaf_edge k = leaf_edge_behind k.height k.node k.idx k.path

  unfoldable pub leaf_edge_before :
      (h : ℕ) → Node K V h → ℕ → Parents K V h → Defined (LeafEdge K V)
  leaf_edge_before zero n i p = some (record { leaf = n; idx = i; path = p })
  leaf_edge_before (suc h) n i p =
      get_elem? n.edges i >>= λ child. last_leaf_edge h child (up n i p) >>= λ e. some (edge_of e)

  -- `next_back_leaf_edge`: the leaf edge just in front of a pair.
  unfoldable pub next_back_leaf_edge : KvHandle K V → Defined (LeafEdge K V)
  unfolding leaf_edge_before
  next_back_leaf_edge k = leaf_edge_before k.height k.node k.idx k.path

  -- `into_kv` of a handle.
  unfoldable pub handle_kv : KvHandle K V → Defined (K × V)
  handle_kv k = get_elem? (pairs k.height k.node) k.idx

  -- The pair behind an edge, and the edge beyond; no pair there is undefined behaviour.
  unfoldable pub next_unchecked : LeafEdge K V → Defined ((K × V) × LeafEdge K V)
  next_unchecked e =
      next_kv e >>= λ k. handle_kv k >>= λ kv. next_leaf_edge k >>= λ e'. some (kv, e')

  unfoldable pub next_back_unchecked : LeafEdge K V → Defined ((K × V) × LeafEdge K V)
  next_back_unchecked e =
      next_back_kv e >>= λ k. handle_kv k >>= λ kv. next_back_leaf_edge k >>= λ e'. some (kv, e')
