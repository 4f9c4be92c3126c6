-- ===== src/Navigate/Step.antt =====
-- One step of a leaf edge, over the pair next to it.
use btree_monstrousity.Prelude.{◌≡◌, refl, List, [], ◌∷◌, ◌++◌, some}
use btree_monstrousity.Defined.{◌>>=◌}
use btree_monstrousity.Node.{Root}
use btree_monstrousity.Navigate.{LeafEdge, handle_kv, next_unchecked, next_back_unchecked}
use btree_monstrousity.Navigate.Ends.{IsEdge, next_leaf_edge_lem, next_back_leaf_edge_lem}
use btree_monstrousity.Navigate.Climb.{next_kv_lem}
use btree_monstrousity.Navigate.Back.{next_back_kv_lem}

module _ {ℓ κ} {K : Type ℓ} {V : Type κ} (root : Root K V) (e : LeafEdge K V) (front : List (K × V))
    (x : K × V) (back : List (K × V)) where
  pub next_unchecked_lem :
      IsEdge root e front (x ∷ back)
      → (e' : LeafEdge K V) × (next_unchecked e ≡ some (x, e'))
        × IsEdge root e' (front ++ x ∷ []) back
  unfolding next_unchecked handle_kv
  next_unchecked_lem ok =
      let (k, found, at) = next_kv_lem root e front x back ok in
      let (e', moved, beyond) = next_leaf_edge_lem root front back x k at in
      (e', rw (found, ◌>>=◌, at.here, moved) refl, beyond)

  pub next_back_unchecked_lem :
      IsEdge root e (front ++ x ∷ []) back
      → (e' : LeafEdge K V) × (next_back_unchecked e ≡ some (x, e'))
        × IsEdge root e' front (x ∷ back)
  unfolding next_back_unchecked handle_kv
  next_back_unchecked_lem ok =
      let (k, found, at) = next_back_kv_lem root e front x back ok in
      let (e', moved, beyond) = next_back_leaf_edge_lem root front back x k at in
      (e', rw (found, ◌>>=◌, at.here, moved) refl, beyond)

module _ {ℓ κ} {K : Type ℓ} {V : Type κ} where
  -- From a leaf edge of a filled tree with a pair behind it, `next_unchecked` returns that pair and
  -- an edge from which `next_back_unchecked` returns the same pair and an edge with the same pairs
  -- in front of it and behind it as the first.
  pub next_back_unchecked-next_unchecked :
      (root : Root K V) (e : LeafEdge K V) (front : List (K × V)) (x : K × V) (back : List (K × V))
      → IsEdge root e front (x ∷ back)
      → (e' : LeafEdge K V) × (e'' : LeafEdge K V) × (next_unchecked e ≡ some (x, e'))
        × (next_back_unchecked e' ≡ some (x, e''))
        × IsEdge root e'' front (x ∷ back)
  next_back_unchecked-next_unchecked root e front x back ok =
      let (e', run, ok') = next_unchecked_lem root e front x back ok in
      let (e'', run', ok'') = next_back_unchecked_lem root e' front x back ok' in
      (e', e'', run, run', ok'')
