-- ===== src/Navigate/Linked.antt =====
-- Paths in a tree that is only read: each parent has the node below in the slot of the edge taken.
use btree_monstrousity.Prelude.{
  ℕ, zero, suc, ◌≡◌, refl, sym, ◌∙◌, inl, inr, length, get_elem?, none, some, Option-cases, subst,
}
use mathlib.Core.Option.{some-injective}
use btree_monstrousity.Node.{LeafNode, Node, Root, Parents, top, up, replant}
use btree_monstrousity.Remove.{last_leaf_edge}
use btree_monstrousity.Remove.Next.{replant-child}
use btree_monstrousity.Extremes.{first_leaf_edge}

module _ {ℓ κ} {K : Type ℓ} {V : Type κ} where
  abbrev pub IsLinked : (h : ℕ) → Node K V h → Parents K V h → Type (ℓ ⊔ κ)
  IsLinked h n top = Unit
  IsLinked h n (up parent i q) = (get_elem? parent.edges i ≡ some n) × IsLinked (suc h) parent q

  -- The root that the path leads up to.
  abbrev pub root_above : (h : ℕ) → Node K V h → Parents K V h → Root K V
  root_above h n top = record { height = h; node = n }
  root_above h n (up parent i q) = root_above (suc h) parent q

  -- Nothing changes when a node is put back where it is.
  pub replant-IsLinked :
      (h : ℕ) (n : Node K V h) (p : Parents K V h)
      → IsLinked h n p
      → replant h n p ≡ root_above h n p
  unfolding replant
  replant-IsLinked h n top l = refl
  replant-IsLinked h n (up parent i q) (get, l) =
      replant-child h i parent n q get ∙ replant-IsLinked (suc h) parent q l

  -- A leaf edge of the tree under `root`.
  abbrev pub IsLeafOf : Root K V → LeafNode K V → Parents K V 0 → Type (ℓ ⊔ κ)
  IsLeafOf root leaf path = IsLinked 0 leaf path × (root_above 0 leaf path ≡ root)

  IsLeafOf-some :
      (root : Root K V) (x y : LeafNode K V × ℕ × Parents K V 0)
      → some x ≡ some y
      → IsLeafOf root x.0 x.2
      → IsLeafOf root y.0 y.2
  IsLeafOf-some root x y e l = subst (λ z. IsLeafOf root z.0 z.2) (some-injective x y e) l

  pub first_leaf_edge-IsLeafOf :
      (h : ℕ) (n : Node K V h) (p : Parents K V h) (leaf : LeafNode K V) (i : ℕ)
      (path : Parents K V 0)
      → IsLinked h n p
      → first_leaf_edge h n p ≡ some (leaf, i, path)
      → IsLeafOf (root_above h n p) leaf path
  unfolding first_leaf_edge
  first_leaf_edge-IsLeafOf zero n p leaf i path l e =
      IsLeafOf-some (root_above 0 n p) (n, 0, p) (leaf, i, path) e (l, refl)
  first_leaf_edge-IsLeafOf (suc h) n p leaf i path l e = elim (Option-cases (get_elem? n.edges 0)) [
    | inl no_child ↦ absurd (stuck no_child)
    | inr (child, get) ↦
        first_leaf_edge-IsLeafOf h child (up n 0 p) leaf i path (get, l) (sym (down child get) ∙ e)
  ]
    where
      stuck : get_elem? n.edges 0 ≡ none → ⊥
      stuck g =
          let y : LeafNode K V × ℕ × Parents K V 0 = (leaf, i, path) in
          let e' : none ≡ some y = sym (rw (g, first_leaf_edge) refl) ∙ e in cc

      down :
          (child : Node K V h)
          → get_elem? n.edges 0 ≡ some child
          → first_leaf_edge (suc h) n p ≡ first_leaf_edge h child (up n 0 p)
      down child g = rw (g, first_leaf_edge) refl

  pub last_leaf_edge-IsLeafOf :
      (h : ℕ) (n : Node K V h) (p : Parents K V h) (leaf : LeafNode K V) (i : ℕ)
      (path : Parents K V 0)
      → IsLinked h n p
      → last_leaf_edge h n p ≡ some (leaf, i, path)
      → IsLeafOf (root_above h n p) leaf path
  unfolding last_leaf_edge
  last_leaf_edge-IsLeafOf zero n p leaf i path l e =
      IsLeafOf-some (root_above 0 n p) (n, length n, p) (leaf, i, path) e (l, refl)
  last_leaf_edge-IsLeafOf (suc h) n p leaf i path l e =
      elim (Option-cases (get_elem? n.edges (length n.kvs))) [
        | inl no_child ↦ absurd (stuck no_child)
        | inr (child, get) ↦
            last_leaf_edge-IsLeafOf h child (up n (length n.kvs) p) leaf i path (get, l)
              (sym (down child get) ∙ e)
      ]
    where
      stuck : get_elem? n.edges (length n.kvs) ≡ none → ⊥
      stuck g =
          let y : LeafNode K V × ℕ × Parents K V 0 = (leaf, i, path) in
          let e' : none ≡ some y = sym (rw (g, last_leaf_edge) refl) ∙ e in cc

      down :
          (child : Node K V h)
          → get_elem? n.edges (length n.kvs) ≡ some child
          → last_leaf_edge (suc h) n p ≡ last_leaf_edge h child (up n (length n.kvs) p)
      down child g = rw (g, last_leaf_edge) refl
