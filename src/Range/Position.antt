-- ===== src/Range/Position.antt =====
-- `==` of handles to leaf edges, node.rs, against the number of pairs in front of them, which the way
-- from the root and the index in the leaf give.
use btree_monstrousity.Prelude.{
  ℕ, suc, ◌≤◌, ◌==◌, ◌≡◌, refl, sym, ap, ap₂, ◌∙◌, ◌↔◌, subst, true, List, [], ◌∷◌, length, take,
  arith, length-append, length-take,
}
use btree_monstrousity.Node.{Root, Parents, top, up}
use btree_monstrousity.Node.Content.{entries_before, IsFilledPath, IsFilledRoot, root_min}
use btree_monstrousity.Remove.Around.{edge_before}
use btree_monstrousity.Navigate.{LeafEdge}
use btree_monstrousity.Navigate.Linked.{root_above, IsLeafOf}
use btree_monstrousity.Navigate.Ends.{IsEdge}
use btree_monstrousity.Range.{same_path, same_edge}
use btree_monstrousity.Range.Offset.{
  eq_of_true, true_of_eq, both_true, indices, offset, Leads, climb-Leads, climb-offset,
  offset-injective,
}

module _ {ℓ κ} {K : Type ℓ} {V : Type κ} where
  same_path-indices :
      (h : ℕ) (p q : Parents K V h) (acc : List ℕ)
      → same_path h p q ≡ true
      → indices h p acc ≡ indices h q acc
  unfolding same_path
  same_path-indices h top top acc e = refl
  same_path-indices h top (up n j q) acc e = cc
  same_path-indices h (up m i p) top acc e = cc
  same_path-indices h (up m i p) (up n j q) acc e =
      let (same, above) = both_true (i == j) (same_path (suc h) p q) e in
      same_path-indices (suc h) p q (i ∷ acc) above
      ∙ ap (λ k. indices (suc h) q (k ∷ acc)) (eq_of_true i j same)

  indices_longer :
      (h : ℕ) (p : Parents K V h) (acc : List ℕ) → length acc ≤ length (indices h p acc)
  indices_longer h top acc = omega arith
  indices_longer h (up m i p) acc = omega (arith, indices_longer (suc h) p (i ∷ acc))

  indices-same_path :
      (h : ℕ) (p q : Parents K V h) (acc acc' : List ℕ)
      → length acc ≡ length acc'
      → indices h p acc ≡ indices h q acc'
      → (same_path h p q ≡ true) × (acc ≡ acc')
  unfolding same_path
  indices-same_path h top top acc acc' len e = (refl, e)
  indices-same_path h top (up n j q) acc acc' len e =
      absurd (omega (arith, len, ap length e, indices_longer (suc h) q (j ∷ acc')))
  indices-same_path h (up m i p) top acc acc' len e =
      absurd (omega (arith, len, ap length e, indices_longer (suc h) p (i ∷ acc)))
  indices-same_path h (up m i p) (up n j q) acc acc' len e =
      let (above, tops) =
        indices-same_path (suc h) p q (i ∷ acc) (j ∷ acc') (omega (arith, len)) e in
      let first : i ≡ j = (let t : i ∷ acc ≡ j ∷ acc' = tops in cc) in
      let rest : acc ≡ acc' = (let t : i ∷ acc ≡ j ∷ acc' = tops in cc) in
      (rw (true_of_eq i j first, above) refl, rest)

module _ {ℓ κ} {K : Type ℓ} {V : Type κ} (root : Root K V) (filled : IsFilledRoot K V root)
    (e e' : LeafEdge K V) (of_root : IsLeafOf root e.leaf e.path)
    (of_root' : IsLeafOf root e'.leaf e'.path) (on_path : IsFilledPath K V 0 e.path)
    (on_path' : IsFilledPath K V 0 e'.path) (in_leaf : e.idx ≤ length e.leaf)
    (in_leaf' : e'.idx ≤ length e'.leaf) where
  edge_offset :
      (e : LeafEdge K V)
      → IsLeafOf root e.leaf e.path
      → e.idx ≤ length e.leaf
      → length (edge_before e.leaf e.idx e.path)
        ≡ offset K V root.height root.node (indices 0 e.path []) e.idx
  edge_offset e of_root le =
      let r = root_above 0 e.leaf e.path in
      let climb = climb-offset 0 e.leaf e.path [] e.idx of_root.0 in
      let at = ap (λ r. offset K V r.height r.node (indices 0 e.path []) e.idx) of_root.1 in
      omega (
        arith,
        at,
        climb,
        length-append (entries_before 0 e.path) (take e.idx e.leaf),
        length-take e.idx e.leaf,
        le,
      )

  edge-Leads :
      (e : LeafEdge K V)
      → IsLeafOf root e.leaf e.path
      → IsFilledPath K V 0 e.path
      → e.idx ≤ length e.leaf
      → Leads K V root.height root.node (indices 0 e.path []) e.idx
  edge-Leads e of_root w le =
      subst (λ r. Leads K V r.height r.node (indices 0 e.path []) e.idx) of_root.1
        (climb-Leads 0 e.leaf e.path [] e.idx of_root.0 w (refl, le, refl))

  pub same_edge-length :
      same_edge e e' ≡ true
      → length (edge_before e.leaf e.idx e.path) ≡ length (edge_before e'.leaf e'.idx e'.path)
  unfolding same_edge
  same_edge-length same =
      let (way, at) = both_true (same_path 0 e.path e'.path) (e.idx == e'.idx) same in
      edge_offset e of_root in_leaf
      ∙ ap₂ (offset K V root.height root.node) (same_path-indices 0 e.path e'.path [] way)
          (eq_of_true e.idx e'.idx at)
      ∙ sym (edge_offset e' of_root' in_leaf')

  pub length-same_edge :
      length (edge_before e.leaf e.idx e.path) ≡ length (edge_before e'.leaf e'.idx e'.path)
      → same_edge e e' ≡ true
  unfolding same_edge
  length-same_edge len =
      let (ways, ends) =
        offset-injective K V (root_min root.height) root.height root.node (indices 0 e.path [])
          (indices 0 e'.path []) e.idx e'.idx filled (edge-Leads e of_root on_path in_leaf)
          (edge-Leads e' of_root' on_path' in_leaf')
          (sym (edge_offset e of_root in_leaf) ∙ len ∙ edge_offset e' of_root' in_leaf') in
      rw ((indices-same_path 0 e.path e'.path [] [] refl ways).0, true_of_eq e.idx e'.idx ends) refl

module _ {ℓ κ} {K : Type ℓ} {V : Type κ} where
  -- For two leaf edges of one filled tree, the handles are equal (the same node, the same index) if
  -- and only if as many pairs stand in front of the one as in front of the other.
  pub same_edge_lem :
      (root : Root K V) (e e' : LeafEdge K V) (front front' back back' : List (K × V))
      → IsFilledRoot K V root
      → IsEdge root e front back
      → IsEdge root e' front' back'
      → (same_edge e e' ≡ true) ↔ (length front ≡ length front')
  same_edge_lem root e e' front front' back back' f ok ok' = (
    λ same.
        sym (ap length ok.before)
        ∙ same_edge-length root f e e' ok.of_root ok'.of_root ok.on_path ok'.on_path ok.in_leaf
            ok'.in_leaf same
        ∙ ap length ok'.before,
    λ len.
        length-same_edge root f e e' ok.of_root ok'.of_root ok.on_path ok'.on_path ok.in_leaf
          ok'.in_leaf (ap length ok.before ∙ len ∙ sym (ap length ok'.before)),
  )
