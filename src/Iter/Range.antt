-- ===== src/Iter/Range.antt =====
-- The ends of a lazy range, before and after the first use.
use btree_monstrousity.Prelude.{
  ℕ, zero, suc, ◌≡◌, refl, sym, ap, ◌∙◌, subst, ◌⊎◌, inl, inr, List, [], ◌∷◌, ◌++◌, length, Option,
  some, arith, append-nil, take_beyond, drop_beyond,
}
use btree_monstrousity.Defined.{◌>>=◌}
use btree_monstrousity.Node.{Node, Root, top}
use btree_monstrousity.Node.Content.{
  entries, entries_before, entries_after, root_entries, IsFilledRoot,
}
use btree_monstrousity.Remove.{last_leaf_edge}
use btree_monstrousity.Remove.Next.{last_leaf_edge_lem}
use btree_monstrousity.Extremes.{first_leaf_edge}
use btree_monstrousity.Navigate.{LeafEdge}
use btree_monstrousity.Navigate.Linked.{first_leaf_edge-IsLeafOf, last_leaf_edge-IsLeafOf}
use btree_monstrousity.Navigate.Ends.{IsEdge, first_leaf_edge-Firsts}
use btree_monstrousity.Navigate.Step.{next_unchecked_lem, next_back_unchecked_lem}
use btree_monstrousity.Iter.{
  LazyLeafHandle, LazyLeafRange, with_front, with_back, init_front, init_back, range_next_unchecked,
  range_next_back_unchecked,
}

module _ {ℓ κ} {K : Type ℓ} {V : Type κ} (root : Root K V) where
  -- The front end of a range over the tree under `root`, with the pairs on both sides of it.
  abbrev pub HasFront : Option (LazyLeafHandle K V) → List (K × V) → List (K × V) → Type (ℓ ⊔ κ)
  HasFront end front back =
      ((e : LeafEdge K V) × (end ≡ some (LazyLeafHandle.at_edge e)) × IsEdge root e front back)
      ⊎ ((end ≡ some (LazyLeafHandle.at_root root))
          × IsFilledRoot K V root
          × (front ≡ [])
          × (root_entries root ≡ back))

  abbrev pub HasBack : Option (LazyLeafHandle K V) → List (K × V) → List (K × V) → Type (ℓ ⊔ κ)
  HasBack end front back =
      ((e : LeafEdge K V) × (end ≡ some (LazyLeafHandle.at_edge e)) × IsEdge root e front back)
      ⊎ ((end ≡ some (LazyLeafHandle.at_root root))
          × IsFilledRoot K V root
          × (root_entries root ≡ front)
          × (back ≡ []))

  first_IsEdge :
      IsFilledRoot K V root
      → (e : LeafEdge K V) × (first_leaf_edge root.height root.node top
          ≡ some (e.leaf, e.idx, e.path))
        × IsEdge root e [] (root_entries root)
  first_IsEdge f =
      let down = first_leaf_edge-Firsts root.height root.node top f tt in
      (
        record { leaf = down.leaf; idx = 0; path = down.path },
        down.runs,
        record {
          of_root =
              first_leaf_edge-IsLeafOf root.height root.node top down.leaf 0 down.path tt down.runs;
          in_leaf = omega arith;
          filled = down.filled;
          on_path = down.on_path;
          before = ap (λ a. a ++ []) down.before;
          after = down.after ∙ append-nil (root_entries root);
        },
      )

  last_IsEdge :
      (h : ℕ) (n : Node K V h)
      → IsFilledRoot K V (record { height = h; node = n })
      → (e : LeafEdge K V) × (last_leaf_edge h n top ≡ some (e.leaf, e.idx, e.path))
        × IsEdge (record { height = h; node = n }) e (entries h n) []
  last_IsEdge zero n f = (
    record { leaf = n; idx = length n; path = top },
    unfold last_leaf_edge in refl,
    record {
      of_root = (tt, refl);
      in_leaf = omega arith;
      filled = f;
      on_path = tt;
      before = take_beyond n (length n) (omega arith);
      after = ap (λ a. a ++ []) (drop_beyond n (length n) (omega arith));
    },
  )
  last_IsEdge (suc h) n f =
      let down = last_leaf_edge_lem (suc h) n top f tt (omega arith) in
      (
        record { leaf = down.leaf; idx = length down.leaf; path = down.path },
        down.runs,
        record {
          of_root =
              last_leaf_edge-IsLeafOf (suc h) n top down.leaf (length down.leaf) down.path tt
                down.runs;
          in_leaf = omega arith;
          filled = down.filled;
          on_path = down.on_path;
          before =
              ap (λ a. entries_before 0 down.path ++ a)
                (take_beyond down.leaf (length down.leaf) (omega arith))
              ∙ down.before;
          after =
              ap (λ a. a ++ entries_after 0 down.path)
                (drop_beyond down.leaf (length down.leaf) (omega arith))
              ∙ down.after;
        },
      )

  init_front_lem :
      (r : LazyLeafRange K V) (front back : List (K × V))
      → HasFront r.front front back
      → (e : LeafEdge K V) × (init_front r ≡ some (some e, with_front r e))
        × IsEdge root e front back
  unfolding init_front
  init_front_lem r front back (inl (e, at, ok)) =
      (e, rw (init_front, at) (ap (λ a. some (some e, record r { front = a })) at), ok)
  init_front_lem r front back (inr (at, f, none_before, all_behind)) =
      let (e, run, ok) = first_IsEdge f in
      (
        e,
        rw (init_front, at, run, ◌>>=◌) refl,
        subst (λ a. IsEdge root e a back) (sym none_before)
            (subst (λ a. IsEdge root e [] a) all_behind ok),
      )

  init_back_lem :
      (r : LazyLeafRange K V) (front back : List (K × V))
      → HasBack r.back front back
      → (e : LeafEdge K V) × (init_back r ≡ some (some e, with_back r e)) × IsEdge root e front back
  unfolding init_back
  init_back_lem r front back (inl (e, at, ok)) =
      (e, rw (init_back, at) (ap (λ a. some (some e, record r { back = a })) at), ok)
  init_back_lem r front back (inr (at, f, all_before, none_behind)) =
      let (e, run, ok) = last_IsEdge root.height root.node f in
      (
        e,
        rw (init_back, at, run, ◌>>=◌) refl,
        subst (λ a. IsEdge root e front a) (sym none_behind)
            (subst (λ a. IsEdge root e a []) all_before ok),
      )

  -- A step over the pair behind the front end.
  pub range_next_unchecked_lem :
      (r : LazyLeafRange K V) (front : List (K × V)) (x : K × V) (back : List (K × V))
      → HasFront r.front front (x ∷ back)
      → (e : LeafEdge K V) × (range_next_unchecked r ≡ some (x, with_front r e))
        × IsEdge root e (front ++ x ∷ []) back
  unfolding range_next_unchecked
  range_next_unchecked_lem r front x back has =
      let (e, at, ok) = init_front_lem r front (x ∷ back) has in
      let (e', run, ok') = next_unchecked_lem root e front x back ok in
      (e', rw (at, run, ◌>>=◌) refl, ok')

  pub range_next_back_unchecked_lem :
      (r : LazyLeafRange K V) (front : List (K × V)) (x : K × V) (back : List (K × V))
      → HasBack r.back (front ++ x ∷ []) back
      → (e : LeafEdge K V) × (range_next_back_unchecked r ≡ some (x, with_back r e))
        × IsEdge root e front (x ∷ back)
  unfolding range_next_back_unchecked
  range_next_back_unchecked_lem r front x back has =
      let (e, at, ok) = init_back_lem r (front ++ x ∷ []) back has in
      let (e', run, ok') = next_back_unchecked_lem root e front x back ok in
      (e', rw (at, run, ◌>>=◌) refl, ok')
