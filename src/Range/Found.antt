-- ===== src/Range/Found.antt =====
-- The range of two bounds in a tree: the leaf edges of both enclose the pairs that are past the lower
-- bound and within the upper.
use btree_monstrousity.Prelude.{
  ◌≡◌, refl, sym, ap, ◌∙◌, subst, inl, inr, List, ◌∷◌, ◌++◌, some, Ordering, arith, append_assoc,
  All-append_left, All-append_right, get_elem?_of_lt,
}
use mathlib.Core.List.{append_cancel_left, append_cancel_right}
use btree_monstrousity.Order.{IsCut, IsSorted}
use btree_monstrousity.Node.{Root, top, pairs}
use btree_monstrousity.Node.Content.{
  root_entries, entries_before, entries_after, kv_before, kv_after, IsFilledRoot, path_min,
}
use btree_monstrousity.Search.{SearchBound}
use btree_monstrousity.Search.Divide.{IsWithinUpper, IsPastUpper}
use btree_monstrousity.Range.{LeafRange, no_range, find_leaf_edges_spanning_range}
use btree_monstrousity.Range.Narrow.{flip}
use btree_monstrousity.Range.Sides.{edge_front, edge_back, edge_back-kv}
use btree_monstrousity.Range.Edge.{IsIn-kv, AllWithin, AllPast}
use btree_monstrousity.Range.Spread.{Spreads, spread_lem}
use btree_monstrousity.Range.Descent.{Parts, AllBefore, AllBeyond, search_tree_for_bifurcation_lem}
use btree_monstrousity.Range.Select.{select, select-before, select-beyond, select-inside}
use btree_monstrousity.Range.Next.{Encloses, IsRange}
use btree_monstrousity.Range.Between.{edge_front-between, leaf_content, side_IsEdge, agrees_self}

module _ {ℓ κ μ} {K : Type ℓ} {V : Type κ} (before : K → K → Type μ) (lower upper : K → Ordering)
    (cut_l : IsCut before lower) (cut_u : IsCut before upper) (from to : SearchBound)
    (root : Root K V) (sorted : IsSorted before (root_entries root)) where
  -- What the pairs on both sides of the two leaf edges make of the range.
  select_between :
      (front xs back : List (K × V))
      → root_entries root ≡ front ++ (xs ++ back)
      → AllBefore before lower upper cut_l cut_u from to root sorted front
      → AllPast before lower cut_l (flip from) root sorted (xs ++ back)
      → AllWithin before upper cut_u to root sorted (front ++ xs)
      → AllBeyond before lower upper cut_l cut_u from to root sorted back
      → select lower upper from to (root_entries root) ≡ xs
  select_between front xs back e f l u b =
      ap (select lower upper from to) e
      ∙ select-before lower upper from to front (xs ++ back) f
      ∙ select-inside lower upper from to xs back
          (All-append_left (λ x. IsPastUpper lower (flip from) x.0) xs back l)
          (All-append_right (λ x. IsWithinUpper upper to x.0) front xs u) b

  -- The pairs between two leaf edges, when the first leads to the pair `x` and the second from it.
  between :
      (front lead rest tail more back : List (K × V)) (x : K × V)
      (low_back high_front : List (K × V))
      → root_entries root ≡ front ++ low_back
      → root_entries root ≡ high_front ++ back
      → root_entries root ≡ lead ++ x ∷ tail
      → low_back ≡ rest ++ x ∷ tail
      → high_front ≡ lead ++ x ∷ more
      → (low_back ≡ (rest ++ x ∷ more) ++ back) × (high_front ≡ front ++ (rest ++ x ∷ more))
  between front lead rest tail more back x low_back high_front of_low of_high whole low high =
      let of_low' : root_entries root ≡ (front ++ rest) ++ x ∷ tail =
        of_low ∙ ap (λ a. front ++ a) low ∙ sym (append_assoc front rest (x ∷ tail)) in
      let of_high' : root_entries root ≡ lead ++ (x ∷ more ++ back) =
        of_high ∙ ap (λ a. a ++ back) high ∙ append_assoc lead (x ∷ more) back in
      let leads : front ++ rest ≡ lead =
        append_cancel_right (front ++ rest) lead (x ∷ tail) (sym of_low' ∙ whole) in
      let tails : x ∷ tail ≡ x ∷ more ++ back =
        append_cancel_left lead (x ∷ tail) (x ∷ more ++ back) (sym whole ∙ of_high') in
      (
        low ∙ ap (λ a. rest ++ a) tails ∙ sym (append_assoc rest (x ∷ more) back),
        high ∙ ap (λ a. a ++ x ∷ more) (sym leads) ∙ append_assoc front rest (x ∷ more),
      )

  abbrev PartsAtRoot : Type (ℓ ⊔ κ)
  PartsAtRoot =
      Parts before lower upper cut_l cut_u from to root sorted root.height root.node top from to

  abbrev SpreadsFrom : PartsAtRoot → Type (ℓ ⊔ κ)
  SpreadsFrom r =
      Spreads before lower upper cut_l cut_u from to root sorted r.height r.node r.lower_idx r.path
        r.node r.upper_idx r.path r.lower_bound r.upper_bound

  enclosed :
      (r : PartsAtRoot) (s : SpreadsFrom r)
      → let front = edge_front 0 s.low.leaf s.low.idx s.low.path in
        let back = edge_back 0 s.high.leaf s.high.idx s.high.path in
        (xs : List (K × V)) × (edge_back 0 s.low.leaf s.low.idx s.low.path ≡ xs ++ back)
        × (edge_front 0 s.high.leaf s.high.idx s.high.path ≡ front ++ xs)
  enclosed r s =
      let (x, get) =
        get_elem?_of_lt (pairs r.height r.node) r.lower_idx
          (omega (arith, r.apart, r.is_high.inside)) in
      let ok = r.is_low.is_in in
      let lead = entries_before r.height r.path ++ kv_before r.height r.node r.lower_idx in
      let tail = kv_after r.height r.node r.lower_idx ++ entries_after r.height r.path in
      let (mid, up_to) =
        edge_front-between (path_min r.height r.path) r.height r.node r.lower_idx r.upper_idx r.path
          x ok.filled r.apart get in
      let (low, high) =
        between (edge_front 0 s.low.leaf s.low.idx s.low.path) lead s.rest tail (mid ++ s.more)
          (edge_back 0 s.high.leaf s.high.idx s.high.path) x
          (edge_back 0 s.low.leaf s.low.idx s.low.path)
          (edge_front 0 s.high.leaf s.high.idx s.high.path)
          (leaf_content root s.low.leaf s.low.idx s.low.path s.is_low.is_in)
          (leaf_content root s.high.leaf s.high.idx s.high.path s.is_high.is_in)
          (IsIn-kv root r.height r.node r.lower_idx r.path x ok get)
          (s.behind ∙ ap (λ a. s.rest ++ a) (edge_back-kv r.height r.node r.lower_idx r.path x get))
          (s.ahead ∙ ap (λ a. a ++ s.more) up_to ∙ append_assoc lead (x ∷ mid) s.more) in
      (s.rest ++ x ∷ (mid ++ s.more), low, high)

  abbrev pub Found : SearchBound → SearchBound → Type (ℓ ⊔ κ)
  Found lb ub =
      (t : LeafRange K V) × (find_leaf_edges_spanning_range lower upper root lb ub ≡ some t)
      × IsRange t (select lower upper lb ub (root_entries root))

  Found-parts : IsFilledRoot K V root → PartsAtRoot → Found from to
  unfolding find_leaf_edges_spanning_range
  Found-parts filled r =
      let s =
        spread_lem before lower upper cut_l cut_u from to root sorted r.height r.node r.lower_idx
          r.path r.node r.upper_idx r.path r.lower_bound r.upper_bound r.is_low r.is_high in
      let front = edge_front 0 s.low.leaf s.low.idx s.low.path in
      let back = edge_back 0 s.high.leaf s.high.idx s.high.path in
      let (xs, low, high) = enclosed r s in
      let content =
        leaf_content root s.low.leaf s.low.idx s.low.path s.is_low.is_in
        ∙ ap (λ a. front ++ a) low in
      let chosen =
        select_between front xs back content s.is_low.front
          (subst (λ a. AllPast before lower cut_l (flip from) root sorted a) low s.is_low.back)
          (subst (λ a. AllWithin before upper cut_u to root sorted a) high s.is_high.front)
          s.is_high.back in
      let t : LeafRange K V = record { front = some s.low; back = some s.high } in
      let range : Encloses t xs = record {
        root = root;
        filled = filled;
        low = s.low;
        high = s.high;
        has_front = refl;
        has_back = refl;
        passed = front;
        passed_back = back;
        low_edge = side_IsEdge s.low s.is_low.is_in s.is_low.inside front (xs ++ back) refl low;
        high_edge =
            side_IsEdge s.high s.is_high.is_in s.is_high.inside (front ++ xs) back high refl;
      } in
      (t, rw (r.runs, s.runs) refl, subst (IsRange t) (sym chosen) (inr range))

  -- In a sorted, filled tree the search for a range returns the range of the selected pairs.
  pub find_leaf_edges_spanning_range_lem : IsFilledRoot K V root → Found from to
  unfolding find_leaf_edges_spanning_range
  find_leaf_edges_spanning_range_lem filled =
      elim (search_tree_for_bifurcation_lem before lower upper cut_l cut_u from to root sorted
        root.height root.node top from to
        (record { linked = tt; of_root = refl; filled = filled; on_path = tt })
        (agrees_self lower (flip from) (root_entries root))
        (agrees_self upper to (root_entries root)) tt tt) [
          | inl r ↦ Found-parts filled r
          | inr r ↦ (
            no_range,
            rw r.runs refl,
            inl (
              refl,
              ap (select lower upper from to) r.content
                  ∙ select-before lower upper from to r.front r.back r.before_range
                  ∙ select-beyond lower upper from to r.back r.beyond_range,
            ),
          )
        ]
