-- ===== src/Range/Narrow.antt =====
-- The edge of a bound in one node, and the bound that it leaves for the child there. A lower bound
-- goes the way of the upper bound with the roles of its kinds swapped.
use Prim.Native.Nat.Ordering.{eq}
use btree_monstrousity.Prelude.{
  ℕ, zero, suc, ◌+◌, ◌-◌, ◌≤◌, ◌<◌, ◌≡◌, refl, sym, ap, ◌∙◌, ◌⊎◌, inl, inr, List, [], ◌∷◌, length,
  take, drop, get_elem?, some, Ordering, arith, All-get_elem?, length-drop, get_elem?_bound,
}
use btree_monstrousity.Order.{IsCut, IsSorted}
use btree_monstrousity.Search.{
  SearchBound, IndexResult, find_key_index, find_lower_bound_index, find_upper_bound_index,
}
use btree_monstrousity.Search.Index.{Located, find_key_index-Located}
use btree_monstrousity.Search.Bounds.{SplitsFrom, find_upper_bound_index-SplitsFrom}
use btree_monstrousity.Search.Divide.{IsWithinUpper, IsPastUpper}

-- The upper bound whose edge is that of a lower bound.
abbrev pub flip : SearchBound → SearchBound
flip SearchBound.included = SearchBound.excluded
flip SearchBound.excluded = SearchBound.included
flip SearchBound.all_included = SearchBound.all_excluded
flip SearchBound.all_excluded = SearchBound.all_included

abbrev pub flipped : ℕ × SearchBound → ℕ × SearchBound
flipped (i, bound) = (i, flip bound)

module _ {ℓ} {A : Type ℓ} where
  get_elem?-drop : (xs : List A) (m k : ℕ) → get_elem? (drop m xs) k ≡ get_elem? xs (m + k)
  get_elem?-drop xs zero k = ap (get_elem? xs) (omega arith)
  get_elem?-drop [] (suc m) k = refl
  get_elem?-drop (x ∷ xs) (suc m) k =
      let step : suc m + k ≡ suc (m + k) = omega arith in rw step (get_elem?-drop xs m k)

  get_elem?-take : (xs : List A) (m k : ℕ) → k < m → get_elem? (take m xs) k ≡ get_elem? xs k
  get_elem?-take [] zero k h = refl
  get_elem?-take [] (suc m) k h = refl
  get_elem?-take (x ∷ xs) zero k h = absurd (omega arith)
  get_elem?-take (x ∷ xs) (suc m) zero h = refl
  get_elem?-take (x ∷ xs) (suc m) (suc k) h = get_elem?-take xs m k (omega arith)

module _ {ℓ κ} {K : Type ℓ} {V : Type κ} (comp : K → Ordering) where
  pub find_lower_bound_index-flip :
      (kvs : List (K × V)) (bound : SearchBound)
      → find_lower_bound_index comp kvs bound
        ≡ flipped (find_upper_bound_index comp kvs (flip bound) 0)
  unfolding find_lower_bound_index find_upper_bound_index
  find_lower_bound_index-flip kvs SearchBound.included = go (find_key_index comp kvs 0) refl
    where
      go :
          (r : IndexResult)
          → find_key_index comp kvs 0 ≡ r
          → find_lower_bound_index comp kvs SearchBound.included
            ≡ flipped (find_upper_bound_index comp kvs SearchBound.excluded 0)
      go (IndexResult.kv j) e = rw (e, find_lower_bound_index, find_upper_bound_index) refl
      go (IndexResult.edge j) e = rw (e, find_lower_bound_index, find_upper_bound_index) refl
  find_lower_bound_index-flip kvs SearchBound.excluded = go (find_key_index comp kvs 0) refl
    where
      go :
          (r : IndexResult)
          → find_key_index comp kvs 0 ≡ r
          → find_lower_bound_index comp kvs SearchBound.excluded
            ≡ flipped (find_upper_bound_index comp kvs SearchBound.included 0)
      go (IndexResult.kv j) e = rw (e, find_lower_bound_index, find_upper_bound_index) refl
      go (IndexResult.edge j) e = rw (e, find_lower_bound_index, find_upper_bound_index) refl
  find_lower_bound_index-flip kvs SearchBound.all_included = refl
  find_lower_bound_index-flip kvs SearchBound.all_excluded = refl

  -- Why a child has another bound: the pair in front of it, or the one behind it, is the needle's.
  abbrev pub Narrows : List (K × V) → SearchBound → ℕ × SearchBound → Type (ℓ ⊔ κ)
  Narrows kvs bound (idx, child_bound) =
      (idx ≤ length kvs)
      × ((child_bound ≡ bound)
          ⊎ ((bound ≡ SearchBound.included)
              × (child_bound ≡ SearchBound.all_excluded)
              × (k : ℕ) × (x : K × V) × (idx ≡ suc k)
              × (get_elem? kvs k ≡ some x)
              × (comp x.0 ≡ eq))
          ⊎ ((bound ≡ SearchBound.excluded)
              × (child_bound ≡ SearchBound.all_included)
              × (x : K × V) × (get_elem? kvs idx ≡ some x)
              × (comp x.0 ≡ eq)))

  at_start :
      (kvs : List (K × V)) (start m j : ℕ) (x : K × V)
      → j ≡ start + m
      → get_elem? (drop start kvs) m ≡ some x
      → get_elem? kvs j ≡ some x
  at_start kvs start m j x at get = ap (get_elem? kvs) at ∙ sym (get_elem?-drop kvs start m) ∙ get

  pub find_upper_bound_index-Narrows :
      (kvs : List (K × V)) (bound : SearchBound) (start : ℕ)
      → start ≤ length kvs
      → Narrows kvs bound (find_upper_bound_index comp kvs bound start)
  unfolding find_upper_bound_index
  find_upper_bound_index-Narrows kvs SearchBound.included start le =
      go (find_key_index comp kvs start) refl (find_key_index-Located comp kvs start le)
    where
      go :
          (r : IndexResult)
          → find_key_index comp kvs start ≡ r
          → Located comp (drop start kvs) start r
          → Narrows kvs SearchBound.included
              (find_upper_bound_index comp kvs SearchBound.included start)
      go (IndexResult.kv j) e (m, x, at, get, same, f) =
          let here = at_start kvs start m j x at get in
          rw (e, find_upper_bound_index)
            (
              omega (arith, get_elem?_bound kvs j here),
              inr (inl (refl, refl, j, x, refl, here, same)),
            )
      go (IndexResult.edge j) e (m, at, bound, f, stop) =
          rw (e, find_upper_bound_index) (omega (arith, at, bound, length-drop start kvs), inl refl)
  find_upper_bound_index-Narrows kvs SearchBound.excluded start le =
      go (find_key_index comp kvs start) refl (find_key_index-Located comp kvs start le)
    where
      go :
          (r : IndexResult)
          → find_key_index comp kvs start ≡ r
          → Located comp (drop start kvs) start r
          → Narrows kvs SearchBound.excluded
              (find_upper_bound_index comp kvs SearchBound.excluded start)
      go (IndexResult.kv j) e (m, x, at, get, same, f) =
          let here = at_start kvs start m j x at get in
          rw (e, find_upper_bound_index)
            (omega (arith, get_elem?_bound kvs j here), inr (inr (refl, refl, x, here, same)))
      go (IndexResult.edge j) e (m, at, bound, f, stop) =
          rw (e, find_upper_bound_index) (omega (arith, at, bound, length-drop start kvs), inl refl)
  find_upper_bound_index-Narrows kvs SearchBound.all_included start le = (omega arith, inl refl)
  find_upper_bound_index-Narrows kvs SearchBound.all_excluded start le = (le, inl refl)

module _ {ℓ κ μ} {K : Type ℓ} {V : Type κ} (before : K → K → Type μ) (comp : K → Ordering)
    (cut : IsCut before comp) where
  -- The pairs on both sides of the edge of an upper bound, the first from the start index on.
  pub record IsBoundEdge (kvs : List (K × V)) (bound : SearchBound) (start idx : ℕ)
      : Type (ℓ ⊔ κ) where
    pub from_start : start ≤ idx
    pub inside : idx ≤ length kvs
    pub last :
        (k : ℕ) (x : K × V)
        → start ≤ k
        → k < idx
        → get_elem? kvs k ≡ some x
        → IsWithinUpper comp bound x.0
    pub next : (x : K × V) → get_elem? kvs idx ≡ some x → IsPastUpper comp bound x.0

  pub find_upper_bound_index-IsBoundEdge :
      (kvs : List (K × V)) (bound : SearchBound) (start : ℕ)
      → IsSorted before kvs
      → start ≤ length kvs
      → IsBoundEdge kvs bound start (find_upper_bound_index comp kvs bound start).0
  find_upper_bound_index-IsBoundEdge kvs bound start s le =
      let r = find_upper_bound_index comp kvs bound start in
      from r.0 (find_upper_bound_index-Narrows comp kvs bound start le).0
        (find_upper_bound_index-SplitsFrom before comp cut kvs bound start s le)
    where
      from :
          (idx : ℕ)
          → idx ≤ length kvs
          → SplitsFrom before comp cut bound kvs start idx
          → IsBoundEdge kvs bound start idx
      from idx inside (m, at, (within, past)) = record {
        from_start = omega (arith, at);
        inside = inside;
        last = λ k x ge lt get.
            let at_k : start + (k - start) ≡ k = omega (arith, ge) in
            let there =
              get_elem?-take (drop start kvs) m (k - start) (omega (arith, ge, lt, at))
              ∙ get_elem?-drop kvs start (k - start)
              ∙ ap (get_elem? kvs) at_k
              ∙ get in
            All-get_elem? (λ y. IsWithinUpper comp bound y.0) (take m (drop start kvs)) (k - start)
              within there;
        next = λ x get.
            let at_m : start + (m + 0) ≡ idx = omega (arith, at) in
            let there =
              get_elem?-drop (drop start kvs) m 0
              ∙ get_elem?-drop kvs start (m + 0)
              ∙ ap (get_elem? kvs) at_m
              ∙ get in
            All-get_elem? (λ y. IsPastUpper comp bound y.0) (drop m (drop start kvs)) 0 past there;
      }
