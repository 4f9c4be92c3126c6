-- ===== src/Search/Bounds.antt =====
-- The bounds of a range in one node.
use btree_monstrousity.Prelude.{
  ℕ, suc, ◌+◌, ◌≤◌, ◌≡◌, refl, sym, List, length, take, drop, Ordering, arith, All, drop_beyond,
  take-append-drop, length-drop, subst,
}
use btree_monstrousity.Order.{IsCut, IsSorted}
use btree_monstrousity.Order.Cut.{IsSorted-append_right}
use btree_monstrousity.Search.{SearchBound, IndexResult, find_key_index, find_upper_bound_index}
use btree_monstrousity.Search.Index.{Located, find_key_index-Located}
use btree_monstrousity.Search.Divide.{
  IsWithinUpper, IsPastUpper, All-any, SplitsInto, splits_at_edge, splits_at_kv, splits_past_kv,
}

module _ {ℓ κ μ} {K : Type ℓ} {V : Type κ} (before : K → K → Type μ) (comp : K → Ordering)
    (cut : IsCut before comp) where
  -- The edge `idx` splits the pairs from an index on.
  abbrev pub SplitsFrom : SearchBound → List (K × V) → ℕ → ℕ → Type 0
  SplitsFrom bound kvs start idx =
      (m : ℕ) × (idx ≡ start + m)
      × SplitsInto (IsWithinUpper comp bound) (IsPastUpper comp bound) (drop start kvs) m

  pub find_upper_bound_index-SplitsFrom :
      (kvs : List (K × V)) (bound : SearchBound) (start : ℕ)
      → IsSorted before kvs
      → start ≤ length kvs
      → SplitsFrom bound kvs start (find_upper_bound_index comp kvs bound start).0
  unfolding find_upper_bound_index
  find_upper_bound_index-SplitsFrom kvs SearchBound.included start s le =
      go (find_key_index comp kvs start) refl (find_key_index-Located comp kvs start le)
    where
      P : K → Type 0
      P = IsWithinUpper comp SearchBound.included

      Q : K → Type 0
      Q = IsPastUpper comp SearchBound.included

      sorted : IsSorted before (drop start kvs)
      sorted =
          IsSorted-append_right before (take start kvs) (drop start kvs)
            (subst (IsSorted before) (sym (take-append-drop start kvs)) s)

      go :
          (r : IndexResult)
          → find_key_index comp kvs start ≡ r
          → Located comp (drop start kvs) start r
          → SplitsFrom SearchBound.included kvs start
              (find_upper_bound_index comp kvs SearchBound.included start).0
      go (IndexResult.kv j) e (m, x, at, get, same, f) =
          rw (e, find_upper_bound_index)
            (
              suc m,
              omega (arith, at),
              splits_past_kv before comp cut P Q (λ k g l. cc) (λ k l. l) (drop start kvs) m x
                  sorted get same f (λ g. cc),
            )
      go (IndexResult.edge j) e (m, at, bound, f, stop) =
          rw (e, find_upper_bound_index)
            (
              m,
              at,
              splits_at_edge before comp cut P Q (λ k g l. cc) (λ k l. l) (drop start kvs) m sorted
                  f stop,
            )
  find_upper_bound_index-SplitsFrom kvs SearchBound.excluded start s le =
      go (find_key_index comp kvs start) refl (find_key_index-Located comp kvs start le)
    where
      P : K → Type 0
      P = IsWithinUpper comp SearchBound.excluded

      Q : K → Type 0
      Q = IsPastUpper comp SearchBound.excluded

      sorted : IsSorted before (drop start kvs)
      sorted =
          IsSorted-append_right before (take start kvs) (drop start kvs)
            (subst (IsSorted before) (sym (take-append-drop start kvs)) s)

      go :
          (r : IndexResult)
          → find_key_index comp kvs start ≡ r
          → Located comp (drop start kvs) start r
          → SplitsFrom SearchBound.excluded kvs start
              (find_upper_bound_index comp kvs SearchBound.excluded start).0
      go (IndexResult.kv j) e (m, x, at, get, same, f) =
          rw (e, find_upper_bound_index)
            (
              m,
              at,
              splits_at_kv before comp cut P Q (λ k g. g) (λ k l g. cc) (drop start kvs) m x sorted
                  get same f (λ g. cc),
            )
      go (IndexResult.edge j) e (m, at, bound, f, stop) =
          rw (e, find_upper_bound_index)
            (
              m,
              at,
              splits_at_edge before comp cut P Q (λ k g. g) (λ k l g. cc) (drop start kvs) m sorted
                  f stop,
            )
  find_upper_bound_index-SplitsFrom kvs SearchBound.all_included start s le =
      let n = length (drop start kvs) in
      (
        n,
        omega (arith, length-drop start kvs),
        (
          All-any (λ k. Unit) (λ k. tt) (take n (drop start kvs)),
          subst (All (λ y. ⊥)) (sym (drop_beyond (drop start kvs) n (omega arith))) tt,
        ),
      )
  find_upper_bound_index-SplitsFrom kvs SearchBound.all_excluded start s le =
      (0, omega arith, (tt, All-any (λ k. Unit) (λ k. tt) (drop start kvs)))
