-- ===== src/Map/Upsert.antt =====
-- The list function `upsert` under a total order: order, length, and lookups afterwards.
use Prim.Native.Nat.Ordering.{lt, eq, gt}
use btree_monstrousity.Prelude.{◌≡◌, ◌≢◌, refl, List, [], ◌∷◌, some, Ordering, inl, inr, All, ◌⊎◌}
use btree_monstrousity.Order.{IsTotalOrder, IsCut, IsSorted, find, upsert}
use btree_monstrousity.Order.Cut.{Ordering-cases}

-- The order in which a tree built with the comparator keeps its keys.
abbrev pub Behind {ℓ} : {K : Type ℓ} → (K → K → Ordering) → K → K → Type 0
Behind cmp a c = cmp a c ≡ gt

module _ {ℓ} {K : Type ℓ} (cmp : K → K → Ordering) (order : IsTotalOrder cmp) where
  -- A stored key compared with the needle cuts the order.
  pub needle-IsCut : (key : K) → IsCut (Behind cmp) (λ k. cmp k key)
  needle-IsCut key = record { lt_past = λ a c h n. go a c h n (Ordering-cases (cmp a key)) }
    where
      go :
          (a c : K)
          → cmp a c ≡ gt
          → cmp a key ≢ gt
          → (cmp a key ≡ lt) ⊎ (cmp a key ≡ eq) ⊎ (cmp a key ≡ gt)
          → cmp c key ≡ lt
      go a c h n (inl e) = order.lt_of_gt key c (order.gt_trans key a c (order.gt_of_lt a key e) h)
      go a c h n (inr (inl e)) = order.lt_of_gt key c (order.gt_of_eq a key c e h)
      go a c h n (inr (inr e)) = absurd (n e)

module _ {ℓ κ} {K : Type ℓ} {V : Type κ} (comp : K → Ordering) (key : K) (value : V) where
  All-upsert {μ} :
      (P : K → Type μ) (xs : List (K × V))
      → P key
      → All (λ x. P x.0) xs
      → All (λ x. P x.0) (upsert comp key value xs)
  unfolding upsert
  All-upsert P [] k h = (k, tt)
  All-upsert P (x ∷ xs) k h = elim (Ordering-cases (comp x.0)) [
    | inl e ↦ rw (e, upsert) (k, h)
    | inr (inl e) ↦ rw (e, upsert) h
    | inr (inr e) ↦ rw (e, upsert) (h.0, All-upsert P xs k h.1)
  ]

module _ {ℓ κ} {K : Type ℓ} {V : Type κ} (cmp : K → K → Ordering) (order : IsTotalOrder cmp)
    (key : K) (value : V) where
  -- Past a first pair that is behind the needle, all are behind it.
  All-behind :
      (a : K) (xs : List (K × V))
      → cmp key a ≡ gt
      → All (λ y. cmp a y.0 ≡ gt) xs
      → All (λ y. cmp key y.0 ≡ gt) xs
  All-behind a [] h s = tt
  All-behind a (y ∷ ys) h s = (order.gt_trans key a y.0 h s.0, All-behind a ys h s.1)

  -- `upsert` keeps a sorted list sorted.
  pub upsert-IsSorted :
      (xs : List (K × V))
      → IsSorted (Behind cmp) xs
      → IsSorted (Behind cmp) (upsert (λ k. cmp k key) key value xs)
  unfolding upsert
  upsert-IsSorted [] s = (tt, tt)
  upsert-IsSorted (x ∷ xs) s = elim (Ordering-cases (cmp x.0 key)) [
    | inl e ↦
        let first = order.gt_of_lt x.0 key e in
        rw (e, upsert) ((first, All-behind x.0 xs first s.0), s)
    | inr (inl e) ↦ rw (e, upsert) s
    | inr (inr e) ↦
        rw (e, upsert)
          (
            All-upsert (λ k. cmp k key) key value (λ k. cmp x.0 k ≡ gt) xs e s.0,
            upsert-IsSorted xs s.1,
          )
  ]

  pub find-upsert_self :
      cmp key key ≡ eq
      → (xs : List (K × V)) → IsSorted (Behind cmp) xs
      → (x : K × V) × (find (λ k. cmp k key) (upsert (λ k. cmp k key) key value xs) ≡ some x)
        × (x.1 ≡ value)
  unfolding upsert find
  find-upsert_self same [] s = ((key, value), rw same refl, refl)
  find-upsert_self same (x ∷ xs) s = elim (Ordering-cases (cmp x.0 key)) [
    | inl e ↦ ((key, value), rw (e, upsert, same, find) refl, refl)
    | inr (inl e) ↦ ((x.0, value), rw (e, upsert, e, find) refl, refl)
    | inr (inr e) ↦
        let (y, found, v) = find-upsert_self same xs s.1 in (y, rw (e, upsert, e, find) found, v)
  ]
