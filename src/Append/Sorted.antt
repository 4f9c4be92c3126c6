-- ===== src/Append/Sorted.antt =====
-- The contract of the comparator of `append` in map.rs, and the order of merged lists.
use btree_monstrousity.Prelude.{◌≡◌, List, [], ◌∷◌, Ordering, All}
use Prim.Native.Nat.Ordering.{lt, eq, gt}
use btree_monstrousity.Order.{IsSorted}
use btree_monstrousity.Append.Merge.{merge, merge_cases}

-- The contract of the comparator of `append`: it tells which key is before the other.
pub record IsPairOrder {ℓ κ μ} {K : Type ℓ} {V : Type κ} (before : K → K → Type μ)
    (cmp : K × V → K × V → Ordering) : Type (ℓ ⊔ κ ⊔ μ) where
  pub trans : (a c d : K) → before a c → before c d → before a d
  pub of_lt : (x y : K × V) → cmp x y ≡ lt → before x.0 y.0
  pub of_gt : (x y : K × V) → cmp x y ≡ gt → before y.0 x.0
  pub eq_before : (x y : K × V) (k : K) → cmp x y ≡ eq → before x.0 k → before y.0 k

module _ {ℓ} {A : Type ℓ} where
  All-merge {κ} :
      (P : A → Type κ) (cmp : A → A → Ordering) (xs ys : List A)
      → All P xs
      → All P ys
      → All P (merge cmp xs ys)
  unfolding merge
  All-merge P cmp [] ys ps qs = qs
  All-merge P cmp (x ∷ xs) [] ps qs = ps
  All-merge P cmp (x ∷ xs) (y ∷ ys) (p, ps) (q, qs) =
      merge_cases cmp x xs y ys (All P) (λ e. (p, All-merge P cmp xs (y ∷ ys) ps (q, qs)))
        (λ e. (q, All-merge P cmp (x ∷ xs) ys (p, ps) qs)) (λ e. (q, All-merge P cmp xs ys ps qs))

module _ {ℓ κ μ} {K : Type ℓ} {V : Type κ} (before : K → K → Type μ)
    (cmp : K × V → K × V → Ordering) (order : IsPairOrder before cmp) where
  pub behind :
      (a c : K) (xs : List (K × V))
      → before a c
      → All (λ y. before c y.0) xs
      → All (λ y. before a y.0) xs
  behind a c [] b ps = tt
  behind a c (x ∷ xs) b (p, ps) = (order.trans a c x.0 b p, behind a c xs b ps)

  beside :
      (x y : K × V) (xs : List (K × V))
      → cmp x y ≡ eq
      → All (λ z. before x.0 z.0) xs
      → All (λ z. before y.0 z.0) xs
  beside x y [] e ps = tt
  beside x y (z ∷ xs) e (p, ps) = (order.eq_before x y z.0 e p, beside x y xs e ps)

  -- Sorted lists merge to a sorted list.
  pub merge-IsSorted :
      (xs ys : List (K × V))
      → IsSorted before xs
      → IsSorted before ys
      → IsSorted before (merge cmp xs ys)
  unfolding merge
  merge-IsSorted [] ys sx sy = sy
  merge-IsSorted (x ∷ xs) [] sx sy = sx
  merge-IsSorted (x ∷ xs) (y ∷ ys) (px, sx) (py, sy) =
      merge_cases cmp x xs y ys (IsSorted before)
        (λ e.
          let b = order.of_lt x y e in
          (
            All-merge (λ z. before x.0 z.0) cmp xs (y ∷ ys) px (b, behind x.0 y.0 ys b py),
            merge-IsSorted xs (y ∷ ys) sx (py, sy),
          ))
        (λ e.
          let b = order.of_gt x y e in
          (
            All-merge (λ z. before y.0 z.0) cmp (x ∷ xs) ys (b, behind y.0 x.0 xs b px) py,
            merge-IsSorted (x ∷ xs) ys (px, sx) sy,
          ))
        (λ e. (
          All-merge (λ z. before y.0 z.0) cmp xs ys (beside x y xs e px) py,
          merge-IsSorted xs ys sx sy,
        ))
