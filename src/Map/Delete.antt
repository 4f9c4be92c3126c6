-- ===== src/Map/Delete.antt =====
-- The list function `delete`: the abstract view of a removal.
use Prim.Native.Nat.Ordering.{lt, eq, gt}
use btree_monstrousity.Prelude.{
  ◌≡◌, refl, ap, List, [], ◌∷◌, ◌++◌, none, Ordering, arith, inl, inr, All-append, All-append_left,
  All-append_right,
}
use btree_monstrousity.Order.{IsSorted, IsFront, find}
use btree_monstrousity.Order.Cut.{Ordering-cases}

module _ {ℓ κ} {K : Type ℓ} {V : Type κ} (comp : K → Ordering) where
  -- The list without the first pair whose key the comparator accepts.
  unfoldable pub delete : List (K × V) → List (K × V)
  delete [] = []
  delete (x ∷ xs) = let rest = delete xs in elim (comp x.0) [ eq ↦ xs | _ ↦ x ∷ rest ]

  pub delete_front : (xs ys : List (K × V)) → IsFront comp xs → delete (xs ++ ys) ≡ xs ++ delete ys
  unfolding delete
  delete_front [] ys h = refl
  delete_front (x ∷ xs) ys h = rw (h.0, delete) (ap (◌∷◌ x) (delete_front xs ys h.1))

  pub delete_here : (x : K × V) (ys : List (K × V)) → comp x.0 ≡ eq → delete (x ∷ ys) ≡ ys
  unfolding delete
  delete_here x ys e = rw (e, delete) refl

  -- A key that is not there.
  pub delete_absent : (xs : List (K × V)) → find comp xs ≡ none → delete xs ≡ xs
  unfolding delete find
  delete_absent [] e = refl
  delete_absent (x ∷ xs) e = elim (Ordering-cases (comp x.0)) [
    | inl h ↦ rw (h, delete) (ap (◌∷◌ x) (delete_absent xs (skipped h)))
    | inr (inl h) ↦ absurd (hit h)
    | inr (inr h) ↦ rw (h, delete) (ap (◌∷◌ x) (delete_absent xs (skipped_gt h)))
  ]
    where
      skipped : comp x.0 ≡ lt → find comp xs ≡ none
      skipped h = ground arith

      skipped_gt : comp x.0 ≡ gt → find comp xs ≡ none
      skipped_gt h = ground arith

      hit : comp x.0 ≡ eq → ⊥
      hit h = ground arith

module _ {ℓ κ μ} {K : Type ℓ} {V : Type κ} (before : K → K → Type μ) where
  pub IsSorted-remove :
      (xs : List (K × V)) (x : K × V) (ys : List (K × V))
      → IsSorted before (xs ++ x ∷ ys)
      → IsSorted before (xs ++ ys)
  IsSorted-remove [] x ys s = s.1
  IsSorted-remove (z ∷ xs) x ys s =
      let P : K × V → Type μ = λ y. before z.0 y.0 in
      (
        All-append P xs ys (All-append_left P xs (x ∷ ys) s.0)
            (All-append_right P xs (x ∷ ys) s.0).1,
        IsSorted-remove xs x ys s.1,
      )
