-- ===== src/Order/Cut.antt =====
-- Sorted pairs under a comparator that cuts the order: what is in front of the needle and behind.
use Prim.Native.Nat.Ordering.{lt, eq, gt}
use btree_monstrousity.Prelude.{
  ◌≡◌, ◌≢◌, refl, ◌∙◌, List, [], ◌∷◌, ◌++◌, none, some, Ordering, arith, All, All-append_left,
  All-append_right, ◌⊎◌, inl, inr,
}
use btree_monstrousity.Order.{IsCut, IsSorted, IsFront, IsBack, find}

pub Ordering-cases : (o : Ordering) → (o ≡ lt) ⊎ (o ≡ eq) ⊎ (o ≡ gt)
Ordering-cases lt = inl refl
Ordering-cases eq = inr (inl refl)
Ordering-cases gt = inr (inr refl)

module _ {ℓ κ} {K : Type ℓ} {V : Type κ} (comp : K → Ordering) where
  pub IsFront-append :
      (xs ys : List (K × V)) → IsFront comp xs → IsFront comp ys → IsFront comp (xs ++ ys)
  IsFront-append [] ys h k = k
  IsFront-append (x ∷ xs) ys h k = (h.0, IsFront-append xs ys h.1 k)

  pub IsBack-append :
      (xs ys : List (K × V)) → IsBack comp xs → IsBack comp ys → IsBack comp (xs ++ ys)
  IsBack-append [] ys h k = k
  IsBack-append (x ∷ xs) ys h k = (h.0, IsBack-append xs ys h.1 k)

  -- Nothing is found behind the needle, and the search passes what is in front of it.
  pub find_back : (xs : List (K × V)) → IsBack comp xs → find comp xs ≡ none
  unfolding find
  find_back [] h = refl
  find_back (x ∷ xs) h = ground (arith, find_back xs)

  pub find_front : (xs ys : List (K × V)) → IsFront comp xs → find comp (xs ++ ys) ≡ find comp ys
  unfolding find
  find_front [] ys h = refl
  find_front (x ∷ xs) ys h = ground (arith, find_front xs ys)

  pub find_hit : (x : K × V) (ys : List (K × V)) → comp x.0 ≡ eq → find comp (x ∷ ys) ≡ some x
  unfolding find
  find_hit x ys e = ground arith

  pub find_here :
      (xs ys : List (K × V)) (x : K × V)
      → IsFront comp xs
      → comp x.0 ≡ eq
      → find comp (xs ++ x ∷ ys) ≡ some x
  find_here xs ys x h e = find_front xs (x ∷ ys) h ∙ find_hit x ys e

module _ {ℓ κ μ} {K : Type ℓ} {V : Type κ} (before : K → K → Type μ) where
  pub IsSorted-append_left :
      (xs ys : List (K × V)) → IsSorted before (xs ++ ys) → IsSorted before xs
  IsSorted-append_left [] ys h = tt
  IsSorted-append_left (x ∷ xs) ys h =
      (All-append_left (λ y. before x.0 y.0) xs ys h.0, IsSorted-append_left xs ys h.1)

  pub IsSorted-append_right :
      (xs ys : List (K × V)) → IsSorted before (xs ++ ys) → IsSorted before ys
  IsSorted-append_right [] ys h = h
  IsSorted-append_right (x ∷ xs) ys h = IsSorted-append_right xs ys h.1

module _ {ℓ κ μ} {K : Type ℓ} {V : Type κ} (before : K → K → Type μ) (comp : K → Ordering)
    (cut : IsCut before comp) where
  All-IsBack :
      (x : K × V) (xs : List (K × V))
      → comp x.0 ≢ gt
      → All (λ y. before x.0 y.0) xs
      → IsBack comp xs
  All-IsBack x [] n h = tt
  All-IsBack x (y ∷ xs) n h = (cut.lt_past x.0 y.0 h.0 n, All-IsBack x xs n h.1)

  -- Past a key that is not in front of the needle, all are behind it.
  pub IsBack-of_ne_gt :
      (x : K × V) (xs : List (K × V)) → IsSorted before (x ∷ xs) → comp x.0 ≢ gt → IsBack comp xs
  IsBack-of_ne_gt x xs s n = All-IsBack x xs n s.0

  -- Ahead of a key that is not behind the needle, all are in front of it.
  pub IsFront-of_ne_lt :
      (xs : List (K × V)) (y : K × V) (ys : List (K × V))
      → IsSorted before (xs ++ y ∷ ys)
      → comp y.0 ≢ lt
      → IsFront comp xs
  IsFront-of_ne_lt [] y ys s e = tt
  IsFront-of_ne_lt (x ∷ xs) y ys s e = (
    ground (arith, cut.lt_past x.0 y.0 (All-append_right (λ z. before x.0 z.0) xs (y ∷ ys) s.0).0),
    IsFront-of_ne_lt xs y ys s.1 e,
  )
