-- ===== src/Order.antt =====
-- The comparators that the callers pass in. `comp k` says where the needle lies from the key `k`:
-- `gt` is behind `k`, as in `search.rs`.
pub mod Cut
use Prim.Native.Nat.Ordering.{lt, eq, gt}
use btree_monstrousity.Prelude.{
  Option, none, some, arith, ◌++◌, refl, All-append_right, ◌≡◌, ◌≢◌, List, [], ◌∷◌, Ordering, All,
}

-- The documented contract of a total order on keys, read as a comparator of two keys.
pub record IsTotalOrder {ℓ} {K : Type ℓ} (cmp : K → K → Ordering) : Type ℓ where
  pub cmp_refl : (a : K) → cmp a a ≡ eq
  pub lt_of_gt : (a c : K) → cmp a c ≡ gt → cmp c a ≡ lt
  pub gt_of_lt : (a c : K) → cmp a c ≡ lt → cmp c a ≡ gt
  pub gt_trans : (a c d : K) → cmp a c ≡ gt → cmp c d ≡ gt → cmp a d ≡ gt
  pub gt_of_eq : (a c d : K) → cmp a c ≡ eq → cmp a d ≡ gt → cmp c d ≡ gt

-- A search comparator cuts the order `before`: past a key that is not before the needle, all are
-- behind it.
pub record IsCut {ℓ μ} {K : Type ℓ} (before : K → K → Type μ) (comp : K → Ordering)
    : Type (ℓ ⊔ μ) where
  pub lt_past : (a c : K) → before a c → comp a ≢ gt → comp c ≡ lt

module _ {ℓ κ μ} {K : Type ℓ} {V : Type κ} (before : K → K → Type μ) where
  -- The keys ascend strictly.
  abbrev pub IsSorted : List (K × V) → Type (ℓ ⊔ κ ⊔ μ)
  IsSorted [] = Unit
  IsSorted (x ∷ xs) = All (λ y. before x.0 y.0) xs × IsSorted xs

module _ {ℓ κ} {K : Type ℓ} {V : Type κ} (comp : K → Ordering) where
  -- The needle is behind all of these pairs; it is in front of all of them.
  abbrev pub IsFront : List (K × V) → Type (ℓ ⊔ κ)
  IsFront [] = Unit
  IsFront (x ∷ xs) = (comp x.0 ≡ gt) × IsFront xs

  abbrev pub IsBack : List (K × V) → Type (ℓ ⊔ κ)
  IsBack [] = Unit
  IsBack (x ∷ xs) = (comp x.0 ≡ lt) × IsBack xs

  -- The first pair, of all, whose key the comparator accepts.
  unfoldable pub find : List (K × V) → Option (K × V)
  find [] = none
  find (x ∷ xs) = let rest = find xs in elim (comp x.0) [ eq ↦ some x | _ ↦ rest ]

module _ {ℓ κ} {K : Type ℓ} {V : Type κ} where
  -- Insertion in a sorted list: a key that compares equal keeps its place and its first spelling.
  unfoldable pub upsert : (K → Ordering) → K → V → List (K × V) → List (K × V)
  upsert comp key value [] = (key, value) ∷ []
  upsert comp key value (x ∷ xs) =
      let rest = upsert comp key value xs in
      elim (comp x.0) [ gt ↦ x ∷ rest | eq ↦ (x.0, value) ∷ xs | lt ↦ (key, value) ∷ x ∷ xs ]
