-- ===== src/Search/Divide.antt =====
-- search.rs, `SearchBound`: the pairs of a node on both sides of a bound.
use Prim.Native.Nat.Ordering.{lt, eq, gt}
use btree_monstrousity.Prelude.{
  ℕ, suc, ◌≡◌, ◌≢◌, sym, List, [], ◌∷◌, take, drop, get_elem?, some, Ordering, All, drop_split,
  take-suc, take-append-drop, All-append, subst,
}
use btree_monstrousity.Order.{IsCut, IsSorted, IsFront, IsBack}
use btree_monstrousity.Order.Cut.{IsBack-of_ne_gt, IsSorted-append_right}
use btree_monstrousity.Search.Descent.{Stops-IsBack}
use btree_monstrousity.Search.{SearchBound}
use btree_monstrousity.Search.Index.{Stops}

module _ {ℓ} {K : Type ℓ} (comp : K → Ordering) where
  -- A key in front of a lower bound, and one past it.
  abbrev pub IsBeforeLower : SearchBound → K → Type 0
  IsBeforeLower SearchBound.included k = comp k ≡ gt
  IsBeforeLower SearchBound.excluded k = comp k ≢ lt
  IsBeforeLower SearchBound.all_included k = ⊥
  IsBeforeLower SearchBound.all_excluded k = Unit

  abbrev pub IsPastLower : SearchBound → K → Type 0
  IsPastLower SearchBound.included k = comp k ≢ gt
  IsPastLower SearchBound.excluded k = comp k ≡ lt
  IsPastLower SearchBound.all_included k = Unit
  IsPastLower SearchBound.all_excluded k = ⊥

  -- A key within an upper bound, and one past it.
  abbrev pub IsWithinUpper : SearchBound → K → Type 0
  IsWithinUpper SearchBound.included k = comp k ≢ lt
  IsWithinUpper SearchBound.excluded k = comp k ≡ gt
  IsWithinUpper SearchBound.all_included k = Unit
  IsWithinUpper SearchBound.all_excluded k = ⊥

  abbrev pub IsPastUpper : SearchBound → K → Type 0
  IsPastUpper SearchBound.included k = comp k ≡ lt
  IsPastUpper SearchBound.excluded k = comp k ≢ gt
  IsPastUpper SearchBound.all_included k = ⊥
  IsPastUpper SearchBound.all_excluded k = Unit

module _ {ℓ κ} {K : Type ℓ} {V : Type κ} (comp : K → Ordering) where
  -- Pairs in front of the needle and behind it, seen from each bound.
  All-of_front {μ} :
      (P : K → Type μ)
      → ((k : K) → comp k ≡ gt → P k)
      → (xs : List (K × V)) → IsFront comp xs
      → All (λ x. P x.0) xs
  All-of_front P h [] f = tt
  All-of_front P h (x ∷ xs) f = (h x.0 f.0, All-of_front P h xs f.1)

  All-of_back {μ} :
      (P : K → Type μ)
      → ((k : K) → comp k ≡ lt → P k)
      → (xs : List (K × V)) → IsBack comp xs
      → All (λ x. P x.0) xs
  All-of_back P h [] f = tt
  All-of_back P h (x ∷ xs) f = (h x.0 f.0, All-of_back P h xs f.1)

pub All-any {ℓ κ} :
    {K : Type ℓ} {V : Type κ} (P : K → Type 0)
    → ((k : K) → P k)
    → (xs : List (K × V)) → All (λ x. P x.0) xs
All-any P h [] = tt
All-any P h (x ∷ xs) = (h x.0, All-any P h xs)

-- The first `m` pairs are on one side, and the others on the other.
abbrev pub SplitsInto {ℓ κ} :
    {K : Type ℓ} {V : Type κ} (P Q : K → Type 0) → List (K × V) → ℕ → Type 0
SplitsInto P Q xs m = All (λ x. P x.0) (take m xs) × All (λ x. Q x.0) (drop m xs)

module _ {ℓ κ μ} {K : Type ℓ} {V : Type κ} (before : K → K → Type μ) (comp : K → Ordering)
    (cut : IsCut before comp) (P Q : K → Type 0) (front : (k : K) → comp k ≡ gt → P k)
    (back : (k : K) → comp k ≡ lt → Q k) where
  IsSorted-drop : (xs : List (K × V)) (m : ℕ) → IsSorted before xs → IsSorted before (drop m xs)
  IsSorted-drop xs m s =
      IsSorted-append_right before (take m xs) (drop m xs)
        (subst (IsSorted before) (sym (take-append-drop m xs)) s)

  -- The edge where a search ends splits the pairs.
  pub splits_at_edge :
      (xs : List (K × V)) (m : ℕ)
      → IsSorted before xs
      → IsFront comp (take m xs)
      → Stops comp (drop m xs)
      → SplitsInto P Q xs m
  splits_at_edge xs m s f stop = (
    All-of_front comp P front (take m xs) f,
    All-of_back comp Q back (drop m xs)
        (Stops-IsBack before comp cut (drop m xs) (IsSorted-drop xs m s) stop),
  )

  -- An accepted pair is the first of those behind, or the last of those in front.
  behind_kv :
      (xs : List (K × V)) (m : ℕ) (x : K × V)
      → IsSorted before xs
      → get_elem? xs m ≡ some x
      → comp x.0 ≡ eq
      → All (λ y. Q y.0) (drop (suc m) xs)
  behind_kv xs m x s get same =
      let s' : IsSorted before (x ∷ drop (suc m) xs) =
        subst (IsSorted before) (drop_split xs m x get) (IsSorted-drop xs m s) in
      All-of_back comp Q back (drop (suc m) xs)
        (IsBack-of_ne_gt before comp cut x (drop (suc m) xs) s' (λ g. cc))

  pub splits_at_kv :
      (xs : List (K × V)) (m : ℕ) (x : K × V)
      → IsSorted before xs
      → get_elem? xs m ≡ some x
      → comp x.0 ≡ eq
      → IsFront comp (take m xs)
      → Q x.0
      → SplitsInto P Q xs m
  splits_at_kv xs m x s get same f q = (
    All-of_front comp P front (take m xs) f,
    subst (All (λ y. Q y.0)) (sym (drop_split xs m x get)) (q, behind_kv xs m x s get same),
  )

  pub splits_past_kv :
      (xs : List (K × V)) (m : ℕ) (x : K × V)
      → IsSorted before xs
      → get_elem? xs m ≡ some x
      → comp x.0 ≡ eq
      → IsFront comp (take m xs)
      → P x.0
      → SplitsInto P Q xs (suc m)
  splits_past_kv xs m x s get same f p = (
    subst (All (λ y. P y.0)) (sym (take-suc xs m x get)) (
        All-append (λ y. P y.0) (take m xs) (x ∷ []) (All-of_front comp P front (take m xs) f)
          (p, tt)),
    behind_kv xs m x s get same,
  )
