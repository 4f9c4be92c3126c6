-- ===== src/Range/Select.antt =====
-- The pairs of a list that a range is for: past its lower bound and within its upper.
use Prim.Native.Nat.Ordering.{lt, gt}
use btree_monstrousity.Prelude.{
  ◌≡◌, refl, ap, inl, inr, Bool, true, false, ◌&&◌, List, [], ◌∷◌, ◌++◌, Ordering, All,
  if◌then◌else◌,
}
use btree_monstrousity.Order.Cut.{Ordering-cases}
use btree_monstrousity.Search.{SearchBound}
use btree_monstrousity.Search.Divide.{IsWithinUpper, IsPastUpper}
use btree_monstrousity.Range.Narrow.{flip}

and_false : (a : Bool) → (a && false) ≡ false
and_false true = refl
and_false false = refl

module _ {ℓ} {K : Type ℓ} (comp : K → Ordering) where
  -- The tests that the two bounds of a range stand for.
  unfoldable pub past_lower : SearchBound → K → Bool
  past_lower SearchBound.included k = elim (comp k) [ gt ↦ false | _ ↦ true ]
  past_lower SearchBound.excluded k = elim (comp k) [ lt ↦ true | _ ↦ false ]
  past_lower SearchBound.all_included k = true
  past_lower SearchBound.all_excluded k = false

  unfoldable pub within_upper : SearchBound → K → Bool
  within_upper SearchBound.included k = elim (comp k) [ lt ↦ false | _ ↦ true ]
  within_upper SearchBound.excluded k = elim (comp k) [ gt ↦ true | _ ↦ false ]
  within_upper SearchBound.all_included k = true
  within_upper SearchBound.all_excluded k = false

  before_lower_false :
      (b : SearchBound) (k : K) → IsWithinUpper comp (flip b) k → past_lower b k ≡ false
  unfolding past_lower
  before_lower_false SearchBound.included k w = rw (w, past_lower) refl
  before_lower_false SearchBound.excluded k w = elim (Ordering-cases (comp k)) [
    | inl e ↦ absurd (w e)
    | inr (inl e) ↦ rw (e, past_lower) refl
    | inr (inr e) ↦ rw (e, past_lower) refl
  ]
  before_lower_false SearchBound.all_included k w = absurd w
  before_lower_false SearchBound.all_excluded k w = refl

  past_lower-true : (b : SearchBound) (k : K) → IsPastUpper comp (flip b) k → past_lower b k ≡ true
  unfolding past_lower
  past_lower-true SearchBound.included k q = elim (Ordering-cases (comp k)) [
    | inl e ↦ rw (e, past_lower) refl
    | inr (inl e) ↦ rw (e, past_lower) refl
    | inr (inr e) ↦ absurd (q e)
  ]
  past_lower-true SearchBound.excluded k q = rw (q, past_lower) refl
  past_lower-true SearchBound.all_included k q = refl
  past_lower-true SearchBound.all_excluded k q = absurd q

  within_upper-true : (b : SearchBound) (k : K) → IsWithinUpper comp b k → within_upper b k ≡ true
  unfolding within_upper
  within_upper-true SearchBound.included k w = elim (Ordering-cases (comp k)) [
    | inl e ↦ absurd (w e)
    | inr (inl e) ↦ rw (e, within_upper) refl
    | inr (inr e) ↦ rw (e, within_upper) refl
  ]
  within_upper-true SearchBound.excluded k w = rw (w, within_upper) refl
  within_upper-true SearchBound.all_included k w = refl
  within_upper-true SearchBound.all_excluded k w = absurd w

  past_upper_false : (b : SearchBound) (k : K) → IsPastUpper comp b k → within_upper b k ≡ false
  unfolding within_upper
  past_upper_false SearchBound.included k q = rw (q, within_upper) refl
  past_upper_false SearchBound.excluded k q = elim (Ordering-cases (comp k)) [
    | inl e ↦ rw (e, within_upper) refl
    | inr (inl e) ↦ rw (e, within_upper) refl
    | inr (inr e) ↦ absurd (q e)
  ]
  past_upper_false SearchBound.all_included k q = absurd q
  past_upper_false SearchBound.all_excluded k q = refl

module _ {ℓ κ} {K : Type ℓ} {V : Type κ} (lower upper : K → Ordering) (from to : SearchBound) where
  -- The pairs of a list past the lower bound and within the upper.
  unfoldable pub select : List (K × V) → List (K × V)
  select [] = []
  select (x ∷ xs) =
      let rest = select xs in
      if past_lower lower from x.0 && within_upper upper to x.0 then x ∷ rest else rest

  pub select-before :
      (xs ys : List (K × V))
      → All (λ x. IsWithinUpper lower (flip from) x.0) xs
      → select (xs ++ ys) ≡ select ys
  unfolding select
  select-before [] ys h = refl
  select-before (x ∷ xs) ys h = rw (before_lower_false lower from x.0 h.0) (select-before xs ys h.1)

  pub select-beyond : (xs : List (K × V)) → All (λ x. IsPastUpper upper to x.0) xs → select xs ≡ []
  unfolding select
  select-beyond [] h = refl
  select-beyond (x ∷ xs) h =
      rw (past_upper_false upper to x.0 h.0, and_false (past_lower lower from x.0))
        (select-beyond xs h.1)

  pub select-inside :
      (xs ys : List (K × V))
      → All (λ x. IsPastUpper lower (flip from) x.0) xs
      → All (λ x. IsWithinUpper upper to x.0) xs
      → All (λ x. IsPastUpper upper to x.0) ys
      → select (xs ++ ys) ≡ xs
  unfolding select
  select-inside [] ys l u b = select-beyond ys b
  select-inside (x ∷ xs) ys l u b =
      rw (past_lower-true lower from x.0 l.0, within_upper-true upper to x.0 u.0)
        (ap (◌∷◌ x) (select-inside xs ys l.1 u.1 b))
