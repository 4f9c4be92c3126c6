-- ===== src/Range/Reversed.antt =====
-- A range whose start is behind its end.
use Prim.Native.Nat.Ordering.{lt, eq, gt}
use btree_monstrousity.Prelude.{
  ◌≡◌, ◌≢◌, refl, ap, subst, inl, inr, Bool, true, false, ◌&&◌, List, [], ◌∷◌, none, some, Ordering,
}
use btree_monstrousity.Order.{IsTotalOrder}
use btree_monstrousity.Order.Cut.{Ordering-cases}
use btree_monstrousity.Map.{BTreeMap}
use btree_monstrousity.Map.View.{map_entries, IsMap}
use btree_monstrousity.Map.Upsert.{Behind, needle-IsCut}
use btree_monstrousity.Range.{LeafRange, SearchBoundCustom, from_custom, range, next_checked}
use btree_monstrousity.Range.Next.{next_checked-nil, IsRange}
use btree_monstrousity.Range.Select.{select, past_lower, within_upper}
use btree_monstrousity.Range.Script.{range-IsRange}

module _ {ℓ} {K : Type ℓ} (comp : K → Ordering) (k : K) where
  lower_false :
      (lb : SearchBoundCustom)
      → lb ≢ SearchBoundCustom.all_included
      → comp k ≡ gt
      → past_lower comp (from_custom lb) k ≡ false
  unfolding past_lower from_custom
  lower_false SearchBoundCustom.included n e = rw (e, past_lower) refl
  lower_false SearchBoundCustom.excluded n e = rw (e, past_lower) refl
  lower_false SearchBoundCustom.all_included n e = absurd (n refl)
  lower_false SearchBoundCustom.all_excluded n e = refl

  upper_false :
      (ub : SearchBoundCustom)
      → ub ≢ SearchBoundCustom.all_included
      → comp k ≡ lt
      → within_upper comp (from_custom ub) k ≡ false
  unfolding within_upper from_custom
  upper_false SearchBoundCustom.included n e = rw (e, within_upper) refl
  upper_false SearchBoundCustom.excluded n e = rw (e, within_upper) refl
  upper_false SearchBoundCustom.all_included n e = absurd (n refl)
  upper_false SearchBoundCustom.all_excluded n e = refl

and_false : (a b : Bool) → b ≡ false → (a && b) ≡ false
and_false true b e = e
and_false false b e = refl

module _ {ℓ} {K : Type ℓ} (cmp : K → K → Ordering) (order : IsTotalOrder cmp) (start end : K)
    (reversed : cmp end start ≡ gt) where
  eq_sym : (a c : K) → cmp a c ≡ eq → cmp c a ≡ eq
  eq_sym a c e = elim (Ordering-cases (cmp c a)) [
    | inl l ↦ absurd (let t = order.gt_of_lt c a l in cc)
    | inr (inl s) ↦ s
    | inr (inr g) ↦ absurd (let t = order.lt_of_gt c a g in cc)
  ]

  -- A key that is not past the end is in front of the start.
  in_front : (k : K) → cmp k end ≢ lt → cmp k start ≡ gt
  in_front k n = elim (Ordering-cases (cmp k end)) [
    | inl l ↦ absurd (n l)
    | inr (inl e) ↦ order.gt_of_eq end k start (eq_sym k end e) reversed
    | inr (inr g) ↦ order.gt_trans k end start g reversed
  ]

  no_key :
      (lb ub : SearchBoundCustom) (k : K)
      → lb ≢ SearchBoundCustom.all_included
      → ub ≢ SearchBoundCustom.all_included
      → (past_lower (λ c. cmp c start) (from_custom lb) k
          && within_upper (λ c. cmp c end) (from_custom ub) k)
        ≡ false
  no_key lb ub k nl nu =
      let low = past_lower (λ c. cmp c start) (from_custom lb) k in
      let high = within_upper (λ c. cmp c end) (from_custom ub) k in
      elim (Ordering-cases (cmp k end)) [
        | inl l ↦ and_false low high (upper_false (λ c. cmp c end) k ub nu l)
        | inr other ↦
            ap (λ x. x && high)
              (lower_false (λ c. cmp c start) k lb nl
                (in_front k (elim other [ inl e ↦ λ l. cc | inr g ↦ λ l. cc ])))
      ]

  select-reversed {κ} :
      {V : Type κ} (lb ub : SearchBoundCustom) (xs : List (K × V))
      → lb ≢ SearchBoundCustom.all_included
      → ub ≢ SearchBoundCustom.all_included
      → select (λ c. cmp c start) (λ c. cmp c end) (from_custom lb) (from_custom ub) xs ≡ []
  unfolding select
  select-reversed lb ub [] nl nu = refl
  select-reversed lb ub (x ∷ xs) nl nu =
      rw (no_key lb ub x.0 nl nu) (select-reversed lb ub xs nl nu)

module _ {ℓ κ} {K : Type ℓ} {V : Type κ} where
  -- For a total order, a start key that stands behind the end key in that order, bounds that are not
  -- unconditionally inclusive, and a filled, sorted and counted map, `range` does not panic: it
  -- returns a range whose first call returns no pair.
  pub range-reversed :
      (cmp : K → K → Ordering) (start end : K) (lb ub : SearchBoundCustom) (m : BTreeMap K V)
      → IsTotalOrder cmp
      → cmp end start ≡ gt
      → lb ≢ SearchBoundCustom.all_included
      → ub ≢ SearchBoundCustom.all_included
      → IsMap (Behind cmp) m
      → (r : LeafRange K V) × (range (λ k. cmp k start) (λ k. cmp k end) m lb ub ≡ some r)
        × (next_checked r ≡ some (none, r))
  range-reversed cmp start end lb ub m order reversed nl nu ok =
      let (r, run, is) =
        range-IsRange (Behind cmp) (λ k. cmp k start) (λ k. cmp k end)
          (needle-IsCut cmp order start) (needle-IsCut cmp order end) m lb ub ok in
      (
        r,
        run,
        next_checked-nil r (
            subst (IsRange r)
              (select-reversed cmp order start end reversed lb ub (map_entries m) nl nu) is),
      )
