-- ===== src/Map/RoundTrip.antt =====
-- `get` after `insert` and after `remove`.
use Prim.Native.Nat.Ordering.{eq, gt}
use btree_monstrousity.Prelude.{
  ◌≡◌, ◌≢◌, refl, sym, ap, ◌∙◌, List, [], ◌∷◌, Option, none, some, Ordering, inl, inr, All,
}
use btree_monstrousity.Order.{IsTotalOrder, IsCut, IsSorted, find, upsert}
use btree_monstrousity.Order.Cut.{Ordering-cases}
use btree_monstrousity.Map.{BTreeMap, get, insert, remove}
use btree_monstrousity.Map.View.{map_entries, IsMap}
use btree_monstrousity.Map.Get.{value_of, get_lem}
use btree_monstrousity.Map.Upsert.{Behind, needle-IsCut, find-upsert_self}
use btree_monstrousity.Map.Insert.{insert_lem}
use btree_monstrousity.Map.Delete.{delete}
use btree_monstrousity.Map.Remove.{remove_lem}

module _ {ℓ κ μ} {K : Type ℓ} {V : Type κ} (before : K → K → Type μ) (comp : K → Ordering)
    (cut : IsCut before comp) where
  pub find_past :
      (a : K) (xs : List (K × V)) → comp a ≢ gt → All (λ y. before a y.0) xs → find comp xs ≡ none
  unfolding find
  find_past a [] n h = refl
  find_past a (x ∷ xs) n h = rw (cut.lt_past a x.0 h.0 n, find) (find_past a xs n h.1)

  find-delete_self : (xs : List (K × V)) → IsSorted before xs → find comp (delete comp xs) ≡ none
  unfolding delete find
  find-delete_self [] s = refl
  find-delete_self (x ∷ xs) s = elim (Ordering-cases (comp x.0)) [
    | inl e ↦ rw (e, delete, e, find) (find-delete_self xs s.1)
    | inr (inl e) ↦ rw (e, delete) (find_past x.0 xs (λ g. cc) s.0)
    | inr (inr e) ↦ rw (e, delete, e, find) (find-delete_self xs s.1)
  ]

  -- For a comparator that cuts the order of a filled, sorted and counted map, `remove` returns, and
  -- `get` with the same comparator finds nothing afterwards.
  pub get-remove :
      (m : BTreeMap K V)
      → IsMap before m
      → (old : Option V) × (m' : BTreeMap K V) × (remove m comp ≡ some (old, m'))
        × (get m' comp ≡ some none)
  get-remove m ok =
      let (m', run, ok', content) = remove_lem before comp cut m ok in
      (
        value_of (find comp (map_entries m)),
        m',
        run,
        get_lem before comp cut m' ok'
            ∙ ap (λ o. some (value_of o))
                (ap (find comp) content ∙ find-delete_self (map_entries m) ok.sorted),
      )

module _ {ℓ} {K : Type ℓ} (cmp : K → K → Ordering) (order : IsTotalOrder cmp) where
  eq_sym : (a c : K) → cmp a c ≡ eq → cmp c a ≡ eq
  eq_sym a c e = elim (Ordering-cases (cmp c a)) [
    | inl l ↦ let g = order.gt_of_lt c a l in cc
    | inr (inl same) ↦ same
    | inr (inr g) ↦ let l = order.lt_of_gt c a g in cc
  ]

  eq_trans : (a c d : K) → cmp a c ≡ eq → cmp a d ≡ eq → cmp c d ≡ eq
  eq_trans a c d e f = elim (Ordering-cases (cmp c d)) [
    | inl l ↦ let g = order.gt_of_eq d a c (eq_sym a d f) (order.gt_of_lt c d l) in cc
    | inr (inl same) ↦ same
    | inr (inr g) ↦ let h = order.gt_of_eq c a d (eq_sym a c e) g in cc
  ]

module _ {ℓ κ} {K : Type ℓ} {V : Type κ} (cmp : K → K → Ordering) (order : IsTotalOrder cmp) where
  module _ (key other : K) (value : V) (apart : cmp key other ≢ eq) where
    find-upsert_other :
        (xs : List (K × V))
        → find (λ k. cmp k other) (upsert (λ k. cmp k key) key value xs)
          ≡ find (λ k. cmp k other) xs
    unfolding upsert find
    find-upsert_other [] = elim (Ordering-cases (cmp key other)) [
      | inl e ↦ rw e refl
      | inr (inl e) ↦ absurd (apart e)
      | inr (inr e) ↦ rw e refl
    ]
    find-upsert_other (x ∷ xs) = elim (Ordering-cases (cmp x.0 key)) [
      | inl e ↦ elim (Ordering-cases (cmp key other)) [
        | inl f ↦ rw (e, upsert, f, find) refl
        | inr (inl f) ↦ absurd (apart f)
        | inr (inr f) ↦ rw (e, upsert, f, find) refl
      ]
      | inr (inl e) ↦ elim (Ordering-cases (cmp x.0 other)) [
        | inl f ↦ rw (e, upsert, f, find) refl
        | inr (inl f) ↦ absurd (apart (eq_trans cmp order x.0 key other e f))
        | inr (inr f) ↦ rw (e, upsert, f, find) refl
      ]
      | inr (inr e) ↦ elim (Ordering-cases (cmp x.0 other)) [
        | inl f ↦ rw (e, upsert, f, find) (find-upsert_other xs)
        | inr (inl f) ↦ rw (e, upsert, f, find) refl
        | inr (inr f) ↦ rw (e, upsert, f, find) (find-upsert_other xs)
      ]
    ]

    -- For a total order, a filled, sorted and counted map and two keys that do not compare equal,
    -- `get` at the other key finds the same after an `insert` as before.
    pub get-insert_other :
        (m : BTreeMap K V)
        → IsMap (Behind cmp) m
        → (old : Option V) × (m' : BTreeMap K V) × (insert m key value cmp ≡ some (old, m'))
          × (get m' (λ k. cmp k other) ≡ get m (λ k. cmp k other))
    get-insert_other m ok =
        let comp : K → Ordering = λ k. cmp k other in
        let cut = needle-IsCut cmp order other in
        let (m', run, ok', content) = insert_lem cmp order key value m ok in
        (
          value_of (find (λ k. cmp k key) (map_entries m)),
          m',
          run,
          get_lem (Behind cmp) comp cut m' ok'
              ∙ ap (λ o. some (value_of o))
                  (ap (find comp) content ∙ find-upsert_other (map_entries m))
              ∙ sym (get_lem (Behind cmp) comp cut m ok),
        )

  -- For a total order and a filled, sorted and counted map, `insert` returns a map in which `get` at
  -- the key finds the inserted value.
  pub get-insert_self :
      (key : K) (value : V) (m : BTreeMap K V)
      → IsMap (Behind cmp) m
      → (old : Option V) × (m' : BTreeMap K V) × (insert m key value cmp ≡ some (old, m'))
        × (get m' (λ k. cmp k key) ≡ some (some value))
  get-insert_self key value m ok =
      let comp : K → Ordering = λ k. cmp k key in
      let cut = needle-IsCut cmp order key in
      let (m', run, ok', content) = insert_lem cmp order key value m ok in
      let (x, found, same) =
        find-upsert_self cmp order key value (order.cmp_refl key) (map_entries m) ok.sorted in
      (
        value_of (find comp (map_entries m)),
        m',
        run,
        get_lem (Behind cmp) comp cut m' ok'
            ∙ ap (λ o. some (value_of o)) (ap (find comp) content ∙ found)
            ∙ ap (λ v. some (some v)) same,
      )
