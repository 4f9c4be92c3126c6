-- ===== src/Append/Lookup.antt =====
-- `get` of map.rs after `append`.
use Prim.Native.Nat.Ordering.{lt, eq, gt}
use btree_monstrousity.Prelude.{
  ◌≡◌, ◌≢◌, refl, sym, ap, ap₂, ◌∙◌, ◌⊎◌, inl, inr, List, [], ◌∷◌, Option, none, some, Ordering,
  arith,
}
use btree_monstrousity.Defined.{◌>>=◌}
use btree_monstrousity.Order.{IsSorted, IsCut, find}
use btree_monstrousity.Order.Cut.{find_hit}
use btree_monstrousity.Map.{BTreeMap, get}
use btree_monstrousity.Map.View.{map_entries, IsMap}
use btree_monstrousity.Map.Get.{get_lem, value_of}
use btree_monstrousity.Map.RoundTrip.{find_past}
use btree_monstrousity.Append.{append}
use btree_monstrousity.Append.Merge.{merge, merge_cases}
use btree_monstrousity.Append.Sorted.{IsPairOrder, behind}
use btree_monstrousity.Append.Whole.{append_lem}

-- The first option, or the second where there is none.
abbrev pub or_else {ℓ} : {A : Type ℓ} → Option A → Option A → Option A
or_else (some x) y = some x
or_else none y = y

or_else-none {ℓ} : {A : Type ℓ} (x : Option A) → or_else x none ≡ x
or_else-none none = refl
or_else-none (some x) = refl

not_both : (o : Ordering) → o ≡ eq → o ≢ gt
not_both o e g = ground (arith, e, g)

value_of-or_else {ℓ κ} :
    {K : Type ℓ} {V : Type κ} (a c : Option (K × V))
    → value_of (or_else a c) ≡ or_else (value_of a) (value_of c)
value_of-or_else none c = refl
value_of-or_else (some x) c = refl

module _ {ℓ κ} {K : Type ℓ} {V : Type κ} (comp : K → Ordering) where
  -- The first key is the needle, or the search goes on.
  find_cases :
      (x : K × V) → (comp x.0 ≡ eq) ⊎ ((zs : List (K × V)) → find comp (x ∷ zs) ≡ find comp zs)
  unfolding find
  find_cases x = go (comp x.0) refl
    where
      go :
          (o : Ordering)
          → comp x.0 ≡ o
          → (comp x.0 ≡ eq) ⊎ ((zs : List (K × V)) → find comp (x ∷ zs) ≡ find comp zs)
      go lt e = inr (λ zs. rw (e, find) refl)
      go eq e = inl e
      go gt e = inr (λ zs. rw (e, find) refl)

module _ {ℓ κ μ} {K : Type ℓ} {V : Type κ} (before : K → K → Type μ) (comp : K → Ordering)
    (cut : IsCut before comp) where
  module _ (cmp : K × V → K × V → Ordering) (order : IsPairOrder before cmp)
      (agree : (x y : K × V) → cmp x y ≡ eq → comp x.0 ≡ comp y.0) where
    find-merge :
        (xs ys : List (K × V))
        → IsSorted before xs
        → IsSorted before ys
        → find comp (merge cmp xs ys) ≡ or_else (find comp ys) (find comp xs)
    unfolding merge find
    find-merge [] ys sx sy = sym (or_else-none (find comp ys))
    find-merge (x ∷ xs) [] sx sy = refl
    find-merge (x ∷ xs) (y ∷ ys) (px, sx) (py, sy) =
        merge_cases cmp x xs y ys
          (λ zs. find comp zs ≡ or_else (find comp (y ∷ ys)) (find comp (x ∷ xs)))
          (λ e. elim (find_cases comp x) [
            | inl hit ↦
                let b = order.of_lt x y e in
                let past = behind before cmp order x.0 y.0 ys b py in
                let miss =
                  find_past before comp cut x.0 (y ∷ ys) (λ g. not_both (comp x.0) hit g)
                    (b, past) in
                find_hit comp x (merge cmp xs (y ∷ ys)) hit
                ∙ sym (ap₂ or_else miss (find_hit comp x xs hit))
            | inr on ↦
                on (merge cmp xs (y ∷ ys))
                ∙ find-merge xs (y ∷ ys) sx (py, sy)
                ∙ ap (or_else (find comp (y ∷ ys))) (sym (on xs))
          ])
          (λ e. elim (find_cases comp y) [
            | inl hit ↦
                find_hit comp y (merge cmp (x ∷ xs) ys) hit
                ∙ sym (ap (λ r. or_else r (find comp (x ∷ xs))) (find_hit comp y ys hit))
            | inr on ↦
                on (merge cmp (x ∷ xs) ys)
                ∙ find-merge (x ∷ xs) ys (px, sx) sy
                ∙ ap (λ r. or_else r (find comp (x ∷ xs))) (sym (on ys))
          ])
          (λ e.
            let new : comp y.0 ≡ eq
                → find comp (y ∷ merge cmp xs ys)
                  ≡ or_else (find comp (y ∷ ys)) (find comp (x ∷ xs)) =
              λ hit.
                find_hit comp y (merge cmp xs ys) hit
                ∙ sym (ap (λ r. or_else r (find comp (x ∷ xs))) (find_hit comp y ys hit)) in
            elim (find_cases comp y) [
              | inl hit ↦ new hit
              | inr on ↦ elim (find_cases comp x) [
                | inl hit ↦ new (sym (agree x y e) ∙ hit)
                | inr on' ↦
                    on (merge cmp xs ys)
                    ∙ find-merge xs ys sx sy
                    ∙ ap₂ or_else (sym (on ys)) (sym (on' xs))
              ]
            ])

    -- For two filled, sorted and counted maps, a comparator of pairs that agrees with the order of
    -- their keys, and a comparator with a needle that cuts that order and tells no equal keys apart,
    -- `append` returns, and `get` on the first map then finds what it found before on the second
    -- map, and where that was nothing, what it found on the first.
    pub get-append :
        (m other : BTreeMap K V)
        → IsMap before m
        → IsMap before other
        → (m' : BTreeMap K V) × (other' : BTreeMap K V) × (append m other cmp ≡ some (m', other'))
          × (get m' comp ≡ (get other comp >>= λ v. get m comp >>= λ u. some (or_else v u)))
    get-append m other ok ok' =
        let (m', other', runs, good, content, _, _) = append_lem before cmp order m other ok ok' in
        let xs = map_entries m in
        let ys = map_entries other in
        (
          m',
          other',
          runs,
          get_lem before comp cut m' good
              ∙ ap (λ r. some (value_of r))
                  (ap (find comp) content ∙ find-merge xs ys ok.sorted ok'.sorted)
              ∙ ap some (value_of-or_else (find comp ys) (find comp xs))
              ∙ sym (
                  ap₂ (λ a c. a >>= λ v. c >>= λ u. some (or_else v u))
                    (get_lem before comp cut other ok') (get_lem before comp cut m ok)),
        )
