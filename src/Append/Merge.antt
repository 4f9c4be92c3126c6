-- ===== src/Append/Merge.antt =====
-- merge_iter.rs: what a merging iterator yields.
use btree_monstrousity.Prelude.{
  ℕ, zero, suc, ◌+◌, ◌<◌, ◌≡◌, refl, sym, ap, ap₂, ◌∙◌, subst, List, [], ◌∷◌, length, Option, none,
  some, Ordering, arith,
}
use Prim.Native.Nat.Ordering.{lt, eq, gt}
use btree_monstrousity.Defined.{Defined, ◌>>=◌}
use btree_monstrousity.Append.{
  Peeked, MergeIterInner, uncons, next_of_both, settle, nexts, merge_next, drain,
}

module _ {ℓ} {A : Type ℓ} where
  -- Two lists merged; of two equal elements the one of the second list.
  unfoldable pub merge : (A → A → Ordering) → List A → List A → List A
  merge cmp [] ys = ys
  merge cmp (x ∷ xs) [] = x ∷ xs
  merge cmp (x ∷ xs) (y ∷ ys) = elim (cmp x y) [
    | lt ↦ x ∷ merge cmp xs (y ∷ ys)
    | gt ↦ y ∷ merge cmp (x ∷ xs) ys
    | eq ↦ y ∷ merge cmp xs ys
  ]

  -- What a source still yields, the item kept for the next call included.
  abbrev pub pending_a : MergeIterInner A → List A
  pending_a m = elim m.peeked [ some (Peeked.from_a x) ↦ x ∷ m.a | _ ↦ m.a ]

  abbrev pub pending_b : MergeIterInner A → List A
  pending_b m = elim m.peeked [ some (Peeked.from_b y) ↦ y ∷ m.b | _ ↦ m.b ]

  next_of_both_at :
      (a b : List A) (p : Option (Peeked A))
      → let m : MergeIterInner A = record { a = a; b = b; peeked = p } in
        let (x, xs) = uncons (pending_a m) in
        let (y, ys) = uncons (pending_b m) in next_of_both m ≡ (x, y, xs, ys)
  unfolding next_of_both
  next_of_both_at a b none = refl
  next_of_both_at a b (some (Peeked.from_a x)) = refl
  next_of_both_at a b (some (Peeked.from_b y)) = refl

  module _ (cmp : A → A → Ordering) (x : A) (xs : List A) (y : A) (ys : List A) where
    merge-lt : cmp x y ≡ lt → merge cmp (x ∷ xs) (y ∷ ys) ≡ x ∷ merge cmp xs (y ∷ ys)
    unfolding merge
    merge-lt e = rw (e, merge) refl

    merge-gt : cmp x y ≡ gt → merge cmp (x ∷ xs) (y ∷ ys) ≡ y ∷ merge cmp (x ∷ xs) ys
    unfolding merge
    merge-gt e = rw (e, merge) refl

    merge-eq : cmp x y ≡ eq → merge cmp (x ∷ xs) (y ∷ ys) ≡ y ∷ merge cmp xs ys
    unfolding merge
    merge-eq e = rw (e, merge) refl

    pub merge_cases {κ} :
        (P : List A → Type κ)
        → (cmp x y ≡ lt → P (x ∷ merge cmp xs (y ∷ ys)))
        → (cmp x y ≡ gt → P (y ∷ merge cmp (x ∷ xs) ys))
        → (cmp x y ≡ eq → P (y ∷ merge cmp xs ys))
        → P (merge cmp (x ∷ xs) (y ∷ ys))
    merge_cases P when_lt when_gt when_eq = go (cmp x y) refl
      where
        go : (o : Ordering) → cmp x y ≡ o → P (merge cmp (x ∷ xs) (y ∷ ys))
        go lt e = subst P (sym (merge-lt e)) (when_lt e)
        go gt e = subst P (sym (merge-gt e)) (when_gt e)
        go eq e = subst P (sym (merge-eq e)) (when_eq e)

  pub merge_nothing : (cmp : A → A → Ordering) (ys : List A) → merge cmp [] ys ≡ ys
  unfolding merge
  merge_nothing cmp ys = refl

  pub merge-nil : (cmp : A → A → Ordering) (xs : List A) → merge cmp xs [] ≡ xs
  unfolding merge
  merge-nil cmp [] = refl
  merge-nil cmp (x ∷ xs) = refl

  module _ (cmp : A → A → Ordering) where
    -- One call of `nexts`, by what both sources still yield.
    abbrev settled : List A → List A → Option A × Option A × MergeIterInner A
    settled xs ys = let (x, xs') = uncons xs in let (y, ys') = uncons ys in settle cmp x y xs' ys'

    -- `drain` after that call.
    abbrev drain_from : ℕ → Option A × Option A × MergeIterInner A → Defined (List A)
    drain_from fuel (x, y, m') =
        let z : Option A × MergeIterInner A = elim y [ some y ↦ (some y, m') | none ↦ (x, m') ] in
        let rest = drain cmp fuel z.1 in
        elim z.0 [ none ↦ some [] | some x ↦ rest >>= λ xs. some (x ∷ xs) ]

    drain-suc :
        (fuel : ℕ) (m : MergeIterInner A) (xs ys : List A)
        → pending_a m ≡ xs
        → pending_b m ≡ ys
        → drain cmp (suc fuel) m ≡ drain_from fuel (settled xs ys)
    unfolding drain merge_next nexts
    drain-suc fuel m xs ys ea eb =
        ap
          (λ (t : Option A × Option A × List A × List A).
            drain_from fuel (settle cmp t.0 t.1 t.2 t.3))
          (next_of_both_at m.a m.b m.peeked)
        ∙ ap₂ (λ xs ys. drain_from fuel (settled xs ys)) ea eb

    drain_both :
        (fuel : ℕ) (x : A) (xs : List A) (y : A) (ys : List A)
        → drain cmp fuel (record { a = xs; b = ys; peeked = some (Peeked.from_b y) })
          ≡ some (merge cmp xs (y ∷ ys))
        → drain cmp fuel (record { a = xs; b = ys; peeked = some (Peeked.from_a x) })
          ≡ some (merge cmp (x ∷ xs) ys)
        → drain cmp fuel (record { a = xs; b = ys; peeked = none }) ≡ some (merge cmp xs ys)
        → drain_from fuel (settled (x ∷ xs) (y ∷ ys)) ≡ some (merge cmp (x ∷ xs) (y ∷ ys))
    unfolding settle
    drain_both fuel x xs y ys after_lt after_gt after_eq = go (cmp x y) refl
      where
        go :
            (o : Ordering)
            → cmp x y ≡ o
            → drain_from fuel (settled (x ∷ xs) (y ∷ ys)) ≡ some (merge cmp (x ∷ xs) (y ∷ ys))
        go lt e =
            let now : settled (x ∷ xs) (y ∷ ys)
                ≡ (some x, none, record { a = xs; b = ys; peeked = some (Peeked.from_b y) }) =
              rw (e, settle) refl in
            ap (drain_from fuel) now
            ∙ ap (λ r. r >>= λ zs. some (x ∷ zs)) after_lt
            ∙ ap some (sym (merge-lt cmp x xs y ys e))
        go gt e =
            let now : settled (x ∷ xs) (y ∷ ys)
                ≡ (none, some y, record { a = xs; b = ys; peeked = some (Peeked.from_a x) }) =
              rw (e, settle) refl in
            ap (drain_from fuel) now
            ∙ ap (λ r. r >>= λ zs. some (y ∷ zs)) after_gt
            ∙ ap some (sym (merge-gt cmp x xs y ys e))
        go eq e =
            let now : settled (x ∷ xs) (y ∷ ys)
                ≡ (some x, some y, record { a = xs; b = ys; peeked = none }) =
              rw (e, settle) refl in
            ap (drain_from fuel) now
            ∙ ap (λ r. r >>= λ zs. some (y ∷ zs)) after_eq
            ∙ ap some (sym (merge-eq cmp x xs y ys e))

    pub drain_lem :
        (fuel : ℕ) (m : MergeIterInner A) (xs ys : List A)
        → pending_a m ≡ xs
        → pending_b m ≡ ys
        → length xs + length ys < fuel
        → drain cmp fuel m ≡ some (merge cmp xs ys)
    unfolding settle merge
    drain_lem zero m xs ys ea eb enough = absurd (omega arith)
    drain_lem (suc fuel) m [] [] ea eb enough = drain-suc fuel m [] [] ea eb
    drain_lem (suc fuel) m [] (y ∷ ys) ea eb enough =
        let m' : MergeIterInner A = record { a = []; b = ys; peeked = none } in
        let rest = drain_lem fuel m' [] ys refl refl (omega arith) in
        drain-suc fuel m [] (y ∷ ys) ea eb ∙ ap (λ r. r >>= λ zs. some (y ∷ zs)) rest
    drain_lem (suc fuel) m (x ∷ xs) [] ea eb enough =
        let m' : MergeIterInner A = record { a = xs; b = []; peeked = none } in
        let rest = drain_lem fuel m' xs [] refl refl (omega arith) in
        drain-suc fuel m (x ∷ xs) [] ea eb
        ∙ ap (λ r. r >>= λ zs. some (x ∷ zs)) (rest ∙ ap some (merge-nil cmp xs))
    drain_lem (suc fuel) m (x ∷ xs) (y ∷ ys) ea eb enough =
        drain-suc fuel m (x ∷ xs) (y ∷ ys) ea eb
        ∙ drain_both fuel x xs y ys
            (drain_lem fuel (record { a = xs; b = ys; peeked = some (Peeked.from_b y) }) xs (y ∷ ys)
              refl refl (omega arith))
            (drain_lem fuel (record { a = xs; b = ys; peeked = some (Peeked.from_a x) }) (x ∷ xs) ys
              refl refl (omega arith))
            (drain_lem fuel (record { a = xs; b = ys; peeked = none }) xs ys refl refl
              (omega arith))
