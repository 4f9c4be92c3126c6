-- ===== src/Iter/Next.antt =====
-- The invariant of an iterator, and one call of `next` or `next_back`.
use btree_monstrousity.Prelude.{
  ℕ, suc, ◌-◌, ◌≡◌, refl, sym, ap, ◌∙◌, subst, ◌⊎◌, inl, inr, false, ◌==◌, List, [], ◌∷◌, ◌++◌,
  length, length-append, Option, none, some, arith, append_assoc, append-nil,
}
use btree_monstrousity.Defined.{◌>>=◌}
use btree_monstrousity.Node.{Root}
use btree_monstrousity.Node.Content.{root_entries}
use btree_monstrousity.Map.{BTreeMap}
use btree_monstrousity.Map.View.{map_entries, IsMap, IsFilledMap}
use btree_monstrousity.Iter.{
  LazyLeafRange, Iter, with_front, with_back, full_range, iter, next, next_back,
}
use btree_monstrousity.Iter.Range.{
  HasFront, HasBack, range_next_unchecked_lem, range_next_back_unchecked_lem,
}

nonzero : (n k : ℕ) → n ≡ suc k → (n == 0) ≡ false
nonzero n k e = ground arith

module _ {ℓ κ} {K : Type ℓ} {V : Type κ} where
  -- The two ends of a range enclose `xs` in the pairs of one tree.
  pub record Encloses (r : LazyLeafRange K V) (xs : List (K × V)) : Type (ℓ ⊔ κ) where
    pub root : Root K V
    pub passed : List (K × V)
    pub passed_back : List (K × V)
    pub has_front : HasFront root r.front passed (xs ++ passed_back)
    pub has_back : HasBack root r.back (passed ++ xs) passed_back

  -- An iterator that is to return `xs`.
  abbrev pub IsIter : Iter K V → List (K × V) → Type (ℓ ⊔ κ)
  IsIter it xs = (it.length ≡ length xs) × ((xs ≡ []) ⊎ Encloses it.range xs)

  pub next-nil : (it : Iter K V) → IsIter it [] → next it ≡ some (none, it)
  unfolding next
  next-nil it (len, _) = rw (next, len) refl

  pub next-cons :
      (it : Iter K V) (x : K × V) (xs : List (K × V))
      → IsIter it (x ∷ xs)
      → (it' : Iter K V) × (next it ≡ some (some x, it')) × IsIter it' xs
  unfolding next
  next-cons it x xs (len, inl e) = absurd (let t : x ∷ xs ≡ [] = e in cc)
  next-cons it x xs (len, inr r) =
      let (e, run, ok) =
        range_next_unchecked_lem r.root it.range r.passed x (xs ++ r.passed_back) r.has_front in
      (
        record { range = with_front it.range e; length = it.length - 1 },
        rw (nonzero it.length (length xs) len, run, ◌>>=◌) refl,
        (
          omega (arith, len),
          inr (record {
            root = r.root;
            passed = r.passed ++ x ∷ [];
            passed_back = r.passed_back;
            has_front = inl (e, refl, ok);
            has_back =
                subst (λ a. HasBack r.root it.range.back a r.passed_back)
                  (sym (append_assoc r.passed (x ∷ []) xs)) r.has_back;
          }),
        ),
      )

  pub next_back-nil : (it : Iter K V) → IsIter it [] → next_back it ≡ some (none, it)
  unfolding next_back
  next_back-nil it (len, _) = rw (next_back, len) refl

  longer : (x : K × V) (xs : List (K × V)) → length (xs ++ x ∷ []) ≡ suc (length xs)
  longer x xs = omega (arith, length-append xs (x ∷ []))

  not_nil : (x : K × V) (xs : List (K × V)) → xs ++ x ∷ [] ≡ [] → ⊥
  not_nil x xs e = omega (arith, ap length e, longer x xs)

  pub next_back-append :
      (it : Iter K V) (x : K × V) (xs : List (K × V))
      → IsIter it (xs ++ x ∷ [])
      → (it' : Iter K V) × (next_back it ≡ some (some x, it')) × IsIter it' xs
  unfolding next_back
  next_back-append it x xs (len, inl e) = absurd (not_nil x xs e)
  next_back-append it x xs (len, inr r) =
      let len' = len ∙ longer x xs in
      let (e, run, ok) =
        range_next_back_unchecked_lem r.root it.range (r.passed ++ xs) x r.passed_back (
          subst (λ a. HasBack r.root it.range.back a r.passed_back)
            (sym (append_assoc r.passed xs (x ∷ []))) r.has_back) in
      (
        record { range = with_back it.range e; length = it.length - 1 },
        rw (nonzero it.length (length xs) len', run, ◌>>=◌) refl,
        (
          omega (arith, len'),
          inr (record {
            root = r.root;
            passed = r.passed;
            passed_back = x ∷ r.passed_back;
            has_front =
                subst (λ a. HasFront r.root it.range.front r.passed a)
                  (append_assoc xs (x ∷ []) r.passed_back) r.has_front;
            has_back = inl (e, refl, ok);
          }),
        ),
      )

module _ {ℓ κ μ} {K : Type ℓ} {V : Type κ} {before : K → K → Type μ} where
  -- A fresh iterator is to return the pairs of the map.
  pub iter-IsIter : (m : BTreeMap K V) → IsMap before m → IsIter (iter m) (map_entries m)
  unfolding iter full_range
  iter-IsIter m ok = fresh m.root m.length ok.filled ok.counted
    where
      fresh :
          (r : Option (Root K V)) (n : ℕ)
          → (let m : BTreeMap K V = record { root = r; length = n } in IsFilledMap m)
          → n ≡ length (map_entries (record { root = r; length = n }))
          → IsIter
              (iter (record { root = r; length = n }))
              (map_entries (record { root = r; length = n }))
      fresh none n f c = (refl, inl refl)
      fresh (some root) n f c = (
        c,
        inr (record {
          root = root;
          passed = [];
          passed_back = [];
          has_front = inr (refl, f, refl, sym (append-nil (root_entries root)));
          has_back = inr (refl, f, refl, refl);
        }),
      )
