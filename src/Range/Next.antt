-- ===== src/Range/Next.antt =====
-- The invariant of a range, and one call of `next_checked` or `next_back_checked`.
use btree_monstrousity.Prelude.{
  ℕ, suc, ◌≡◌, refl, sym, ap, ◌∙◌, subst, ◌⊎◌, inl, inr, true, false, Bool-cases, List, [], ◌∷◌,
  ◌++◌, length, length-append, none, some, arith, append_assoc,
}
use btree_monstrousity.Defined.{◌>>=◌}
use btree_monstrousity.Node.{Root}
use btree_monstrousity.Node.Content.{IsFilledRoot}
use btree_monstrousity.Navigate.{LeafEdge, handle_kv}
use btree_monstrousity.Navigate.Ends.{IsEdge, next_leaf_edge_lem, next_back_leaf_edge_lem}
use btree_monstrousity.Navigate.Climb.{next_kv_lem}
use btree_monstrousity.Navigate.Back.{next_back_kv_lem}
use btree_monstrousity.Range.{
  LeafRange, no_range, same_edge, is_empty, next_checked, next_back_checked,
}
use btree_monstrousity.Range.Position.{same_edge-length, length-same_edge}

module _ {ℓ κ} {K : Type ℓ} {V : Type κ} where
  -- The two edges of a range enclose `xs` in the pairs of one filled tree.
  pub record Encloses (r : LeafRange K V) (xs : List (K × V)) : Type (ℓ ⊔ κ) where
    pub root : Root K V
    pub filled : IsFilledRoot K V root
    pub low : LeafEdge K V
    pub high : LeafEdge K V
    pub has_front : r.front ≡ some low
    pub has_back : r.back ≡ some high
    pub passed : List (K × V)
    pub passed_back : List (K × V)
    pub low_edge : IsEdge root low passed (xs ++ passed_back)
    pub high_edge : IsEdge root high (passed ++ xs) passed_back

  -- A range that is to return `xs`.
  abbrev pub IsRange : LeafRange K V → List (K × V) → Type (ℓ ⊔ κ)
  IsRange r xs = ((r ≡ no_range) × (xs ≡ [])) ⊎ Encloses r xs

  same_length :
      (r : LeafRange K V) (xs : List (K × V)) (t : Encloses r xs)
      → same_edge t.low t.high ≡ true
      → length xs ≡ 0
  same_length r xs t same =
      let lens =
        same_edge-length t.root t.filled t.low t.high t.low_edge.of_root t.high_edge.of_root
          t.low_edge.on_path t.high_edge.on_path t.low_edge.in_leaf t.high_edge.in_leaf same in
      let front = ap length t.low_edge.before in
      let back = ap length t.high_edge.before in
      omega (arith, lens, front, back, length-append t.passed xs)

  is_empty-Encloses :
      (r : LeafRange K V) (xs : List (K × V)) (t : Encloses r xs)
      → is_empty r ≡ same_edge t.low t.high
  unfolding is_empty
  is_empty-Encloses r xs t = rw (is_empty, t.has_front, t.has_back) refl

  not_empty :
      (r : LeafRange K V) (xs : List (K × V)) (n : ℕ)
      → Encloses r xs
      → length xs ≡ suc n
      → is_empty r ≡ false
  not_empty r xs n t len = elim (Bool-cases (same_edge t.low t.high)) [
    | inl same ↦ absurd (omega (arith, len, same_length r xs t same))
    | inr other ↦ is_empty-Encloses r xs t ∙ other
  ]

  is_empty-nil : (r : LeafRange K V) → IsRange r [] → is_empty r ≡ true
  unfolding is_empty no_range
  is_empty-nil r (inl (e, _)) = ap is_empty e
  is_empty-nil r (inr t) =
      let front : length t.passed ≡ length (t.passed ++ []) =
        omega (arith, length-append t.passed []) in
      is_empty-Encloses r [] t
      ∙ length-same_edge t.root t.filled t.low t.high t.low_edge.of_root t.high_edge.of_root
          t.low_edge.on_path t.high_edge.on_path t.low_edge.in_leaf t.high_edge.in_leaf
          (ap length t.low_edge.before ∙ front ∙ sym (ap length t.high_edge.before))

  pub next_checked-nil : (r : LeafRange K V) → IsRange r [] → next_checked r ≡ some (none, r)
  unfolding next_checked
  next_checked-nil r ok = rw (is_empty-nil r ok) refl

  pub next_checked-cons :
      (r : LeafRange K V) (x : K × V) (xs : List (K × V))
      → IsRange r (x ∷ xs)
      → (r' : LeafRange K V) × (next_checked r ≡ some (some x, r')) × IsRange r' xs
  unfolding next_checked handle_kv
  next_checked-cons r x xs (inl (_, e)) = absurd (let t : x ∷ xs ≡ [] = e in cc)
  next_checked-cons r x xs (inr t) =
      let (k, found, at) = next_kv_lem t.root t.low t.passed x (xs ++ t.passed_back) t.low_edge in
      let (e, moved, beyond) = next_leaf_edge_lem t.root t.passed (xs ++ t.passed_back) x k at in
      (
        record r { front = some e },
        rw (not_empty r (x ∷ xs) (length xs) t refl, t.has_front, ◌>>=◌, found, at.here, moved)
            refl,
        inr (record {
          root = t.root;
          filled = t.filled;
          low = e;
          high = t.high;
          has_front = refl;
          has_back = t.has_back;
          passed = t.passed ++ x ∷ [];
          passed_back = t.passed_back;
          low_edge = beyond;
          high_edge =
              subst (λ a. IsEdge t.root t.high a t.passed_back)
                (sym (append_assoc t.passed (x ∷ []) xs)) t.high_edge;
        }),
      )

  pub next_back_checked-nil :
      (r : LeafRange K V) → IsRange r [] → next_back_checked r ≡ some (none, r)
  unfolding next_back_checked
  next_back_checked-nil r ok = rw (is_empty-nil r ok) refl

  pub next_back_checked-append :
      (r : LeafRange K V) (x : K × V) (xs : List (K × V))
      → IsRange r (xs ++ x ∷ [])
      → (r' : LeafRange K V) × (next_back_checked r ≡ some (some x, r')) × IsRange r' xs
  unfolding next_back_checked handle_kv
  next_back_checked-append r x xs (inl (_, e)) =
      absurd (omega (arith, ap length e, length-append xs (x ∷ [])))
  next_back_checked-append r x xs (inr t) =
      let len : length (xs ++ x ∷ []) ≡ suc (length xs) =
        omega (arith, length-append xs (x ∷ [])) in
      let back =
        subst (λ a. IsEdge t.root t.high a t.passed_back) (sym (append_assoc t.passed xs (x ∷ [])))
          t.high_edge in
      let (k, found, at) = next_back_kv_lem t.root t.high (t.passed ++ xs) x t.passed_back back in
      let (e, moved, beyond) =
        next_back_leaf_edge_lem t.root (t.passed ++ xs) t.passed_back x k at in
      (
        record r { back = some e },
        rw (not_empty r (xs ++ x ∷ []) (length xs) t len, t.has_back, ◌>>=◌, found, at.here, moved)
            refl,
        inr (record {
          root = t.root;
          filled = t.filled;
          low = t.low;
          high = e;
          has_front = t.has_front;
          has_back = refl;
          passed = t.passed;
          passed_back = x ∷ t.passed_back;
          low_edge =
              subst (λ a. IsEdge t.root t.low t.passed a) (append_assoc xs (x ∷ []) t.passed_back)
                t.low_edge;
          high_edge = beyond;
        }),
      )
