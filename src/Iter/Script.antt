-- ===== src/Iter/Script.antt =====
-- Iterators under any sequence of calls, and under a `for` loop.
use btree_monstrousity.Prelude.{
  ℕ, zero, suc, ◌<◌, ◌≡◌, refl, sym, ap, ◌∙◌, subst, ◌⊎◌, inl, inr, List, [], ◌∷◌, ◌++◌, length,
  Option, none, some, arith,
}
use btree_monstrousity.Defined.{Defined, ◌>>=◌}
use btree_monstrousity.Map.{BTreeMap}
use btree_monstrousity.Map.View.{map_entries, IsMap}
use btree_monstrousity.Iter.{Iter, iter, next, next_back, collect}
use btree_monstrousity.Iter.Next.{
  IsIter, iter-IsIter, next-nil, next-cons, next_back-nil, next_back-append,
}

-- The end of an iterator that a call takes from.
pub data End : Type 0 where
  from_front : End
  from_back : End

module _ {ℓ} {A : Type ℓ} where
  -- A list without its last value, and that value.
  unfoldable pub unsnoc : List A → Option (List A × A)
  unsnoc [] = none
  unsnoc (x ∷ xs) =
      let rest = unsnoc xs in
      elim rest [ none ↦ some ([], x) | some (front, last) ↦ some (x ∷ front, last) ]

  -- What calls on both ends of a list return, when each value is returned once.
  unfoldable pub pop_ends : List End → List A → List (Option A)
  pop_ends [] xs = []
  pop_ends (End.from_front ∷ ends) [] = none ∷ pop_ends ends []
  pop_ends (End.from_front ∷ ends) (x ∷ xs) = some x ∷ pop_ends ends xs
  pop_ends (End.from_back ∷ ends) xs = elim (unsnoc xs) [
    | none ↦ none ∷ pop_ends ends []
    | some (front, x) ↦ some x ∷ pop_ends ends front
  ]

  unsnoc-append : (xs : List A) (x : A) → unsnoc (xs ++ x ∷ []) ≡ some (xs, x)
  unfolding unsnoc
  unsnoc-append [] x = refl
  unsnoc-append (y ∷ xs) x = rw (unsnoc, unsnoc-append xs x) refl

  pub unsnoc_cases :
      (xs : List A) → (xs ≡ []) ⊎ ((front : List A) × (x : A) × (xs ≡ front ++ x ∷ []))
  unsnoc_cases [] = inl refl
  unsnoc_cases (x ∷ xs) = elim (unsnoc_cases xs) [
    | inl e ↦ inr ([], x, ap (◌∷◌ x) e)
    | inr (front, y, e) ↦ inr (x ∷ front, y, ap (◌∷◌ x) e)
  ]

  pub pop_ends-nil :
      (ends : List End) (xs : List A)
      → xs ≡ []
      → pop_ends (End.from_back ∷ ends) xs ≡ none ∷ pop_ends ends []
  unfolding pop_ends unsnoc
  pop_ends-nil ends xs e = rw e refl

  pub pop_ends-append :
      (ends : List End) (xs : List A) (x : A)
      → pop_ends (End.from_back ∷ ends) (xs ++ x ∷ []) ≡ some x ∷ pop_ends ends xs
  unfolding pop_ends
  pop_ends-append ends xs x = rw (pop_ends, unsnoc-append xs x) refl

module _ {ℓ κ} {K : Type ℓ} {V : Type κ} where
  unfoldable pub call : End → Iter K V → Defined (Option (K × V) × Iter K V)
  call End.from_front it = next it
  call End.from_back it = next_back it

  -- What a sequence of calls returns.
  unfoldable pub calls : List End → Iter K V → Defined (List (Option (K × V)))
  calls [] it = some []
  calls (end ∷ ends) it = call end it >>= λ (kv, it'). calls ends it' >>= λ rest. some (kv ∷ rest)

  calls-cons :
      (end : End) (ends : List End) (it it' : Iter K V) (kv : Option (K × V))
      (rest : List (Option (K × V)))
      → call end it ≡ some (kv, it')
      → calls ends it' ≡ some rest
      → calls (end ∷ ends) it ≡ some (kv ∷ rest)
  unfolding calls
  calls-cons end ends it it' kv rest now later = rw (calls, now, later) refl

  calls_lem :
      (ends : List End) (it : Iter K V) (xs : List (K × V))
      → IsIter it xs
      → calls ends it ≡ some (pop_ends ends xs)
  unfolding calls pop_ends call
  calls_lem [] it xs ok = refl
  calls_lem (End.from_front ∷ ends) it [] ok =
      calls-cons End.from_front ends it it none (pop_ends ends []) (next-nil it ok)
        (calls_lem ends it [] ok)
  calls_lem (End.from_front ∷ ends) it (x ∷ xs) ok =
      let (it', now, later) = next-cons it x xs ok in
      calls-cons End.from_front ends it it' (some x) (pop_ends ends xs) now
        (calls_lem ends it' xs later)
  calls_lem (End.from_back ∷ ends) it xs ok = elim (unsnoc_cases xs) [
    | inl e ↦
        let ok' = subst (IsIter it) e ok in
        calls-cons End.from_back ends it it none (pop_ends ends []) (next_back-nil it ok')
          (calls_lem ends it [] ok')
        ∙ ap some (sym (pop_ends-nil ends xs e))
    | inr (front, x, e) ↦
        let (it', now, later) = next_back-append it x front (subst (IsIter it) e ok) in
        calls-cons End.from_back ends it it' (some x) (pop_ends ends front) now
          (calls_lem ends it' front later)
        ∙ ap some (sym (ap (pop_ends (End.from_back ∷ ends)) e ∙ pop_ends-append ends front x))
  ]

  collect_lem :
      (fuel : ℕ) (it : Iter K V) (xs : List (K × V))
      → length xs < fuel
      → IsIter it xs
      → collect fuel it ≡ some xs
  unfolding collect
  collect_lem zero it xs enough ok = absurd (omega arith)
  collect_lem (suc fuel) it [] enough ok = rw (next-nil it ok) refl
  collect_lem (suc fuel) it (x ∷ xs) enough ok =
      let (it', now, later) = next-cons it x xs ok in
      rw (now, collect_lem fuel it' xs (omega arith) later) refl

module _ {ℓ κ μ} {K : Type ℓ} {V : Type κ} {before : K → K → Type μ} where
  -- For a filled, sorted and counted map, any sequence of calls of `next` and `next_back` on its
  -- iterator is defined, and returns what the same calls on both ends of the sorted list of its
  -- pairs return: each pair once, in order from its end, and then nothing.
  pub calls-iter :
      (m : BTreeMap K V) (ends : List End)
      → IsMap before m
      → calls ends (iter m) ≡ some (pop_ends ends (map_entries m))
  calls-iter m ends ok = calls_lem ends (iter m) (map_entries m) (iter-IsIter m ok)

  -- For a filled, sorted and counted map, the loop over its iterator ends within one call more than
  -- the map has pairs, and has then visited exactly the sorted pairs.
  pub collect-iter :
      (m : BTreeMap K V) (fuel : ℕ)
      → IsMap before m
      → m.length < fuel
      → collect fuel (iter m) ≡ some (map_entries m)
  collect-iter m fuel ok enough =
      collect_lem fuel (iter m) (map_entries m) (omega (arith, ok.counted, enough))
        (iter-IsIter m ok)
