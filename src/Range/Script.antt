-- ===== src/Range/Script.antt =====
-- A range of a map under any sequence of calls.
use btree_monstrousity.Prelude.{
  ◌≡◌, refl, sym, ap, ◌∙◌, subst, inl, inr, List, [], ◌∷◌, Option, none, some, Ordering,
}
use btree_monstrousity.Defined.{Defined, ◌>>=◌}
use btree_monstrousity.Order.{IsCut, IsSorted}
use btree_monstrousity.Node.{Root}
use btree_monstrousity.Map.{BTreeMap}
use btree_monstrousity.Map.View.{map_entries, IsMap, IsFilledMap}
use btree_monstrousity.Iter.Script.{End, pop_ends, unsnoc_cases, pop_ends-nil, pop_ends-append}
use btree_monstrousity.Range.{
  LeafRange, SearchBoundCustom, from_custom, no_range, range, next_checked, next_back_checked,
}
use btree_monstrousity.Range.Next.{
  IsRange, next_checked-nil, next_checked-cons, next_back_checked-nil, next_back_checked-append,
}
use btree_monstrousity.Range.Select.{select}
use btree_monstrousity.Range.Found.{find_leaf_edges_spanning_range_lem}

module _ {ℓ κ} {K : Type ℓ} {V : Type κ} where
  unfoldable pub range_call : End → LeafRange K V → Defined (Option (K × V) × LeafRange K V)
  range_call End.from_front r = next_checked r
  range_call End.from_back r = next_back_checked r

  -- What a sequence of calls returns.
  unfoldable pub range_calls : List End → LeafRange K V → Defined (List (Option (K × V)))
  range_calls [] r = some []
  range_calls (end ∷ ends) r =
      range_call end r >>= λ (kv, r'). range_calls ends r' >>= λ rest. some (kv ∷ rest)

  range_calls-cons :
      (end : End) (ends : List End) (r r' : LeafRange K V) (kv : Option (K × V))
      (rest : List (Option (K × V)))
      → range_call end r ≡ some (kv, r')
      → range_calls ends r' ≡ some rest
      → range_calls (end ∷ ends) r ≡ some (kv ∷ rest)
  unfolding range_calls
  range_calls-cons end ends r r' kv rest now later = rw (range_calls, now, later) refl

  range_calls_lem :
      (ends : List End) (r : LeafRange K V) (xs : List (K × V))
      → IsRange r xs
      → range_calls ends r ≡ some (pop_ends ends xs)
  unfolding range_calls pop_ends range_call
  range_calls_lem [] r xs ok = refl
  range_calls_lem (End.from_front ∷ ends) r [] ok =
      range_calls-cons End.from_front ends r r none (pop_ends ends []) (next_checked-nil r ok)
        (range_calls_lem ends r [] ok)
  range_calls_lem (End.from_front ∷ ends) r (x ∷ xs) ok =
      let (r', now, later) = next_checked-cons r x xs ok in
      range_calls-cons End.from_front ends r r' (some x) (pop_ends ends xs) now
        (range_calls_lem ends r' xs later)
  range_calls_lem (End.from_back ∷ ends) r xs ok = elim (unsnoc_cases xs) [
    | inl e ↦
        let ok' = subst (IsRange r) e ok in
        range_calls-cons End.from_back ends r r none (pop_ends ends [])
          (next_back_checked-nil r ok') (range_calls_lem ends r [] ok')
        ∙ ap some (sym (pop_ends-nil ends xs e))
    | inr (front, x, e) ↦
        let (r', now, later) = next_back_checked-append r x front (subst (IsRange r) e ok) in
        range_calls-cons End.from_back ends r r' (some x) (pop_ends ends front) now
          (range_calls_lem ends r' front later)
        ∙ ap some (sym (ap (pop_ends (End.from_back ∷ ends)) e ∙ pop_ends-append ends front x))
  ]

module _ {ℓ κ μ} {K : Type ℓ} {V : Type κ} (before : K → K → Type μ) (lower upper : K → Ordering)
    (cut_l : IsCut before lower) (cut_u : IsCut before upper) where
  abbrev selected : BTreeMap K V → SearchBoundCustom → SearchBoundCustom → List (K × V)
  selected m lb ub = select lower upper (from_custom lb) (from_custom ub) (map_entries m)

  pub range-IsRange :
      (m : BTreeMap K V) (lb ub : SearchBoundCustom)
      → IsMap before m
      → (r : LeafRange K V) × (range lower upper m lb ub ≡ some r) × IsRange r (selected m lb ub)
  unfolding range select
  range-IsRange m lb ub ok = at m.root ok.filled ok.sorted
    where
      at :
          (root : Option (Root K V))
          → (let m' : BTreeMap K V = record m { root = root } in IsFilledMap m')
          → (let m' : BTreeMap K V = record m { root = root } in IsSorted before (map_entries m'))
          → let m' : BTreeMap K V = record m { root = root } in
            (r : LeafRange K V) × (range lower upper m' lb ub ≡ some r)
            × IsRange r (selected m' lb ub)
      at none f s = (no_range, refl, inl (refl, refl))
      at (some root) f s =
          find_leaf_edges_spanning_range_lem before lower upper cut_l cut_u (from_custom lb)
            (from_custom ub) root s f

  -- For comparators of a lower and an upper bound that both cut the order of a filled, sorted and
  -- counted map, and any kinds of the two bounds, `range` returns without a panic, and any sequence
  -- of calls of `next_checked` and `next_back_checked` on the range returns what the same calls
  -- return on both ends of the list of exactly the pairs that are past the lower bound and within
  -- the upper.
  pub range_calls-range :
      (m : BTreeMap K V) (lb ub : SearchBoundCustom) (ends : List End)
      → IsMap before m
      → (r : LeafRange K V) × (range lower upper m lb ub ≡ some r)
        × (range_calls ends r
            ≡ some (
                pop_ends ends
                  (select lower upper (from_custom lb) (from_custom ub) (map_entries m))))
  range_calls-range m lb ub ends ok =
      let (r, run, is) = range-IsRange m lb ub ok in
      (r, run, range_calls_lem ends r (selected m lb ub) is)
