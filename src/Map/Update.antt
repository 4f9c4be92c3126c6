-- ===== src/Map/Update.antt =====
-- `get_mut`, against `update` on the sorted list of pairs.
use Prim.Native.Nat.Ordering.{lt, eq, gt}
use btree_monstrousity.Prelude.{
  ℕ, ◌≡◌, refl, sym, ap, ◌∙◌, List, [], ◌∷◌, ◌++◌, length, Option, none, some, Ordering, arith, inl,
  inr, All-append, All-append_left, All-append_right, length-append, subst,
}
use btree_monstrousity.Order.{IsCut, IsSorted, IsFront, find}
use btree_monstrousity.Order.Cut.{Ordering-cases}
use btree_monstrousity.Node.{Node, Root, Parents, top, replant}
use btree_monstrousity.Node.Content.{
  root_entries, entries_before, entries_after, kv_before, kv_after,
}
use btree_monstrousity.Search.{SearchResult, search_tree}
use btree_monstrousity.Search.Descent.{SearchOk, search_tree_lem}
use btree_monstrousity.Defined.{Defined, ◌>>=◌}
use btree_monstrousity.Map.{BTreeMap, get_mut, into_kv, write_kv}
use btree_monstrousity.Map.View.{map_entries, IsMap, find_found, find_go_down, handle_content}
use btree_monstrousity.Map.Get.{value_of}
use btree_monstrousity.Map.Insert.{replant-write_kv}

module _ {ℓ κ} {K : Type ℓ} {V : Type κ} (comp : K → Ordering) (f : V → V) where
  -- The list with the value of the first accepted pair changed.
  unfoldable pub update : List (K × V) → List (K × V)
  update [] = []
  update (x ∷ xs) =
      let rest = update xs in elim (comp x.0) [ eq ↦ (x.0, f x.1) ∷ xs | _ ↦ x ∷ rest ]

  update_front : (xs ys : List (K × V)) → IsFront comp xs → update (xs ++ ys) ≡ xs ++ update ys
  unfolding update
  update_front [] ys h = refl
  update_front (x ∷ xs) ys h = rw (h.0, update) (ap (◌∷◌ x) (update_front xs ys h.1))

  update_here :
      (x : K × V) (ys : List (K × V)) → comp x.0 ≡ eq → update (x ∷ ys) ≡ (x.0, f x.1) ∷ ys
  unfolding update
  update_here x ys e = rw (e, update) refl

  update_absent : (xs : List (K × V)) → find comp xs ≡ none → update xs ≡ xs
  unfolding update find
  update_absent [] e = refl
  update_absent (x ∷ xs) e = elim (Ordering-cases (comp x.0)) [
    | inl h ↦ rw (h, update) (ap (◌∷◌ x) (update_absent xs (skipped h)))
    | inr (inl h) ↦ absurd (hit h)
    | inr (inr h) ↦ rw (h, update) (ap (◌∷◌ x) (update_absent xs (skipped_gt h)))
  ]
    where
      skipped : comp x.0 ≡ lt → find comp xs ≡ none
      skipped h = ground arith

      skipped_gt : comp x.0 ≡ gt → find comp xs ≡ none
      skipped_gt h = ground arith

      hit : comp x.0 ≡ eq → ⊥
      hit h = ground arith

module _ {ℓ κ μ} {K : Type ℓ} {V : Type κ} (before : K → K → Type μ) where
  -- A value has no part in the order.
  IsSorted-value :
      (xs : List (K × V)) (x : K × V) (v : V) (ys : List (K × V))
      → IsSorted before (xs ++ x ∷ ys)
      → IsSorted before (xs ++ (x.0, v) ∷ ys)
  IsSorted-value [] x v ys s = s
  IsSorted-value (z ∷ xs) x v ys s =
      let P : K × V → Type μ = λ y. before z.0 y.0 in
      (
        All-append P xs ((x.0, v) ∷ ys) (All-append_left P xs (x ∷ ys) s.0)
            (All-append_right P xs (x ∷ ys) s.0),
        IsSorted-value xs x v ys s.1,
      )

module _ {ℓ κ μ} {K : Type ℓ} {V : Type κ} (before : K → K → Type μ) (comp : K → Ordering)
    (cut : IsCut before comp) (f : V → V) where
  -- A change of a value in a map with the pairs `xs` and what it has to return.
  abbrev pub Updates : List (K × V) → Defined (Option V × BTreeMap K V) → Type (ℓ ⊔ κ ⊔ μ)
  Updates xs result =
      (m : BTreeMap K V) × (result ≡ some (value_of (find comp xs), m))
      × IsMap before m
      × (map_entries m ≡ update comp f xs)

  found-Updates :
      (root : Root K V) (len h : ℕ) (n : Node K V h) (i : ℕ) (p : Parents K V h)
      → IsMap before (record { root = some root; length = len })
      → SearchOk comp root (SearchResult.found h n i p)
      → Updates (root_entries root) (
          into_kv h n i >>= λ kv. some (
            some kv.1,
            record { root = some (replant h (write_kv h n i (kv.0, f kv.1)) p); length = len },
          ))
  unfolding into_kv
  found-Updates root len h n i p ok s =
      let x = s.3 in
      let y : K × V = (x.0, f x.1) in
      let front = entries_before h p ++ kv_before h n i in
      let back = kv_after h n i ++ entries_after h p in
      let (filled, after) = replant-write_kv h n i p x y s.1 s.2 s.4 in
      let old : root_entries root ≡ front ++ x ∷ back =
        ap root_entries (sym s.0) ∙ handle_content h n i p x s.1 s.2 s.4 in
      (
        record { root = some (replant h (write_kv h n i y) p); length = len },
        rw (s.4, find_found comp root h n i p s) refl,
        record {
          filled = filled;
          sorted =
              subst (IsSorted before) (sym after) (
                IsSorted-value before front x (f x.1) back (subst (IsSorted before) old ok.sorted));
          counted = omega (
            arith,
            ok.counted,
            ap length old,
            ap length after,
            length-append front (x ∷ back),
            length-append front (y ∷ back),
          );
        },
        after
            ∙ sym (ap (λ a. front ++ a) (update_here comp f x back s.5))
            ∙ sym (update_front comp f front (x ∷ back) s.6)
            ∙ sym (ap (update comp f) old),
      )

  get_mut_at :
      (root : Option (Root K V)) (len : ℕ)
      → IsMap before (record { root = root; length = len })
      → Updates
          (map_entries (record { root = root; length = len }))
          (get_mut (record { root = root; length = len }) comp f)
  unfolding get_mut
  get_mut_at none len ok =
      (record { root = none; length = len }, unfold find in refl, ok, unfold update in refl)
  get_mut_at (some root) len ok =
      go (search_tree comp root.height root.node top) refl
        (search_tree_lem before comp cut root ok.filled ok.sorted)
    where
      go :
          (r : SearchResult K V)
          → search_tree comp root.height root.node top ≡ r
          → SearchOk comp root r
          → Updates (root_entries root) (get_mut (record { root = some root; length = len }) comp f)
      go (SearchResult.found h n i p) e s = rw (e, get_mut) (found-Updates root len h n i p ok s)
      go (SearchResult.go_down n i p) e s =
          let absent = find_go_down comp root n i p s in
          (
            record { root = some root; length = len },
            rw (e, get_mut, absent) refl,
            ok,
            sym (update_absent comp f (root_entries root) absent),
          )
      go SearchResult.out_of_bounds e s = absurd s.0

  -- For a comparator that cuts the order of a filled, sorted and counted map and any change of a
  -- value, `get_mut` returns the value under the accepted key, if there is one, and the change made
  -- behind the reference leaves a filled, sorted and counted map in which only that value is
  -- changed.
  pub get_mut_lem : (m : BTreeMap K V) → IsMap before m → Updates (map_entries m) (get_mut m comp f)
  get_mut_lem m ok = get_mut_at m.root m.length ok
