-- ===== src/Map/View.antt =====
-- The abstract view of a map, a sorted list of pairs, and what its operations do to that list.
use Prim.Native.Nat.Ordering.{eq}
use btree_monstrousity.Prelude.{
  ℕ, ◌≡◌, refl, sym, ap, ◌∙◌, List, [], ◌∷◌, ◌++◌, length, none, some, Ordering, arith, get_elem?,
  append_assoc, take, drop, take-append-drop,
}
use btree_monstrousity.Order.{IsSorted, IsFront, IsBack, find, upsert}
use btree_monstrousity.Order.Cut.{find_here, find_back, find_front}
use btree_monstrousity.Node.{Node, Root, Parents, pairs, replant}
use btree_monstrousity.Node.Content.{
  root_entries, entries_before, entries_after, kv_before, kv_after, entries_split, IsFilled,
  IsFilledRoot, IsFilledPath, path_min,
}
use btree_monstrousity.Node.Replant.{replant_content}
use btree_monstrousity.Search.{SearchResult}
use btree_monstrousity.Search.Descent.{SearchOk}
use btree_monstrousity.Map.{BTreeMap}

module _ {ℓ κ} {K : Type ℓ} {V : Type κ} where
  -- The pairs of a map, in order.
  abbrev pub map_entries : BTreeMap K V → List (K × V)
  map_entries m = elim m.root [ none ↦ [] | some root ↦ root_entries root ]

  abbrev pub IsFilledMap : BTreeMap K V → Type (ℓ ⊔ κ)
  IsFilledMap m = elim m.root [ none ↦ Unit | some root ↦ IsFilledRoot K V root ]

  -- The invariant stated in map.rs: nodes are filled, keys are in order, the length is counted.
  pub record IsMap {μ} (before : K → K → Type μ) (m : BTreeMap K V) : Type (ℓ ⊔ κ ⊔ μ) where
    pub filled : IsFilledMap m
    pub sorted : IsSorted before (map_entries m)
    pub counted : m.length ≡ length (map_entries m)

  -- The pairs on both sides of a handle to a pair.
  pub handle_content :
      (h : ℕ) (n : Node K V h) (i : ℕ) (p : Parents K V h) (x : K × V)
      → IsFilled K V (path_min h p) h n
      → IsFilledPath K V h p
      → get_elem? (pairs h n) i ≡ some x
      → root_entries (replant h n p)
        ≡ (entries_before h p ++ kv_before h n i) ++ x ∷ (kv_after h n i ++ entries_after h p)
  handle_content h n i p x f w get =
      replant_content h n p w
      ∙ ap (λ xs. entries_before h p ++ (xs ++ entries_after h p))
          (entries_split (path_min h p) h n i x f get)
      ∙ simp append_assoc

  pub edge_content :
      (n : Node K V 0) (i : ℕ) (p : Parents K V 0)
      → IsFilledPath K V 0 p
      → root_entries (replant 0 n p)
        ≡ (entries_before 0 p ++ take i n) ++ (drop i n ++ entries_after 0 p)
  edge_content n i p w =
      replant_content 0 n p w
      ∙ ap (λ xs. entries_before 0 p ++ (xs ++ entries_after 0 p)) (sym (take-append-drop i n))
      ∙ simp append_assoc

module _ {ℓ κ} {K : Type ℓ} {V : Type κ} (comp : K → Ordering) where
  pub upsert_front :
      (key : K) (value : V) (xs ys : List (K × V))
      → IsFront comp xs
      → upsert comp key value (xs ++ ys) ≡ xs ++ upsert comp key value ys
  unfolding upsert
  upsert_front key value [] ys h = refl
  upsert_front key value (x ∷ xs) ys h = ground (arith, upsert_front key value xs ys)

  pub upsert_back :
      (key : K) (value : V) (ys : List (K × V))
      → IsBack comp ys
      → upsert comp key value ys ≡ (key, value) ∷ ys
  unfolding upsert
  upsert_back key value [] h = refl
  upsert_back key value (y ∷ ys) h = ground arith

  pub upsert_here :
      (key : K) (value : V) (x : K × V) (ys : List (K × V))
      → comp x.0 ≡ eq
      → upsert comp key value (x ∷ ys) ≡ (x.0, value) ∷ ys
  unfolding upsert
  upsert_here key value x ys e = ground arith

  -- What the view holds where a search ended.
  pub find_found :
      (root : Root K V) (h : ℕ) (n : Node K V h) (i : ℕ) (p : Parents K V h)
      → (ok : SearchOk comp root (SearchResult.found h n i p))
      → find comp (root_entries root) ≡ some ok.3
  find_found root h n i p ok =
      ap (λ r. find comp (root_entries r)) (sym ok.0)
      ∙ ap (find comp) (handle_content h n i p ok.3 ok.1 ok.2 ok.4)
      ∙ find_here comp (entries_before h p ++ kv_before h n i) (kv_after h n i ++ entries_after h p)
          ok.3 ok.6 ok.5

  pub find_go_down :
      (root : Root K V) (n : Node K V 0) (i : ℕ) (p : Parents K V 0)
      → SearchOk comp root (SearchResult.go_down n i p)
      → find comp (root_entries root) ≡ none
  find_go_down root n i p (same, f, w, le, front, back) =
      ap (λ r. find comp (root_entries r)) (sym same)
      ∙ ap (find comp) (edge_content n i p w)
      ∙ find_front comp (entries_before 0 p ++ take i n) (drop i n ++ entries_after 0 p) front
      ∙ find_back comp (drop i n ++ entries_after 0 p) back
