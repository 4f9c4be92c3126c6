-- ===== src/Map/Get.antt =====
-- Lookups, against the sorted list of pairs.
use btree_monstrousity.Prelude.{
  ℕ, ◌≡◌, refl, ap, ◌∙◌, Option, none, some, Ordering, Bool, true, false,
}
use mathlib.Core.Option
use btree_monstrousity.Order.{IsCut, find, IsSorted}
use btree_monstrousity.Node.{Root, top}
use btree_monstrousity.Node.Content.{root_entries, IsFilledRoot}
use btree_monstrousity.Search.{SearchResult, search_tree}
use btree_monstrousity.Search.Descent.{SearchOk, search_tree_lem}
use btree_monstrousity.Defined.{◌>>=◌}
use btree_monstrousity.Map.{BTreeMap, get, get_key_value, contains_key, into_kv}
use btree_monstrousity.Map.View.{map_entries, IsMap, find_found, find_go_down}

module _ {ℓ κ μ} {K : Type ℓ} {V : Type κ} (before : K → K → Type μ) (comp : K → Ordering)
    (cut : IsCut before comp) where
  get_key_value_root :
      (root : Root K V) (len : ℕ)
      → IsFilledRoot K V root
      → IsSorted before (root_entries root)
      → get_key_value (record { root = some root; length = len }) comp
        ≡ some (find comp (root_entries root))
  unfolding get_key_value into_kv
  get_key_value_root root len f s =
      go (search_tree comp root.height root.node top) refl
        (search_tree_lem before comp cut root f s)
    where
      go :
          (r : SearchResult K V)
          → search_tree comp root.height root.node top ≡ r
          → SearchOk comp root r
          → get_key_value (record { root = some root; length = len }) comp
            ≡ some (find comp (root_entries root))
      go (SearchResult.found h n i p) e ok =
          rw (e, get_key_value, ok.4, find_found comp root h n i p ok) refl
      go (SearchResult.go_down n i p) e ok =
          rw (e, get_key_value, find_go_down comp root n i p ok) refl
      go SearchResult.out_of_bounds e ok = absurd ok.0

  get_key_value_at :
      (root : Option (Root K V)) (len : ℕ)
      → IsMap before (record { root = root; length = len })
      → get_key_value (record { root = root; length = len }) comp
        ≡ some (find comp (map_entries (record { root = root; length = len })))
  unfolding get_key_value find
  get_key_value_at none len ok = refl
  get_key_value_at (some root) len ok = get_key_value_root root len ok.filled ok.sorted

  -- For a comparator that cuts the order of a filled, sorted and counted map, `get_key_value`
  -- returns the accepted pair of the sorted list of its pairs, and nothing if there is none.
  pub get_key_value_lem :
      (m : BTreeMap K V) → IsMap before m → get_key_value m comp ≡ some (find comp (map_entries m))
  get_key_value_lem m ok = get_key_value_at m.root m.length ok

module _ {ℓ κ} {K : Type ℓ} {V : Type κ} where
  abbrev pub value_of : Option (K × V) → Option V
  value_of = Option.map (λ (x : K × V). x.1)

  abbrev pub is_hit : Option (K × V) → Bool
  is_hit none = false
  is_hit (some _) = true

  read_value :
      (kv : Option (K × V))
      → (kv >>= λ x. some (some x.1)) ≡ ((kv >>= λ x. some (some x)) >>= λ o. some (value_of o))
  read_value none = refl
  read_value (some x) = refl

  value_is_hit :
      (o : Option (K × V)) → (elim (value_of o) [ none ↦ false | some _ ↦ true ]) ≡ is_hit o
  value_is_hit none = refl
  value_is_hit (some x) = refl

  get-get_key_value :
      (root : Option (Root K V)) (len : ℕ) (comp : K → Ordering)
      → let m : BTreeMap K V = record { root = root; length = len } in
        get m comp ≡ (get_key_value m comp >>= λ o. some (value_of o))
  unfolding get get_key_value into_kv
  get-get_key_value none len comp = refl
  get-get_key_value (some root) len comp = go (search_tree comp root.height root.node top)
    where
      go :
          (r : SearchResult K V)
          → (elim r [
            | SearchResult.found h n i p ↦ into_kv h n i >>= λ x. some (some x.1)
            | SearchResult.go_down n i p ↦ some none
            | SearchResult.out_of_bounds ↦ none
          ])
            ≡ ((elim r [
              | SearchResult.found h n i p ↦ into_kv h n i >>= λ x. some (some x)
              | SearchResult.go_down n i p ↦ some none
              | SearchResult.out_of_bounds ↦ none
            ])
                >>= λ o. some (value_of o))
      go (SearchResult.found h n i p) = read_value (into_kv h n i)
      go (SearchResult.go_down n i p) = refl
      go SearchResult.out_of_bounds = refl

module _ {ℓ κ μ} {K : Type ℓ} {V : Type κ} (before : K → K → Type μ) (comp : K → Ordering)
    (cut : IsCut before comp) where
  -- For a comparator that cuts the order of a filled, sorted and counted map, `get` returns the
  -- value that the sorted list of its pairs has under the accepted key, and nothing if there is no
  -- such key.
  pub get_lem :
      (m : BTreeMap K V) → IsMap before m → get m comp ≡ some (value_of (find comp (map_entries m)))
  get_lem m ok =
      get-get_key_value m.root m.length comp ∙ rw (get_key_value_lem before comp cut m ok) refl

  -- For a comparator that cuts the order of a filled, sorted and counted map, `contains_key` returns
  -- whether the sorted list of its pairs has an accepted key.
  pub contains_key_lem :
      (m : BTreeMap K V)
      → IsMap before m
      → contains_key m comp ≡ some (is_hit (find comp (map_entries m)))
  unfolding contains_key
  contains_key_lem m ok = rw (get_lem m ok) (ap some (value_is_hit (find comp (map_entries m))))
