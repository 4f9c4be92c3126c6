-- ===== src/Extremes/Read.antt =====
-- The first and the last pair of a map, read only.
use btree_monstrousity.Prelude.{
  ℕ, zero, suc, ◌-◌, ◌<◌, ◌≡◌, ◌⊎◌, inl, inr, refl, sym, ap, ◌∙◌, List, [], ◌∷◌, ◌++◌, length, take,
  Option, none, some, arith, get_elem?_of_lt, get_elem?_split, drop_beyond, append_assoc,
}
use btree_monstrousity.Defined.{Defined, ◌>>=◌}
use btree_monstrousity.Node.{LeafNode, Node, Root, Parents, top}
use btree_monstrousity.Node.Content.{root_entries, entries_before, entries_after, IsFilledRoot}
use btree_monstrousity.Remove.{last_leaf_edge}
use btree_monstrousity.Remove.Next.{last_leaf_edge_lem}
use btree_monstrousity.Map.{BTreeMap}
use btree_monstrousity.Map.View.{map_entries, IsFilledMap}
use btree_monstrousity.Extremes.{first_leaf_edge, left_kv, first_key_value, last_key_value}
use btree_monstrousity.Extremes.Descent.{
  FirstLeaf, first_leaf_edge_lem, nothing_after, left_kv-get_elem?,
}

module _ {ℓ κ} {K : Type ℓ} {V : Type κ} where
  -- The pair read is the first, or there is none.
  abbrev pub ReadsFirst : List (K × V) → Defined (Option (K × V)) → Type (ℓ ⊔ κ)
  ReadsFirst xs result =
      ((xs ≡ []) × (result ≡ some none))
      ⊎ ((x : K × V) × (rest : List (K × V)) × (result ≡ some (some x)) × (xs ≡ x ∷ rest))

  -- The pair read is the last, or there is none.
  abbrev pub ReadsLast : List (K × V) → Defined (Option (K × V)) → Type (ℓ ⊔ κ)
  ReadsLast xs result =
      ((xs ≡ []) × (result ≡ some none))
      ⊎ ((x : K × V) × (rest : List (K × V)) × (result ≡ some (some x)) × (xs ≡ rest ++ x ∷ []))

  first_of_leaf :
      (root : Root K V) (len : ℕ) (leaf : LeafNode K V) (path : Parents K V 0)
      → first_leaf_edge root.height root.node top ≡ some (leaf, 0, path)
      → FirstLeaf root leaf path
      → ReadsFirst (root_entries root) (first_key_value (record { root = some root; length = len }))
  unfolding first_key_value
  first_of_leaf root len [] path run l =
      inl (sym l.all ∙ nothing_after path l.filled, rw (run, ◌>>=◌) refl)
  first_of_leaf root len (x ∷ xs) path run l =
      inr (x, xs ++ entries_after 0 path, rw (run, ◌>>=◌) refl, sym l.all)

  first_key_value_at :
      (root : Option (Root K V)) (len : ℕ)
      → let m : BTreeMap K V = record { root = root; length = len } in
        IsFilledMap m → ReadsFirst (map_entries m) (first_key_value m)
  first_key_value_at none len f = inl (refl, unfold first_key_value in refl)
  first_key_value_at (some root) len f =
      let (leaf, path, run, l) = first_leaf_edge_lem root f in
      first_of_leaf root len leaf path run l

  -- For a filled map, `first_key_value` returns the first of its pairs in order, or no pair if it
  -- has none.
  pub first_key_value_lem :
      (m : BTreeMap K V) → IsFilledMap m → ReadsFirst (map_entries m) (first_key_value m)
  first_key_value_lem m f = first_key_value_at m.root m.length f

  last_key_value_runs :
      (root : Root K V) (len : ℕ) (leaf : LeafNode K V) (edge : ℕ) (path : Parents K V 0)
      (x : K × V)
      → last_leaf_edge root.height root.node top ≡ some (leaf, edge, path)
      → left_kv leaf edge ≡ some x
      → last_key_value (record { root = some root; length = len }) ≡ some (some x)
  unfolding last_key_value
  last_key_value_runs root len leaf edge path x run here = rw (run, here, ◌>>=◌) refl

  last_of_leaf :
      (root : Root K V) (len : ℕ) (leaf : LeafNode K V) (path : Parents K V 0)
      → last_leaf_edge root.height root.node top ≡ some (leaf, length leaf, path)
      → entries_before 0 path ++ leaf ≡ root_entries root
      → 0 < length leaf
      → ReadsLast (root_entries root) (last_key_value (record { root = some root; length = len }))
  last_of_leaf root len leaf path run all pos =
      let k = length leaf - 1 in
      let (x, get) = get_elem?_of_lt leaf k (omega arith) in
      let end = drop_beyond leaf (suc k) (omega arith) in
      inr (
        x,
        entries_before 0 path ++ take k leaf,
        last_key_value_runs root len leaf (length leaf) path x run
            (left_kv-get_elem? leaf (length leaf) x pos get),
        sym all
            ∙ ap (λ a. entries_before 0 path ++ a)
                (get_elem?_split leaf k x get ∙ ap (λ a. take k leaf ++ x ∷ a) end)
            ∙ sym (append_assoc (entries_before 0 path) (take k leaf) (x ∷ [])),
      )

  last_of_tree :
      (h : ℕ) (n : Node K V h) (len : ℕ)
      → let root : Root K V = record { height = h; node = n } in
        IsFilledRoot K V root
        → ReadsLast (root_entries root) (last_key_value (record { root = some root; length = len }))
  last_of_tree zero [] len f = inl (refl, unfold last_key_value last_leaf_edge left_kv in refl)
  last_of_tree zero (x ∷ xs) len f =
      last_of_leaf (record { height = 0; node = x ∷ xs }) len (x ∷ xs) top
        (unfold last_leaf_edge in refl) refl (omega arith)
  last_of_tree (suc h) n len f =
      let l = last_leaf_edge_lem (suc h) n top f tt (omega arith) in
      last_of_leaf (record { height = suc h; node = n }) len l.leaf l.path l.runs l.before
        l.some_pair

  last_key_value_at :
      (root : Option (Root K V)) (len : ℕ)
      → let m : BTreeMap K V = record { root = root; length = len } in
        IsFilledMap m → ReadsLast (map_entries m) (last_key_value m)
  last_key_value_at none len f = inl (refl, unfold last_key_value in refl)
  last_key_value_at (some root) len f = last_of_tree root.height root.node len f

  -- For a filled map, `last_key_value` returns the last of its pairs in order, or no pair if it has
  -- none.
  pub last_key_value_lem :
      (m : BTreeMap K V) → IsFilledMap m → ReadsLast (map_entries m) (last_key_value m)
  last_key_value_lem m f = last_key_value_at m.root m.length f
