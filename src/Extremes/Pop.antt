-- ===== src/Extremes/Pop.antt =====
-- The first and the last pair of a map, read and removed.
use btree_monstrousity.Prelude.{
  ℕ, zero, suc, ◌-◌, ◌<◌, ◌≡◌, ◌⊎◌, inl, inr, refl, sym, ap, ◌∙◌, List, [], ◌∷◌, ◌++◌, length, take,
  Option, none, some, arith, get_elem?_of_lt, get_elem?_split, drop_beyond, append_assoc,
  append-nil,
}
use btree_monstrousity.Defined.{Defined, ◌>>=◌}
use btree_monstrousity.Node.{LeafNode, Node, Root, Parents, top, replant}
use btree_monstrousity.Node.Content.{
  root_entries, entries_before, entries_after, IsFilled, IsFilledPath, path_min,
}
use btree_monstrousity.Remove.{last_leaf_edge}
use btree_monstrousity.Remove.Next.{last_leaf_edge_lem}
use btree_monstrousity.Map.{BTreeMap, occupied_remove_kv}
use btree_monstrousity.Map.View.{map_entries, IsMap}
use btree_monstrousity.Map.Remove.{removed_at}
use btree_monstrousity.Extremes.{first_leaf_edge, left_kv, pop_first, pop_last}
use btree_monstrousity.Extremes.Descent.{
  nothing_after, left_kv-get_elem?, FirstLeaf, first_leaf_edge_lem,
}

module _ {ℓ κ μ} {K : Type ℓ} {V : Type κ} (before : K → K → Type μ) where
  -- What a removal of the first pair has to return, for a map with the pairs `xs`.
  abbrev pub PopsFirst :
      BTreeMap K V → List (K × V) → Defined (Option (K × V) × BTreeMap K V) → Type (ℓ ⊔ κ ⊔ μ)
  PopsFirst m xs result =
      ((xs ≡ []) × (result ≡ some (none, m)))
      ⊎ ((x : K × V) × (m' : BTreeMap K V) × (result ≡ some (some x, m'))
          × IsMap before m'
          × (xs ≡ x ∷ map_entries m'))

  pop_first_root :
      (root : Root K V) (len : ℕ)
      → IsMap before (record { root = some root; length = len })
      → PopsFirst
          (record { root = some root; length = len })
          (root_entries root)
          (pop_first (record { root = some root; length = len }))
  unfolding pop_first
  pop_first_root root len ok =
      let (leaf, path, run, l) = first_leaf_edge_lem root ok.filled in by_leaf leaf path run l
    where
      by_leaf :
          (leaf : LeafNode K V) (path : Parents K V 0)
          → first_leaf_edge root.height root.node top ≡ some (leaf, 0, path)
          → FirstLeaf root leaf path
          → PopsFirst
              (record { root = some root; length = len })
              (root_entries root)
              (pop_first (record { root = some root; length = len }))
      by_leaf [] path run l =
          inl (sym l.all ∙ nothing_after path l.filled, rw (run, pop_first) refl)
      by_leaf (x ∷ xs) path run l =
          let (m, removed, ok', left) =
            removed_at before root len 0 (x ∷ xs) 0 path x ok l.same l.filled l.on_path refl in
          inr (
            x,
            m,
            rw (run, removed, pop_first) refl,
            ok',
            sym l.all
                ∙ ap (◌∷◌ x)
                    (sym (left ∙ ap (λ a. (a ++ []) ++ (xs ++ entries_after 0 path)) l.before)),
          )

  pop_first_at :
      (root : Option (Root K V)) (len : ℕ)
      → IsMap before (record { root = root; length = len })
      → PopsFirst
          (record { root = root; length = len })
          (map_entries (record { root = root; length = len }))
          (pop_first (record { root = root; length = len }))
  pop_first_at none len ok = inl (refl, unfold pop_first in refl)
  pop_first_at (some root) len ok = pop_first_root root len ok

  -- For a filled, sorted and counted map, `pop_first` returns: on an empty map it changes nothing
  -- and returns no pair, and else it returns the first of the sorted pairs and leaves a filled,
  -- sorted and counted map with all the others.
  pub pop_first_lem :
      (m : BTreeMap K V) → IsMap before m → PopsFirst m (map_entries m) (pop_first m)
  pop_first_lem m ok = pop_first_at m.root m.length ok

  -- What a removal of the last pair has to return, for a map with the pairs `xs`.
  abbrev pub PopsLast :
      BTreeMap K V → List (K × V) → Defined (Option (K × V) × BTreeMap K V) → Type (ℓ ⊔ κ ⊔ μ)
  PopsLast m xs result =
      ((xs ≡ []) × (result ≡ some (none, m)))
      ⊎ ((x : K × V) × (m' : BTreeMap K V) × (result ≡ some (some x, m'))
          × IsMap before m'
          × (xs ≡ map_entries m' ++ x ∷ []))

  pop_last_runs :
      (root : Root K V) (len : ℕ) (leaf : LeafNode K V) (edge : ℕ) (path : Parents K V 0)
      (x : K × V) (m : BTreeMap K V)
      → last_leaf_edge root.height root.node top ≡ some (leaf, edge, path)
      → left_kv leaf edge ≡ some x
      → occupied_remove_kv
          (record { root = some root; length = len })
          (record { height = 0; node = leaf; idx = edge - 1; path = path })
        ≡ some (x, m)
      → pop_last (record { root = some root; length = len }) ≡ some (some x, m)
  unfolding pop_last
  pop_last_runs root len leaf edge path x m run here removed = rw (run, here, removed, ◌>>=◌) refl

  -- The last pair of a leaf at the right border of the tree.
  pop_last_leaf :
      (root : Root K V) (len : ℕ) (leaf : LeafNode K V) (path : Parents K V 0)
      → IsMap before (record { root = some root; length = len })
      → last_leaf_edge root.height root.node top ≡ some (leaf, length leaf, path)
      → replant 0 leaf path ≡ root
      → entries_before 0 path ++ leaf ≡ root_entries root
      → entries_after 0 path ≡ []
      → IsFilledPath K V 0 path
      → IsFilled K V (path_min 0 path) 0 leaf
      → 0 < length leaf
      → PopsLast
          (record { root = some root; length = len })
          (root_entries root)
          (pop_last (record { root = some root; length = len }))
  pop_last_leaf root len leaf path ok run same all nothing w f pos =
      let k = length leaf - 1 in
      let (x, get) = get_elem?_of_lt leaf k (omega arith) in
      let end = drop_beyond leaf (suc k) (omega arith) in
      let (m, removed, ok', left) = removed_at before root len 0 leaf k path x ok same f w get in
      let kept : map_entries m ≡ entries_before 0 path ++ take k leaf =
        left
        ∙ ap (λ a. (entries_before 0 path ++ take k leaf) ++ (a ++ entries_after 0 path)) end
        ∙ ap (λ a. (entries_before 0 path ++ take k leaf) ++ a) nothing
        ∙ append-nil (entries_before 0 path ++ take k leaf) in
      inr (
        x,
        m,
        pop_last_runs root len leaf (length leaf) path x m run
            (left_kv-get_elem? leaf (length leaf) x pos get) removed,
        ok',
        sym all
            ∙ ap (λ a. entries_before 0 path ++ a)
                (get_elem?_split leaf k x get ∙ ap (λ a. take k leaf ++ x ∷ a) end)
            ∙ sym (append_assoc (entries_before 0 path) (take k leaf) (x ∷ []))
            ∙ sym (ap (λ a. a ++ x ∷ []) kept),
      )

  pop_last_tree :
      (h : ℕ) (n : Node K V h) (len : ℕ)
      → IsMap before (record { root = some (record { height = h; node = n }); length = len })
      → let root : Root K V = record { height = h; node = n } in
        PopsLast
          (record { root = some root; length = len })
          (root_entries root)
          (pop_last (record { root = some root; length = len }))
  pop_last_tree zero [] len ok = inl (refl, unfold pop_last last_leaf_edge left_kv in refl)
  pop_last_tree zero (x ∷ xs) len ok =
      pop_last_leaf (record { height = 0; node = x ∷ xs }) len (x ∷ xs) top ok
        (unfold last_leaf_edge in refl) (unfold replant in refl) refl refl tt ok.filled
        (omega arith)
  pop_last_tree (suc h) n len ok =
      let l = last_leaf_edge_lem (suc h) n top ok.filled tt (omega arith) in
      pop_last_leaf (record { height = suc h; node = n }) len l.leaf l.path ok l.runs
        (l.same ∙ unfold replant in refl) l.before l.after l.on_path l.filled l.some_pair

  pop_last_at :
      (root : Option (Root K V)) (len : ℕ)
      → IsMap before (record { root = root; length = len })
      → PopsLast
          (record { root = root; length = len })
          (map_entries (record { root = root; length = len }))
          (pop_last (record { root = root; length = len }))
  pop_last_at none len ok = inl (refl, unfold pop_last in refl)
  pop_last_at (some root) len ok = pop_last_tree root.height root.node len ok

  -- For a filled, sorted and counted map, `pop_last` returns: on an empty map it changes nothing and
  -- returns no pair, and else it returns the last of the sorted pairs and leaves a filled, sorted
  -- and counted map with all the others.
  pub pop_last_lem : (m : BTreeMap K V) → IsMap before m → PopsLast m (map_entries m) (pop_last m)
  pop_last_lem m ok = pop_last_at m.root m.length ok
