-- ===== src/Clone/Whole.antt =====
-- The copy of a map.
use btree_monstrousity.Prelude.{
  ℕ, zero, suc, ◌≡◌, refl, sym, ap, ◌∙◌, ◌==◌, false, List, [], ◌∷◌, length, Option, none, some,
  arith,
}
use btree_monstrousity.Defined.{Defined, ◌>>=◌}
use btree_monstrousity.Node.{Root}
use btree_monstrousity.Node.Content.{root_min}
use btree_monstrousity.Map.{BTreeMap, new, len, is_empty}
use btree_monstrousity.Map.View.{map_entries, IsFilledMap}
use btree_monstrousity.Clone.{clone, clone_kv}
use btree_monstrousity.Clone.Subtree.{copies, clone_subtree_lem, length-map_list}

module _ {ℓ} {A : Type ℓ} where
  pub no_pairs : (xs : List A) → 0 ≡ length xs → xs ≡ []
  no_pairs [] e = refl
  no_pairs (x ∷ xs) e = absurd (omega (arith, e))

module _ {ℓ κ} {K : Type ℓ} {V : Type κ} (clone_key : K → K) (clone_value : V → V) where
  abbrev pub IsCloned : List (K × V) → Defined (BTreeMap K V) → Type (ℓ ⊔ κ)
  IsCloned xs r =
      (m' : BTreeMap K V) × (r ≡ some m')
      × IsFilledMap m'
      × (m'.length ≡ length (map_entries m'))
      × (map_entries m' ≡ copies clone_key clone_value xs)

  clone_root :
      (root : Option (Root K V)) (n : ℕ)
      → (let m : BTreeMap K V = record { root = root; length = suc n } in
          IsFilledMap m × (m.length ≡ length (map_entries m)))
      → let m : BTreeMap K V = record { root = root; length = suc n } in
        IsCloned (map_entries m) (clone clone_key clone_value m)
  unfolding clone is_empty len
  clone_root none n (f, count) = absurd (omega (arith, count))
  clone_root (some root) n (f, count) =
      let c =
        clone_subtree_lem clone_key clone_value (root_min root.height) root.height root.node f in
      let not_empty : (suc n == 0) ≡ false = ground arith in
      (
        record {
          root = some (record { height = root.height; node = c.copy });
          length = length (map_entries (record { root = some root; length = suc n }));
        },
        rw (not_empty, c.runs, ◌>>=◌) refl,
        c.filled,
        sym (
            ap length c.content
            ∙ length-map_list (clone_kv clone_key clone_value)
                (map_entries (record { root = some root; length = suc n }))),
        c.content,
      )

  -- For a filled and counted map and any way to clone keys and values, `clone` returns (no push
  -- finds a full node); the copy is filled and counted, and its pairs are the clones of the pairs of
  -- the map in the same order.
  pub clone_lem :
      (m : BTreeMap K V)
      → IsFilledMap m
      → m.length ≡ length (map_entries m)
      → IsCloned (map_entries m) (clone clone_key clone_value m)
  unfolding clone is_empty len new
  clone_lem m f count = by_length m.root m.length f count
    where
      by_length :
          (root : Option (Root K V)) (n : ℕ)
          → (let m : BTreeMap K V = record { root = root; length = n } in IsFilledMap m)
          → n ≡ length (map_entries (record { root = root; length = n }))
          → let m : BTreeMap K V = record { root = root; length = n } in
            IsCloned (map_entries m) (clone clone_key clone_value m)
      by_length root zero f count = (
        new,
        refl,
        tt,
        refl,
        sym (
            ap (copies clone_key clone_value)
              (no_pairs (map_entries (record { root = root; length = 0 })) count)),
      )
      by_length root (suc n) f count = clone_root root n (f, count)
