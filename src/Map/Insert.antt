-- ===== src/Map/Insert.antt =====
-- `BTreeMap::insert`, against `upsert` on the sorted list of pairs.
use btree_monstrousity.Prelude.{
  ℕ, zero, suc, ◌+◌, ◌<◌, ◌≡◌, refl, sym, ap, ap₂, ◌∙◌, List, [], ◌∷◌, ◌++◌, length, take, drop,
  get_elem?, Option, none, some, Ordering, arith, take-set, drop-set, get_elem?-set_self,
  get_elem?_bound, length-set, length-append, subst,
}
use btree_monstrousity.Order.{IsTotalOrder, IsSorted, find, upsert}
use btree_monstrousity.Node.{Node, Root, Parents, top, pairs, replant}
use btree_monstrousity.Node.Content.{
  entries_before, entries_after, kv_before, kv_after, root_entries, IsFilled, IsFilledRoot,
  IsFilledPath, path_min,
}
use btree_monstrousity.Node.Replant.{replant-IsFilled}
use btree_monstrousity.Node.Insert.Climb.{insert_recursing_lem}
use btree_monstrousity.Search.{SearchResult, search_tree}
use btree_monstrousity.Search.Descent.{SearchOk, search_tree_lem}
use btree_monstrousity.Defined.{Defined, ◌>>=◌}
use btree_monstrousity.Map.{
  BTreeMap, entry, occupied_insert, vacant_insert, insert, write_kv, into_kv,
}
use btree_monstrousity.Map.View.{
  map_entries, IsMap, IsFilledMap, find_found, find_go_down, handle_content, edge_content,
  upsert_front, upsert_back, upsert_here,
}
use btree_monstrousity.Map.Get.{value_of}
use btree_monstrousity.Map.Upsert.{Behind, needle-IsCut, upsert-IsSorted}

module _ {ℓ κ} {K : Type ℓ} {V : Type κ} where
  -- A write under a handle changes that pair alone.
  write_kv-around :
      (h : ℕ) (n : Node K V h) (i : ℕ) (x : K × V)
      → i < length (pairs h n)
      → (get_elem? (pairs h (write_kv h n i x)) i ≡ some x)
        × (kv_before h (write_kv h n i x) i ≡ kv_before h n i)
        × (kv_after h (write_kv h n i x) i ≡ kv_after h n i)
  unfolding write_kv
  write_kv-around zero n i x h = (get_elem?-set_self n i x h, take-set n i x, drop-set n i x)
  write_kv-around (suc h) n i x le =
      (get_elem?-set_self n.kvs i x le, rw (take-set n.kvs i x) refl, rw (drop-set n.kvs i x) refl)

  write_kv-IsFilled :
      (least h : ℕ) (n : Node K V h) (i : ℕ) (x : K × V)
      → IsFilled K V least h n
      → IsFilled K V least h (write_kv h n i x)
  unfolding write_kv
  write_kv-IsFilled least zero n i x f = omega (arith, length-set n i x)
  write_kv-IsFilled least (suc h) n i x (l, c, e, a) = (
    omega (arith, length-set n.kvs i x),
    omega (arith, length-set n.kvs i x),
    omega (arith, length-set n.kvs i x),
    a,
  )

  -- The tree after a write under a handle.
  pub replant-write_kv :
      (h : ℕ) (n : Node K V h) (i : ℕ) (p : Parents K V h) (x y : K × V)
      → IsFilled K V (path_min h p) h n
      → IsFilledPath K V h p
      → get_elem? (pairs h n) i ≡ some x
      → IsFilledRoot K V (replant h (write_kv h n i y) p)
        × (root_entries (replant h (write_kv h n i y) p)
            ≡ (entries_before h p ++ kv_before h n i) ++ y ∷ (kv_after h n i ++ entries_after h p))
  replant-write_kv h n i p x y f w get =
      let (here, front, back) = write_kv-around h n i y (get_elem?_bound (pairs h n) i get) in
      let f' = write_kv-IsFilled (path_min h p) h n i y f in
      (
        replant-IsFilled h (write_kv h n i y) p w f',
        handle_content h (write_kv h n i y) i p y f' w here
            ∙ ap₂ (λ a c. (entries_before h p ++ a) ++ y ∷ (c ++ entries_after h p)) front back,
      )

module _ {ℓ κ} {K : Type ℓ} {V : Type κ} (cmp : K → K → Ordering) (order : IsTotalOrder cmp)
    (key : K) (value : V) where
  -- An insertion into a map with the pairs `xs` and what it has to return.
  abbrev pub Inserts : List (K × V) → Defined (Option V × BTreeMap K V) → Type (ℓ ⊔ κ)
  Inserts xs result =
      (m : BTreeMap K V) × (result ≡ some (value_of (find (λ k. cmp k key) xs), m))
      × IsMap (Behind cmp) m
      × (map_entries m ≡ upsert (λ k. cmp k key) key value xs)

  IsMap-of_upsert :
      (m : BTreeMap K V) (xs : List (K × V))
      → IsFilledMap m
      → IsSorted (Behind cmp) xs
      → map_entries m ≡ upsert (λ k. cmp k key) key value xs
      → m.length ≡ length (map_entries m)
      → IsMap (Behind cmp) m
  IsMap-of_upsert m xs f s e c = record {
    filled = f;
    sorted = subst (IsSorted (Behind cmp)) (sym e) (upsert-IsSorted cmp order key value xs s);
    counted = c;
  }

  occupied_ok :
      (root : Root K V) (len h : ℕ) (n : Node K V h) (i : ℕ) (p : Parents K V h)
      → IsMap (Behind cmp) (record { root = some root; length = len })
      → SearchOk (λ k. cmp k key) root (SearchResult.found h n i p)
      → Inserts (root_entries root) (
          occupied_insert
            (record { root = some root; length = len })
            (record { height = h; node = n; idx = i; path = p })
            value
          >>= λ (old, m'). some (some old, m'))
  unfolding occupied_insert into_kv
  occupied_ok root len h n i p ok s =
      let comp : K → Ordering = λ k. cmp k key in
      let x = s.3 in
      let front = entries_before h p ++ kv_before h n i in
      let back = kv_after h n i ++ entries_after h p in
      let (f, after) = replant-write_kv h n i p x (x.0, value) s.1 s.2 s.4 in
      let old : root_entries root ≡ front ++ x ∷ back =
        ap root_entries (sym s.0) ∙ handle_content h n i p x s.1 s.2 s.4 in
      let m : BTreeMap K V = record {
        root = some (replant h (write_kv h n i (x.0, value)) p);
        length = len;
      } in
      let new =
        after
        ∙ sym (ap (λ ys. front ++ ys) (upsert_here comp key value x back s.5))
        ∙ sym (upsert_front comp key value front (x ∷ back) s.6)
        ∙ sym (ap (upsert comp key value) old) in
      (
        m,
        rw (s.4, find_found comp root h n i p s) refl,
        IsMap-of_upsert m (root_entries root) f ok.sorted new (
            omega (
              arith,
              ok.counted,
              ap length old,
              ap length after,
              length-append front (x ∷ back),
              length-append front ((x.0, value) ∷ back),
            )),
        new,
      )

  vacant_ok :
      (root : Root K V) (len : ℕ) (n : Node K V 0) (i : ℕ) (p : Parents K V 0)
      → IsMap (Behind cmp) (record { root = some root; length = len })
      → SearchOk (λ k. cmp k key) root (SearchResult.go_down n i p)
      → Inserts (root_entries root) (
          vacant_insert
            (record { root = some root; length = len })
            (record { key = key; handle = some (n, i, p) })
            value
          >>= λ m'. some (none, m'))
  unfolding vacant_insert
  vacant_ok root len n i p ok (same, f, w, le, front, back) =
      let comp : K → Ordering = λ k. cmp k key in
      let l = entries_before 0 p ++ take i n in
      let r = drop i n ++ entries_after 0 p in
      let (new_root, run, filled, content) = insert_recursing_lem n i p (key, value) f w le in
      let old : root_entries root ≡ l ++ r = ap root_entries (sym same) ∙ edge_content n i p w in
      let m : BTreeMap K V = record { root = some new_root; length = len + 1 } in
      let new =
        content
        ∙ sym (ap (λ ys. l ++ ys) (upsert_back comp key value r back))
        ∙ sym (upsert_front comp key value l r front)
        ∙ sym (ap (upsert comp key value) old) in
      (
        m,
        rw (run, find_go_down comp root n i p (same, f, w, le, front, back)) refl,
        IsMap-of_upsert m (root_entries root) filled ok.sorted new (
            omega (
              arith,
              ok.counted,
              ap length old,
              ap length content,
              length-append l r,
              length-append l ((key, value) ∷ r),
            )),
        new,
      )

  insert_at :
      (root : Option (Root K V)) (len : ℕ)
      → IsMap (Behind cmp) (record { root = root; length = len })
      → Inserts
          (map_entries (record { root = root; length = len }))
          (insert (record { root = root; length = len }) key value cmp)
  unfolding insert entry
  insert_at none len ok = (
    record { root = some (record { height = 0; node = (key, value) ∷ [] }); length = 1 },
    unfold vacant_insert find in refl,
    record { filled = omega arith; sorted = (tt, tt); counted = refl },
    unfold upsert in refl,
  )
  insert_at (some root) len ok = go (search_tree (λ k. cmp k key) root.height root.node top) refl (
      search_tree_lem (Behind cmp) (λ k. cmp k key) (needle-IsCut cmp order key) root ok.filled
        ok.sorted)
    where
      go :
          (r : SearchResult K V)
          → search_tree (λ k. cmp k key) root.height root.node top ≡ r
          → SearchOk (λ k. cmp k key) root r
          → Inserts
              (root_entries root)
              (insert (record { root = some root; length = len }) key value cmp)
      go (SearchResult.found h n i p) e s =
          rw (e, insert, entry) (occupied_ok root len h n i p ok s)
      go (SearchResult.go_down n i p) e s = rw (e, insert, entry) (vacant_ok root len n i p ok s)
      go SearchResult.out_of_bounds e s = absurd s.0

  -- For a total order `cmp` and a map that is filled, sorted by `cmp` (a key stands in front of
  -- another if `cmp` of the two is greater) and counted, `insert` returns (it neither panics nor
  -- reads out of bounds); it returns the value that the key had before, if any, and leaves a map
  -- that is again filled, sorted and counted, whose pairs are those of the list function `upsert`.
  pub insert_lem :
      (m : BTreeMap K V) → IsMap (Behind cmp) m → Inserts (map_entries m) (insert m key value cmp)
  insert_lem m ok = insert_at m.root m.length ok
