-- ===== src/Map/Remove.antt =====
-- `remove_entry` and `remove`, against `delete` on the sorted list of pairs.
use btree_monstrousity.Prelude.{
  get_elem?, ◌⊎◌, inl, inr, ℕ, zero, suc, ◌+◌, ◌-◌, ◌<◌, ◌≤◌, ◌≡◌, refl, sym, ap, ◌∙◌, List, [],
  ◌∷◌, ◌++◌, length, Option, none, some, Ordering, arith, Bool, true, false, lt→ltb, if◌then◌else◌,
  length-append, subst, append-nil, All,
}
use btree_monstrousity.Order.{IsCut, IsSorted, find}
use btree_monstrousity.Node.{replant, Node, Root, Parents, top, pairs, min_len}
use btree_monstrousity.Node.Content.{
  IsFilledPath, path_min, entries, root_entries, entries_before, entries_after, kv_before, kv_after,
  IsFilled, IsFilledRoot, root_min,
}
use btree_monstrousity.Balance.Fill.{IsFilled-weaken}
use btree_monstrousity.Fix.Repair.{root_least}
use btree_monstrousity.Remove.Replace.{IsEmptied}
use btree_monstrousity.Remove.Tracking.{remove_kv_tracking_lem}
use btree_monstrousity.Search.{SearchResult, search_tree}
use btree_monstrousity.Search.Descent.{SearchOk, search_tree_lem}
use btree_monstrousity.Defined.{Defined, ◌>>=◌}
use btree_monstrousity.Map.{
  BTreeMap, pop_level, pop_internal_level, occupied_remove_kv, remove_entry, remove,
}
use btree_monstrousity.Map.View.{map_entries, IsMap, find_found, find_go_down, handle_content}
use btree_monstrousity.Map.Get.{value_of}
use btree_monstrousity.Map.Delete.{
  delete, delete_front, delete_here, delete_absent, IsSorted-remove,
}

module _ {ℓ κ} {K : Type ℓ} {V : Type κ} where
  -- An internal root without pairs has one child, which has all the pairs.
  pop_level_lem :
      (h : ℕ) (n : Node K V h)
      → 0 < h
      → length (pairs h n) ≡ 0
      → IsFilled K V 0 h n
      → (r : Root K V) × (pop_level h n ≡ some r)
        × IsFilledRoot K V r
        × (root_entries r ≡ entries h n)
  unfolding pop_level
  pop_level_lem zero n pos none_left f = absurd (omega arith)
  pop_level_lem (suc h) n pos none_left f = only n.kvs n.edges refl refl none_left f.2 f.3
    where
      only :
          (kvs : List (K × V)) (edges : List (Node K V h))
          → n.kvs ≡ kvs
          → n.edges ≡ edges
          → length kvs ≡ 0
          → length edges ≡ suc (length kvs)
          → All (IsFilled K V min_len h) edges
          → (r : Root K V) × (pop_level (suc h) n ≡ some r)
            × IsFilledRoot K V r
            × (root_entries r ≡ entries (suc h) n)
      only (kv ∷ kvs) edges ek ee nil len all = absurd (omega arith)
      only [] [] ek ee nil len all = absurd (omega arith)
      only [] (c ∷ d ∷ cs) ek ee nil len all = absurd (omega arith)
      only [] (c ∷ []) ek ee nil len all = (
        record { height = h; node = c },
        rw (ee, pop_level) refl,
        IsFilled-weaken K V min_len (root_min h) h c all.0 (enough h c all.0),
        sym (rw (ek, ee) (append-nil (entries h c))),
      )
        where
          enough :
              (h : ℕ) (c : Node K V h) → IsFilled K V min_len h c → root_min h ≤ length (pairs h c)
          enough zero c f = omega arith
          enough (suc h) c f = omega (arith, f.0)

  -- The root after a removal, popped if it was emptied.
  settle_root :
      (full : Bool) (root : Root K V)
      → IsFilled K V (root_least full root.height) root.height root.node
      → (full ≡ true) ⊎ IsEmptied root
      → (r : Root K V) × ((if full then some root else pop_internal_level root) ≡ some r)
        × IsFilledRoot K V r
        × (root_entries r ≡ root_entries root)
  unfolding pop_internal_level
  settle_root true root f e = (root, refl, f, refl)
  settle_root false root f (inl e) = cc
  settle_root false root f (inr e) = pop_level_lem root.height root.node e.0 e.1 f

module _ {ℓ κ μ} {K : Type ℓ} {V : Type κ} (before : K → K → Type μ) where
  -- A removal at a handle into a map: the pairs around the handle are left.
  pub removed_at :
      (root : Root K V) (len h : ℕ) (n : Node K V h) (i : ℕ) (p : Parents K V h) (x : K × V)
      → IsMap before (record { root = some root; length = len })
      → replant h n p ≡ root
      → IsFilled K V (path_min h p) h n
      → IsFilledPath K V h p
      → get_elem? (pairs h n) i ≡ some x
      → (m : BTreeMap K V) × (occupied_remove_kv
            (record { root = some root; length = len })
            (record { height = h; node = n; idx = i; path = p })
          ≡ some (x, m))
        × IsMap before m
        × (map_entries m
            ≡ (entries_before h p ++ kv_before h n i) ++ (kv_after h n i ++ entries_after h p))
  unfolding occupied_remove_kv
  removed_at root len h n i p x ok here f w get =
      let front = entries_before h p ++ kv_before h n i in
      let back = kv_after h n i ++ entries_after h p in
      let r = remove_kv_tracking_lem h n i p x get f w in
      let (root', settled, f', same) = settle_root r.full r.root r.filled r.emptied in
      let old : root_entries root ≡ front ++ x ∷ back =
        ap root_entries (sym here) ∙ handle_content h n i p x f w get in
      let new : root_entries root' ≡ front ++ back = same ∙ r.content in
      let m : BTreeMap K V = record { root = some root'; length = len - 1 } in
      let counted : len ≡ length front + suc (length back) =
        omega (arith, ok.counted, ap length old, length-append front (x ∷ back)) in
      (
        m,
        rw (r.runs, lt→ltb 0 len (omega arith), settled) refl,
        record {
          filled = f';
          sorted =
              subst (IsSorted before) (sym new)
                (IsSorted-remove before front x back (subst (IsSorted before) old ok.sorted));
          counted = omega (arith, ap length new, length-append front back);
        },
        new,
      )

module _ {ℓ κ μ} {K : Type ℓ} {V : Type κ} (before : K → K → Type μ) (comp : K → Ordering)
    (cut : IsCut before comp) where
  -- A removal from a map with the pairs `xs` and what it has to return.
  abbrev pub Deletes : List (K × V) → Defined (Option (K × V) × BTreeMap K V) → Type (ℓ ⊔ κ ⊔ μ)
  Deletes xs result =
      (m : BTreeMap K V) × (result ≡ some (find comp xs, m))
      × IsMap before m
      × (map_entries m ≡ delete comp xs)

  occupied_removed :
      (root : Root K V) (len h : ℕ) (n : Node K V h) (i : ℕ) (p : Parents K V h)
      → IsMap before (record { root = some root; length = len })
      → SearchOk comp root (SearchResult.found h n i p)
      → Deletes (root_entries root) (
          occupied_remove_kv
            (record { root = some root; length = len })
            (record { height = h; node = n; idx = i; path = p })
          >>= λ (kv, m'). some (some kv, m'))
  occupied_removed root len h n i p ok s =
      let x = s.3 in
      let front = entries_before h p ++ kv_before h n i in
      let back = kv_after h n i ++ entries_after h p in
      let (m, run, ok', new) = removed_at before root len h n i p x ok s.0 s.1 s.2 s.4 in
      let old : root_entries root ≡ front ++ x ∷ back =
        ap root_entries (sym s.0) ∙ handle_content h n i p x s.1 s.2 s.4 in
      (
        m,
        rw (run, find_found comp root h n i p s) refl,
        ok',
        new
            ∙ sym (ap (λ a. front ++ a) (delete_here comp x back s.5))
            ∙ sym (delete_front comp front (x ∷ back) s.6)
            ∙ sym (ap (delete comp) old),
      )

  remove_entry_at :
      (root : Option (Root K V)) (len : ℕ)
      → IsMap before (record { root = root; length = len })
      → Deletes
          (map_entries (record { root = root; length = len }))
          (remove_entry (record { root = root; length = len }) comp)
  unfolding remove_entry
  remove_entry_at none len ok =
      (record { root = none; length = len }, unfold find in refl, ok, unfold delete in refl)
  remove_entry_at (some root) len ok =
      go (search_tree comp root.height root.node top) refl
        (search_tree_lem before comp cut root ok.filled ok.sorted)
    where
      go :
          (r : SearchResult K V)
          → search_tree comp root.height root.node top ≡ r
          → SearchOk comp root r
          → Deletes
              (root_entries root)
              (remove_entry (record { root = some root; length = len }) comp)
      go (SearchResult.found h n i p) e s =
          rw (e, remove_entry) (occupied_removed root len h n i p ok s)
      go (SearchResult.go_down n i p) e s =
          let absent = find_go_down comp root n i p s in
          (
            record { root = some root; length = len },
            rw (e, remove_entry, absent) refl,
            ok,
            sym (delete_absent comp (root_entries root) absent),
          )
      go SearchResult.out_of_bounds e s = absurd s.0

  -- For a comparator that cuts the order of a filled, sorted and counted map, `remove_entry`
  -- returns; it returns the accepted pair, if there is one, and leaves a filled, sorted and counted
  -- map whose pairs are those of the list function `delete`.
  pub remove_entry_lem :
      (m : BTreeMap K V) → IsMap before m → Deletes (map_entries m) (remove_entry m comp)
  remove_entry_lem m ok = remove_entry_at m.root m.length ok

  -- For a comparator that cuts the order of a filled, sorted and counted map, `remove` returns the
  -- value under the accepted key, if there is one, and leaves a filled, sorted and counted map whose
  -- pairs are those of `delete`.
  pub remove_lem :
      (m : BTreeMap K V)
      → IsMap before m
      → (m' : BTreeMap K V) × (remove m comp ≡ some (value_of (find comp (map_entries m)), m'))
        × IsMap before m'
        × (map_entries m' ≡ delete comp (map_entries m))
  unfolding remove
  remove_lem m ok =
      let (m', run, ok', content) = remove_entry_lem m ok in (m', rw run refl, ok', content)
