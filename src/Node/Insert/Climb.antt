-- ===== src/Node/Insert/Climb.antt =====
-- The loop of `insert_recursing`: what it leaves of the whole tree.
use btree_monstrousity.Prelude.{
  ℕ, suc, ◌≤◌, ◌≡◌, refl, ap, ◌∙◌, List, ◌∷◌, ◌++◌, length, take, drop, some, arith, set, All-set,
  length-set, append_assoc, append-nil, Option,
}
use btree_monstrousity.Node.{LeafNode, Node, Root, Parents, top, up, min_len, replant}
use btree_monstrousity.Node.Replant.{weave_split_child, replant_content, replant-IsFilled}
use btree_monstrousity.Node.Content.{
  entries, root_entries, entries_before, entries_after, IsFilled, IsFilledRoot, IsFilledPath,
  path_min,
}
use btree_monstrousity.Node.Insert.{
  InsertResult, internal_insert, insert_climb, insert_recursing, split_root, leaf_insert,
}
use btree_monstrousity.Node.Insert.Step.{
  result_content, IsFilledResult, internal_insert_step, leaf_insert_step,
}

module _ {ℓ κ} {K : Type ℓ} {V : Type κ} where
  -- What a run of the loop leaves: a filled tree with the given content.
  abbrev pub Leaves : Option (Root K V) → List (K × V) → Type (ℓ ⊔ κ)
  Leaves result xs =
      (root : Root K V) × (result ≡ some root) × IsFilledRoot K V root × (root_entries root ≡ xs)

  insert_climb_lem :
      (h : ℕ) (r : InsertResult K V (Node K V h)) (p : Parents K V h)
      → IsFilledResult K V (path_min h p) h r
      → IsFilledPath K V h p
      → Leaves
          (insert_climb h r p)
          (entries_before h p ++ (result_content (entries h) r ++ entries_after h p))
  unfolding insert_climb split_root
  insert_climb_lem h (InsertResult.fit n) p f w =
      (replant h n p, refl, replant-IsFilled h n p w f, replant_content h n p w)
  insert_climb_lem h InsertResult.out_of_bounds p f w = absurd f.0
  insert_climb_lem h (InsertResult.split s) top f w = (
    split_root h s,
    refl,
    (omega arith, omega arith, refl, (f.0, (f.1, tt))),
    simp (append_assoc, append-nil),
  )
  insert_climb_lem h (InsertResult.split s) (up parent i p) f (le, (l, c, e, a), w) =
      let n : Node K V (suc h) = record parent { edges = set parent.edges i s.left } in
      let (filled, same) =
        internal_insert_step (path_min (suc h) p) h n i s.kv s.right
          (
            l,
            c,
            omega (arith, length-set parent.edges i s.left),
            All-set (IsFilled K V min_len h) parent.edges i s.left f.0 a,
          )
          le f.1 in
      let (root, run, ok, content) =
        insert_climb_lem (suc h) (internal_insert n i s.kv s.right) p filled w in
      (
        root,
        run,
        ok,
        content
            ∙ ap (λ xs. entries_before (suc h) p ++ (xs ++ entries_after (suc h) p))
                (same
                  ∙ weave_split_child (entries h) parent.kvs parent.edges i s.left s.right s.kv le
                      (omega arith))
            ∙ simp append_assoc,
      )

  -- At an edge of a filled leaf under a filled path, `insert_recursing` returns a tree whose nodes
  -- are all filled and whose pairs are those of before with the new one at the edge.
  pub insert_recursing_lem :
      (n : LeafNode K V) (idx : ℕ) (p : Parents K V 0) (kv : K × V)
      → IsFilled K V (path_min 0 p) 0 n
      → IsFilledPath K V 0 p
      → idx ≤ length n
      → Leaves
          (insert_recursing n idx p kv)
          ((entries_before 0 p ++ take idx n) ++ kv ∷ (drop idx n ++ entries_after 0 p))
  unfolding insert_recursing
  insert_recursing_lem n idx p kv f w le =
      let (filled, same) = leaf_insert_step (path_min 0 p) n idx kv f le in
      let (root, run, ok, content) = insert_climb_lem 0 (leaf_insert n idx kv) p filled w in
      (
        root,
        run,
        ok,
        content
            ∙ ap (λ xs. entries_before 0 p ++ (xs ++ entries_after 0 p)) same
            ∙ simp append_assoc,
      )
