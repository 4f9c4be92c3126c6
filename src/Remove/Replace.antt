-- ===== src/Remove/Replace.antt =====
-- `replace_kv` at the pair behind a leaf edge, found in the leaf or further up.
use btree_monstrousity.Prelude.{
  zero, suc, inl, inr, ◌⊎◌, subst, ℕ, ◌≤◌, ◌<◌, ◌≡◌, refl, sym, ap, ap₂, ◌∙◌, List, ◌∷◌, ◌++◌,
  length, take, drop, set, get_elem?, some, none, arith, Option-cases, get_elem?_bound,
  get_elem?-none, drop_beyond, drop_at_set, drop_split, take-set, length-set, append_assoc,
  append-nil, take-append-drop, set_split,
}
use btree_monstrousity.Node.{LeafNode, Node, Root, Parents, top, up, pairs, replant}
use btree_monstrousity.Node.Content.{
  weave, weave_tail, entries, entries_before, entries_after, root_entries, IsFilled,
  IsFilledPathWith, path_min_with,
}
use btree_monstrousity.Node.Replant.{replant_content_with, replant-IsFilled_with}
use btree_monstrousity.Fix.Repair.{root_len}
use btree_monstrousity.Remove.{replace_next_above, replace_next}
use btree_monstrousity.Remove.Around.{edge_before, edge_after}
use btree_monstrousity.Remove.Next.{nothing_behind}

module _ {ℓ} {A : Type ℓ} where
  first_of : (x y : A) (xs ys : List A) → x ∷ xs ≡ y ∷ ys → x ≡ y
  first_of x y xs ys e = cc

  rest_of : (x y : A) (xs ys : List A) → x ∷ xs ≡ y ∷ ys → xs ≡ ys
  rest_of x y xs ys e = cc

module _ {ℓ κ} {K : Type ℓ} {V : Type κ} (rl : ℕ → ℕ) (kv : K × V) where
  -- The path after the first pair behind its end was replaced.
  pub record Replaces (h : ℕ) (p : Parents K V h) (x : K × V) (rest : List (K × V))
      : Type (ℓ ⊔ κ) where
    pub path : Parents K V h
    pub runs : replace_next_above h p kv ≡ some (x, path)
    pub before : entries_before h path ≡ entries_before h p
    pub after : entries_after h path ≡ kv ∷ rest
    pub on_path : IsFilledPathWith K V rl h path
    pub same_min : path_min_with rl h path ≡ path_min_with rl h p
    pub same_len : (d : ℕ) → root_len h d path ≡ root_len h d p

  replace_next_above_lem :
      (h : ℕ) (p : Parents K V h) (x : K × V) (rest : List (K × V))
      → IsFilledPathWith K V rl h p
      → entries_after h p ≡ x ∷ rest
      → Replaces h p x rest
  unfolding replace_next_above
  replace_next_above_lem h top x rest w e = cc
  replace_next_above_lem h (up n i q) x rest (le, f, w) e =
      elim (Option-cases (get_elem? n.kvs i)) [
        | inl past ↦
            let none_here = nothing_behind h i n f.2 (get_elem?-none n.kvs i past) in
            let e' : entries_after (suc h) q ≡ x ∷ rest =
              sym (ap (λ a. a ++ entries_after (suc h) q) none_here) ∙ e in
            let above = replace_next_above_lem (suc h) q x rest w e' in
            record {
              path = up n i above.path;
              runs = rw (past, above.runs, replace_next_above) refl;
              before =
                  ap (λ a. a ++ weave (entries h) (take i n.kvs) (take i n.edges)) above.before;
              after = ap (λ a. a ++ entries_after (suc h) above.path) none_here ∙ above.after;
              on_path = (le, rw above.same_min f, above.on_path);
              same_min = refl;
              same_len = λ d. above.same_len (length n.kvs);
            }
        | inr (old, get) ↦
            let bound = get_elem?_bound n.kvs i get in
            let d = weave (entries h) (drop (suc i) n.kvs) (drop (suc i) n.edges) in
            let here : old ∷ (d ++ entries_after (suc h) q) ≡ x ∷ rest =
              sym (
                ap (λ a. weave_tail (entries h) a (drop (suc i) n.edges) ++ entries_after (suc h) q)
                  (drop_split n.kvs i old get))
              ∙ e in
            record {
              path = up (record n { kvs = set n.kvs i kv }) i q;
              runs =
                  rw (get, replace_next_above)
                    (ap (λ a. some (a, up (record n { kvs = set n.kvs i kv }) i q))
                      (first_of old x (d ++ entries_after (suc h) q) rest here));
              before = rw (take-set n.kvs i kv) refl;
              after =
                  ap
                    (λ a.
                      weave_tail (entries h) a (drop (suc i) n.edges) ++ entries_after (suc h) q)
                    (drop_at_set n.kvs i kv bound)
                  ∙ ap (◌∷◌ kv) (rest_of old x (d ++ entries_after (suc h) q) rest here);
              on_path = (
                omega (arith, length-set n.kvs i kv),
                (
                  omega (arith, f.0, length-set n.kvs i kv),
                  omega (arith, f.1, length-set n.kvs i kv),
                  omega (arith, f.2, length-set n.kvs i kv),
                  f.3,
                ),
                w,
              );
              same_min = refl;
              same_len = same_root q (length-set n.kvs i kv);
            }
      ]
    where
      same_root :
          {h a c : ℕ} (q : Parents K V (suc h))
          → a ≡ c
          → (d : ℕ) → root_len (suc h) a q ≡ root_len (suc h) c q
      same_root q e d = ap (λ a. root_len _ a q) e

module _ {ℓ κ} {K : Type ℓ} {V : Type κ} where
  -- An internal root without pairs, which the map has to pop.
  abbrev pub IsEmptied : Root K V → Type 0
  IsEmptied r = (0 < r.height) × (length (pairs r.height r.node) ≡ 0)

  replant_len :
      (h : ℕ) (n : Node K V h) (p : Parents K V h)
      → let r = replant h n p in
        (h ≤ r.height) × (length (pairs r.height r.node) ≡ root_len h (length (pairs h n)) p)
  unfolding replant
  replant_len h n top = (omega arith, refl)
  replant_len h n (up m i p) =
      let (up_to, len) = replant_len (suc h) (record m { edges = set m.edges i n }) p in
      (omega (arith, up_to), len)

  pub replant-IsEmptied :
      (n : LeafNode K V) (p : Parents K V 0) → root_len 0 1 p ≡ 0 → IsEmptied (replant 0 n p)
  unfolding replant
  replant-IsEmptied n top e = absurd (omega (arith, e))
  replant-IsEmptied n (up m i p) e =
      let (up_to, len) = replant_len 1 (record m { edges = set m.edges i n }) p in
      (omega (arith, up_to), len ∙ e)

  IsEmptied-or_not :
      (n : LeafNode K V) (p : Parents K V 0) → (0 < root_len 0 1 p) ⊎ IsEmptied (replant 0 n p)
  IsEmptied-or_not n p = zero_or_more (root_len 0 1 p) refl
    where
      zero_or_more : (d : ℕ) → root_len 0 1 p ≡ d → (0 < d) ⊎ IsEmptied (replant 0 n p)
      zero_or_more zero e = inr (replant-IsEmptied n p e)
      zero_or_more (suc d) e = inl (omega arith)

  -- The tree after the pair behind a leaf edge was replaced.
  pub record ReplacesNext (rl : ℕ → ℕ) (kv : K × V) (n : LeafNode K V) (i : ℕ) (p : Parents K V 0)
      (x : K × V) (rest : List (K × V)) : Type (ℓ ⊔ κ) where
    pub root : Root K V
    pub runs : replace_next n i p kv ≡ some (x, root)
    pub content : root_entries root ≡ edge_before n i p ++ kv ∷ rest
    pub filled : IsFilled K V (rl root.height) root.height root.node
    pub emptied : (0 < root_len 0 1 p) ⊎ IsEmptied root

  replace_here :
      (rl : ℕ → ℕ) (kv : K × V) (n : LeafNode K V) (i : ℕ) (p : Parents K V 0) (x : K × V)
      (rest : List (K × V))
      → IsFilledPathWith K V rl 0 p
      → IsFilled K V (path_min_with rl 0 p) 0 n
      → edge_after n i p ≡ x ∷ rest
      → (old : K × V) → get_elem? n i ≡ some old
      → ReplacesNext rl kv n i p x rest
  unfolding replace_next
  replace_here rl kv n i p x rest w f e old get =
      let here : old ∷ (drop (suc i) n ++ entries_after 0 p) ≡ x ∷ rest =
        sym (ap (λ a. a ++ entries_after 0 p) (drop_split n i old get)) ∙ e in
      let behind = rest_of old x (drop (suc i) n ++ entries_after 0 p) rest here in
      record {
        root = replant 0 (set n i kv) p;
        runs =
            rw (get, replace_next)
              (ap (λ a. some (a, replant 0 (set n i kv) p))
                (first_of old x (drop (suc i) n ++ entries_after 0 p) rest here));
        content =
            replant_content_with rl 0 (set n i kv) p w
            ∙ ap (λ a. entries_before 0 p ++ (a ++ entries_after 0 p))
                (set_split n i kv (get_elem?_bound n i get))
            ∙ regroup (entries_before 0 p) (take i n) (drop (suc i) n) (entries_after 0 p)
            ∙ ap (λ a. edge_before n i p ++ kv ∷ a) behind;
        filled =
            replant-IsFilled_with rl 0 (set n i kv) p w
              (omega (arith, f.0, length-set n i kv), omega (arith, f.1, length-set n i kv), tt);
        emptied = IsEmptied-or_not (set n i kv) p;
      }
    where
      regroup : (a c d z : List (K × V)) → a ++ ((c ++ kv ∷ d) ++ z) ≡ (a ++ c) ++ kv ∷ (d ++ z)
      regroup a c d z = simp append_assoc

  replace_above :
      (rl : ℕ → ℕ) (kv : K × V) (n : LeafNode K V) (i : ℕ) (p : Parents K V 0) (x : K × V)
      (rest : List (K × V))
      → IsFilledPathWith K V rl 0 p
      → IsFilled K V (path_min_with rl 0 p) 0 n
      → edge_after n i p ≡ x ∷ rest
      → i ≤ length n
      → get_elem? n i ≡ none
      → ReplacesNext rl kv n i p x rest
  unfolding replace_next
  replace_above rl kv n i p x rest w f e le past =
      let end = drop_beyond n i (get_elem?-none n i past) in
      let e' : entries_after 0 p ≡ x ∷ rest = sym (ap (λ a. a ++ entries_after 0 p) end) ∙ e in
      let r = replace_next_above_lem rl kv 0 p x rest w e' in
      let all : n ≡ take i n =
        sym (take-append-drop i n) ∙ ap (λ a. take i n ++ a) end ∙ append-nil (take i n) in
      record {
        root = replant 0 n r.path;
        runs = rw (past, r.runs, replace_next) refl;
        content =
            replant_content_with rl 0 n r.path r.on_path
            ∙ ap₂ (λ a c. a ++ (n ++ c)) r.before r.after
            ∙ sym (append_assoc (entries_before 0 p) n (kv ∷ rest))
            ∙ ap (λ a. (entries_before 0 p ++ a) ++ kv ∷ rest) all;
        filled = replant-IsFilled_with rl 0 n r.path r.on_path (rw r.same_min f);
        emptied =
            subst (λ d. (0 < d) ⊎ IsEmptied (replant 0 n r.path)) (r.same_len 1)
              (IsEmptied-or_not n r.path);
      }

  -- From a leaf edge with some pair behind it, in a tree that is filled save perhaps for its root,
  -- the next pair is found in the leaf or further up and replaced: the call returns the old pair,
  -- only that pair changes, and the tree is filled as before.
  pub replace_next_lem :
      (rl : ℕ → ℕ) (kv : K × V) (n : LeafNode K V) (i : ℕ) (p : Parents K V 0) (x : K × V)
      (rest : List (K × V))
      → IsFilledPathWith K V rl 0 p
      → IsFilled K V (path_min_with rl 0 p) 0 n
      → i ≤ length n
      → edge_after n i p ≡ x ∷ rest
      → ReplacesNext rl kv n i p x rest
  replace_next_lem rl kv n i p x rest w f le e = elim (Option-cases (get_elem? n i)) [
    | inl past ↦ replace_above rl kv n i p x rest w f e le past
    | inr (old, get) ↦ replace_here rl kv n i p x rest w f e old get
  ]
