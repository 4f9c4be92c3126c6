-- ===== src/Node/Replant.antt =====
-- A change in place below a path: the content and the fill of the whole tree.
use btree_monstrousity.Prelude.{
  ℕ, suc, ◌≤◌, ◌<◌, ◌≡◌, ap, ap₂, sym, ◌∙◌, List, ◌∷◌, ◌++◌, length, take, drop, take-append-drop,
  length-take, arith, set, set_split, All-set, length-set, append_assoc, append-nil,
}
use btree_monstrousity.Node.{Node, Parents, top, up, min_len, replant}
use btree_monstrousity.Node.Slots.{slice_insert, slice_insert-append_right}
use btree_monstrousity.Node.Content.{
  weave, weave_tail, weave_at, weave-cons, entries, root_entries, entries_before, entries_after,
  IsFilled, IsFilledRoot, IsFilledPath, IsFilledPathWith, path_min, path_min_with, root_min,
}

module _ {ℓ μ} {A : Type ℓ} {E : Type μ} (f : E → List A) (es : List A) (cs : List E) (i : ℕ) where
  -- The content of a node with a child put in at an edge.
  pub weave-set :
      (c : E)
      → i ≤ length es
      → i < length cs
      → weave f es (set cs i c)
        ≡ weave f (take i es) (take i cs) ++ (f c ++ weave_tail f (drop i es) (drop (suc i) cs))
  weave-set c le lt =
      ap₂ (weave f) (sym (take-append-drop i es)) (set_split cs i c lt)
      ∙ weave_at f (take i es) (drop i es) (take i cs) c (drop (suc i) cs)
          (omega (arith, length-take i es, length-take i cs))

  -- The content when a child is split in two with a pair between them.
  pub weave_split_child :
      (l r : E) (x : A)
      → i ≤ length es
      → i < length cs
      → weave f (slice_insert es i x) (slice_insert (set cs i l) (suc i) r)
        ≡ weave f (take i es) (take i cs)
          ++ (f l ++ x ∷ (f r ++ weave_tail f (drop i es) (drop (suc i) cs)))
  weave_split_child l r x le lt =
      let rest = drop (suc i) cs in
      ap (λ xs. weave f (slice_insert es i x) (slice_insert xs (suc i) r)) (set_split cs i l lt)
      ∙ ap (weave f (slice_insert es i x)) (
          slice_insert-append_right (take i cs) (l ∷ rest) (suc i) 1 r
            (omega (arith, length-take i cs)))
      ∙ weave_at f (take i es) (x ∷ drop i es) (take i cs) l (r ∷ rest)
          (omega (arith, length-take i es, length-take i cs))
      ∙ ap (λ t. weave f (take i es) (take i cs) ++ (f l ++ x ∷ t))
          (weave-cons f (drop i es) r rest)

module _ {ℓ κ} {K : Type ℓ} {V : Type κ} (rl : ℕ → ℕ) where
  -- The content of the tree is that of the node between what stands before and behind the path.
  pub replant_content_with :
      (h : ℕ) (n : Node K V h) (p : Parents K V h)
      → IsFilledPathWith K V rl h p
      → root_entries (replant h n p) ≡ entries_before h p ++ (entries h n ++ entries_after h p)
  unfolding replant
  replant_content_with h n top w = sym (append-nil (entries h n))
  replant_content_with h n (up parent i p) (le, (l, c, e, a), w) =
      replant_content_with (suc h) (record parent { edges = set parent.edges i n }) p w
      ∙ ap (λ xs. entries_before (suc h) p ++ (xs ++ entries_after (suc h) p))
          (weave-set (entries h) parent.kvs parent.edges i n le (omega arith))
      ∙ simp append_assoc

  pub replant-IsFilled_with :
      (h : ℕ) (n : Node K V h) (p : Parents K V h)
      → IsFilledPathWith K V rl h p
      → IsFilled K V (path_min_with rl h p) h n
      → IsFilled K V (rl (replant h n p).height) (replant h n p).height (replant h n p).node
  unfolding replant
  replant-IsFilled_with h n top w f = f
  replant-IsFilled_with h n (up parent i p) (le, (l, c, e, a), w) f =
      replant-IsFilled_with (suc h) (record parent { edges = set parent.edges i n }) p w
        (
          l,
          c,
          omega (arith, length-set parent.edges i n),
          All-set (IsFilled K V min_len h) parent.edges i n f a,
        )

module _ {ℓ κ} {K : Type ℓ} {V : Type κ} where
  pub replant_content :
      (h : ℕ) (n : Node K V h) (p : Parents K V h)
      → IsFilledPath K V h p
      → root_entries (replant h n p) ≡ entries_before h p ++ (entries h n ++ entries_after h p)
  replant_content = replant_content_with root_min

  pub replant-IsFilled :
      (h : ℕ) (n : Node K V h) (p : Parents K V h)
      → IsFilledPath K V h p
      → IsFilled K V (path_min h p) h n
      → IsFilledRoot K V (replant h n p)
  replant-IsFilled = replant-IsFilled_with root_min
