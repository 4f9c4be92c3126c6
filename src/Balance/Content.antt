-- ===== src/Balance/Content.antt =====
-- What merging and stealing leave of the content of the children, and of the parent.
use btree_monstrousity.Prelude.{
  ℕ, zero, suc, ◌<◌, ◌≡◌, refl, sym, ap, ap₂, ◌∙◌, List, ◌∷◌, ◌++◌, length, take, drop, set,
  get_elem?, some, arith, length-take, length-drop, append_assoc, get_elem?_split, get_elem?_bound,
  set_two,
}
use btree_monstrousity.Node.{Node, pairs}
use btree_monstrousity.Node.Slots.{slice_remove, slice_remove-set}
use btree_monstrousity.Node.Content.{
  weave, weave_tail, weave_middle, weave_at, weave-cons, entries, entries_split, kv_before,
  kv_after, IsFilled,
}
use btree_monstrousity.Balance.{merge_nodes, shift_right, shift_left}

module _ {ℓ κ} {K : Type ℓ} {V : Type κ} (least : ℕ) where
  pub merge_nodes_content :
      (h : ℕ) (l : Node K V h) (kv : K × V) (r : Node K V h)
      → IsFilled K V least h l
      → entries h (merge_nodes h l kv r) ≡ entries h l ++ kv ∷ entries h r
  unfolding merge_nodes
  merge_nodes_content zero l kv r f = refl
  merge_nodes_content (suc h) l kv r f = weave_middle (entries h) l.kvs r.kvs kv l.edges r.edges f.2

  pub shift_right_content :
      (h m : ℕ) (l : Node K V h) (kv x : K × V) (r : Node K V h)
      → IsFilled K V least h l
      → get_elem? (pairs h l) m ≡ some x
      → let (l', r') = shift_right h m l kv r in
        entries h l' ++ x ∷ entries h r' ≡ entries h l ++ kv ∷ entries h r
  unfolding shift_right
  shift_right_content zero m l kv x r f get =
      sym (append_assoc (take m l) (x ∷ drop (suc m) l) (kv ∷ r))
      ∙ ap (λ xs. xs ++ kv ∷ r) (sym (get_elem?_split l m x get))
  shift_right_content (suc h) m l kv x r f get =
      ap (λ xs. weave (entries h) (take m l.kvs) (take (suc m) l.edges) ++ x ∷ xs)
        (weave_middle (entries h) (drop (suc m) l.kvs) r.kvs kv (drop (suc m) l.edges) r.edges (
          omega (
            arith,
            f.2,
            get_elem?_bound l.kvs m get,
            length-drop (suc m) l.kvs,
            length-drop (suc m) l.edges,
          )))
      ∙ sym
          (append_assoc (kv_before (suc h) l m) (x ∷ kv_after (suc h) l m) (kv ∷ entries (suc h) r))
      ∙ ap (λ xs. xs ++ kv ∷ entries (suc h) r) (sym (entries_split least (suc h) l m x f get))

  pub shift_left_content :
      (least' h m : ℕ) (l : Node K V h) (kv x : K × V) (r : Node K V h)
      → IsFilled K V least h l
      → IsFilled K V least' h r
      → get_elem? (pairs h r) m ≡ some x
      → let (l', r') = shift_left h m l kv r in
        entries h l' ++ x ∷ entries h r' ≡ entries h l ++ kv ∷ entries h r
  unfolding shift_left
  shift_left_content least' zero m l kv x r f g get =
      append_assoc l (kv ∷ take m r) (x ∷ drop (suc m) r)
      ∙ ap (λ xs. l ++ kv ∷ xs) (sym (get_elem?_split r m x get))
  shift_left_content least' (suc h) m l kv x r f g get =
      ap (λ xs. xs ++ x ∷ kv_after (suc h) r m)
        (weave_middle (entries h) l.kvs (take m r.kvs) kv l.edges (take (suc m) r.edges) f.2)
      ∙ append_assoc (entries (suc h) l) (kv ∷ kv_before (suc h) r m) (x ∷ kv_after (suc h) r m)
      ∙ ap (λ xs. entries (suc h) l ++ kv ∷ xs) (sym (entries_split least' (suc h) r m x g get))

module _ {ℓ μ} {A : Type ℓ} {E : Type μ} (f : E → List A) (es : List A) (cs : List E) (i : ℕ) where
  -- The content of a parent whose two children next to the pair at `i` are put in.
  pub two_children_content :
      (l r : E) (x : A)
      → get_elem? es i ≡ some x
      → length cs ≡ suc (length es)
      → weave f es (set (set cs i l) (suc i) r)
        ≡ weave f (take i es) (take i cs)
          ++ (f l ++ x ∷ (f r ++ weave_tail f (drop (suc i) es) (drop (suc (suc i)) cs)))
  two_children_content l r x get len =
      let bound = get_elem?_bound es i get in
      let rest = drop (suc (suc i)) cs in
      ap₂ (weave f) (get_elem?_split es i x get) (set_two cs i l r (omega arith))
      ∙ weave_at f (take i es) (x ∷ drop (suc i) es) (take i cs) l (r ∷ rest)
          (omega (arith, length-take i es, length-take i cs))
      ∙ ap (λ xs. weave f (take i es) (take i cs) ++ (f l ++ x ∷ xs))
          (weave-cons f (drop (suc i) es) r rest)

  -- The content of a parent whose two children are replaced by one, with the pair taken out.
  pub merged_child_content :
      (c : E)
      → i < length es
      → length cs ≡ suc (length es)
      → weave f (slice_remove es i) (slice_remove (set cs i c) (suc i))
        ≡ weave f (take i es) (take i cs)
          ++ (f c ++ weave_tail f (drop (suc i) es) (drop (suc (suc i)) cs))
  merged_child_content c bound len =
      ap (weave f (slice_remove es i)) (slice_remove-set cs i c (omega arith))
      ∙ weave_at f (take i es) (drop (suc i) es) (take i cs) c (drop (suc (suc i)) cs)
          (omega (arith, length-take i es, length-take i cs))
