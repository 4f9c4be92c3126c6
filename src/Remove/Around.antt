-- ===== src/Remove/Around.antt =====
-- A position in a leaf, through a merge of the leaf with a sibling and through a steal: what stands
-- on both sides of the position stays the same.
use btree_monstrousity.Prelude.{
  ℕ, suc, ◌+◌, ◌≤◌, ◌≡◌, sym, ap, ap₂, ◌∙◌, List, [], ◌∷◌, ◌++◌, length, take, drop, get_elem?,
  some, arith, length-drop, append_assoc, get_elem?_split, get_elem?_bound, take-append,
  drop-append, take-append_inside, drop-append_inside,
}
use btree_monstrousity.Node.{LeafNode, InternalNode, Node, Parents, up}
use btree_monstrousity.Node.Content.{weave, weave_tail, entries, entries_before, entries_after}
use btree_monstrousity.Balance.{BalancingContext, merge_parent, shift_right, shift_left, store}
use btree_monstrousity.Balance.Steal.{replaced}
use btree_monstrousity.Fix.Paths.{
  IsCutAt-parent, IsCutAt-replaced, before_right, after_right, before_left, after_left,
  before_merged, after_merged,
}
use btree_monstrousity.Fix.Merge.{SameAround}

module _ {ℓ κ} {K : Type ℓ} {V : Type κ} where
  -- What stands in front of a leaf edge, and what stands behind it.
  abbrev pub edge_before : LeafNode K V → ℕ → Parents K V 0 → List (K × V)
  edge_before n i p = entries_before 0 p ++ take i n

  abbrev pub edge_after : LeafNode K V → ℕ → Parents K V 0 → List (K × V)
  edge_after n i p = drop i n ++ entries_after 0 p

  abbrev pub SameAt :
      LeafNode K V → ℕ → Parents K V 0 → LeafNode K V → ℕ → Parents K V 0 → Type (ℓ ⊔ κ)
  SameAt n i p n' i' p' =
      (edge_before n i p ≡ edge_before n' i' p') × (edge_after n i p ≡ edge_after n' i' p')

  -- Only the content around the path matters.
  pub SameAt-path :
      (n : LeafNode K V) (i : ℕ) (p p' : Parents K V 0) (n' : LeafNode K V) (i' : ℕ)
      (q : Parents K V 0)
      → SameAround 0 p' p
      → SameAt n i p n' i' q
      → SameAt n i p' n' i' q
  SameAt-path n i p p' n' i' q (before, after) (front, back) =
      (ap (λ a. a ++ take i n) before ∙ front, ap (λ a. drop i n ++ a) after ∙ back)

regroup {ℓ} :
    {A : Type ℓ} (a c l w : List A) (x : A)
    → (a ++ c) ++ (l ++ x ∷ w) ≡ (a ++ (c ++ (l ++ x ∷ []))) ++ w
regroup a c l w x = simp append_assoc

-- The leaf is the right child, behind the pair `i` of its parent.
module _ {ℓ κ} {K : Type ℓ} {V : Type κ} (n l : LeafNode K V) (j i : ℕ)
    (parent : InternalNode K V (Node K V 0)) (q : Parents K V 1) (kv : K × V)
    (len : length parent.edges ≡ suc (length parent.kvs)) (get : get_elem? parent.kvs i ≡ some kv)
    (get_l : get_elem? parent.edges i ≡ some l) (stale : LeafNode K V)
    (get_r : get_elem? parent.edges (suc i) ≡ some stale) where
  abbrev left_context : BalancingContext K V 0
  left_context = record { parent = parent; idx = i; left_child = l; right_child = n }

  pub merge_left_at :
      SameAt
        (l ++ kv ∷ n)
        (length l + 1 + j)
        (up (merge_parent 0 left_context (l ++ kv ∷ n)) i q)
        n
        j
        (up parent (suc i) q)
  unfolding merge_parent
  merge_left_at =
      let f = entries {K = K} {V = V} 0 in
      let bound = get_elem?_bound parent.kvs i get in
      let eb = entries_before 1 q in
      let ea = entries_after 1 q in
      let cut = IsCutAt-parent parent.kvs parent.edges i len bound kv l stale get get_l get_r in
      (
        ap₂ (λ a c. (eb ++ a) ++ c)
              (before_merged f parent.kvs parent.edges i len bound (l ++ kv ∷ n))
              (take-append l (kv ∷ n) (length l + 1 + j) (suc j) (omega arith))
            ∙ regroup eb (weave f (take i parent.kvs) (take i parent.edges)) l (take j n) kv
            ∙ sym (ap (λ a. (eb ++ a) ++ take j n) (before_right f cut)),
        ap₂ (λ a c. a ++ (c ++ ea))
            (drop-append l (kv ∷ n) (length l + 1 + j) (suc j) (omega arith))
            (after_merged f parent.kvs parent.edges i len bound (l ++ kv ∷ n)
              ∙ sym (after_right f cut)),
      )

  pub steal_left_at :
      (m : ℕ) (x : K × V)
      → get_elem? l m ≡ some x
      → length l ≡ m + 1
      → let c = replaced left_context x (shift_right 0 m l kv n) in
        SameAt c.right_child (1 + j) (up (store c) (suc i) q) n j (up parent (suc i) q)
  unfolding shift_right store
  steal_left_at m x here last =
      let f = entries {K = K} {V = V} 0 in
      let bound = get_elem?_bound parent.kvs i get in
      let eb = entries_before 1 q in
      let ea = entries_after 1 q in
      let a = weave f (take i parent.kvs) (take i parent.edges) in
      let moved = shift_right 0 m l kv n in
      let d = drop (suc m) l in
      let new = IsCutAt-replaced parent.kvs parent.edges i len bound x moved.0 moved.1 in
      let old = IsCutAt-parent parent.kvs parent.edges i len bound kv l stale get get_l get_r in
      let at : 1 + j ≡ length d + suc j = omega (arith, length-drop (suc m) l) in
      (
        ap₂ (λ b c. (eb ++ b) ++ c) (before_right f new) (take-append d (kv ∷ n) (1 + j) (suc j) at)
            ∙ (simp append_assoc)
            ∙ ap (λ b. eb ++ (a ++ b))
                (sym (append_assoc (take m l) (x ∷ d) (kv ∷ take j n))
                  ∙ ap (λ b. b ++ kv ∷ take j n) (sym (get_elem?_split l m x here)))
            ∙ sym (ap (λ b. (eb ++ b) ++ take j n) (before_right f old) ∙ (simp append_assoc)),
        ap₂ (λ b c. b ++ (c ++ ea)) (drop-append d (kv ∷ n) (1 + j) (suc j) at)
            (after_right f new ∙ sym (after_right f old)),
      )

-- The leaf is the left child, in front of the pair `i` of its parent.
module _ {ℓ κ} {K : Type ℓ} {V : Type κ} (n r : LeafNode K V) (j i : ℕ)
    (parent : InternalNode K V (Node K V 0)) (q : Parents K V 1) (kv : K × V)
    (len : length parent.edges ≡ suc (length parent.kvs)) (get : get_elem? parent.kvs i ≡ some kv)
    (stale : LeafNode K V) (get_l : get_elem? parent.edges i ≡ some stale)
    (get_r : get_elem? parent.edges (suc i) ≡ some r) (in_leaf : j ≤ length n) where
  abbrev right_context : BalancingContext K V 0
  right_context = record { parent = parent; idx = i; left_child = n; right_child = r }

  right_rest :
      let f = entries {K = K} {V = V} 0 in
      let ea = entries_after 1 q in
      weave_tail f (drop i parent.kvs) (drop (suc i) parent.edges) ++ ea
      ≡ kv ∷ (r ++ (weave_tail f (drop (suc i) parent.kvs) (drop (suc (suc i)) parent.edges) ++ ea))
  right_rest =
      let f = entries {K = K} {V = V} 0 in
      let cut =
        IsCutAt-parent parent.kvs parent.edges i len (get_elem?_bound parent.kvs i get) kv stale r
          get get_l get_r in
      ap (λ a. a ++ entries_after 1 q) (after_left f cut)
      ∙ ap (◌∷◌ kv) (
          append_assoc r (weave_tail f (drop (suc i) parent.kvs) (drop (suc (suc i)) parent.edges))
            (entries_after 1 q))

  pub merge_right_at :
      SameAt
        (n ++ kv ∷ r)
        j
        (up (merge_parent 0 right_context (n ++ kv ∷ r)) i q)
        n
        j
        (up parent i q)
  unfolding merge_parent
  merge_right_at =
      let f = entries {K = K} {V = V} 0 in
      let bound = get_elem?_bound parent.kvs i get in
      let eb = entries_before 1 q in
      let ea = entries_after 1 q in
      (
        ap₂ (λ a c. (eb ++ a) ++ c)
            (before_merged f parent.kvs parent.edges i len bound (n ++ kv ∷ r))
            (take-append_inside n (kv ∷ r) j in_leaf),
        ap₂ (λ a c. a ++ (c ++ ea)) (drop-append_inside n (kv ∷ r) j in_leaf)
              (after_merged f parent.kvs parent.edges i len bound (n ++ kv ∷ r))
            ∙ (simp append_assoc)
            ∙ sym (ap (λ a. drop j n ++ a) right_rest),
      )

  pub steal_right_at :
      (m : ℕ) (x : K × V)
      → get_elem? r m ≡ some x
      → let c = replaced right_context x (shift_left 0 m n kv r) in
        SameAt c.left_child j (up (store c) i q) n j (up parent i q)
  unfolding shift_left store
  steal_right_at m x here =
      let f = entries {K = K} {V = V} 0 in
      let bound = get_elem?_bound parent.kvs i get in
      let eb = entries_before 1 q in
      let ea = entries_after 1 q in
      let moved = shift_left 0 m n kv r in
      let d = weave_tail f (drop (suc i) parent.kvs) (drop (suc (suc i)) parent.edges) in
      let new = IsCutAt-replaced parent.kvs parent.edges i len bound x moved.0 moved.1 in
      let old = IsCutAt-parent parent.kvs parent.edges i len bound kv stale r get get_l get_r in
      (
        ap₂ (λ b c. (eb ++ b) ++ c) (before_left f new ∙ sym (before_left f old))
            (take-append_inside n (kv ∷ take m r) j in_leaf),
        ap₂ (λ b c. b ++ (c ++ ea)) (drop-append_inside n (kv ∷ take m r) j in_leaf)
              (after_left f new)
            ∙ (simp append_assoc)
            ∙ ap (λ b. drop j n ++ kv ∷ b)
                (sym (append_assoc (take m r) (x ∷ drop (suc m) r) (d ++ ea))
                  ∙ ap (λ b. b ++ (d ++ ea)) (sym (get_elem?_split r m x here)))
            ∙ sym (ap (λ b. drop j n ++ b) right_rest),
      )
