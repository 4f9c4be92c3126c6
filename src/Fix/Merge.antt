-- ===== src/Fix/Merge.antt =====
-- A tracked edge through a merge of its node with a sibling, and through a steal: the content
-- around it stays the same.
use btree_monstrousity.Prelude.{
  ℕ, suc, ◌+◌, ◌≤◌, ◌≡◌, refl, sym, ap, ap₂, ◌∙◌, List, [], ◌∷◌, ◌++◌, length, take, drop,
  get_elem?, some, arith, length-drop, append_assoc, get_elem?_bound,
}
use btree_monstrousity.Node.{InternalNode, Node, Parents, up}
use btree_monstrousity.Node.Content.{
  weave, weave_tail, entries, entries_before, entries_after, entries_split, kv_before, kv_after,
  IsFilled,
}
use btree_monstrousity.Balance.{
  BalancingContext, merge_nodes, merge_parent, shift_right, shift_left, store,
}
use btree_monstrousity.Balance.Steal.{replaced}
use btree_monstrousity.Fix.Paths.{
  before_extended_front, after_extended_front, before_extended_back, after_extended_back,
  IsCutAt-parent, IsCutAt-replaced, before_right, after_right, before_left, after_left,
  before_merged, after_merged,
}

module _ {ℓ κ} {K : Type ℓ} {V : Type κ} where
  -- Two paths with the same content on both sides of their ends.
  abbrev pub SameAround : (h : ℕ) → Parents K V h → Parents K V h → Type (ℓ ⊔ κ)
  SameAround h p q =
      (entries_before h p ≡ entries_before h q) × (entries_after h p ≡ entries_after h q)

-- The node is the right child, behind the pair `i` of its parent.
module _ {ℓ κ} {K : Type ℓ} {V : Type κ} (h : ℕ) (n l : Node K V (suc h)) (j i : ℕ)
    (parent : InternalNode K V (Node K V (suc h))) (q : Parents K V (suc (suc h))) (kv : K × V)
    (len : length parent.edges ≡ suc (length parent.kvs)) (get : get_elem? parent.kvs i ≡ some kv)
    (get_l : get_elem? parent.edges i ≡ some l) (stale : Node K V (suc h))
    (get_r : get_elem? parent.edges (suc i) ≡ some stale)
    (len_l : length l.edges ≡ suc (length l.kvs)) where
  abbrev left_context : BalancingContext K V (suc h)
  left_context = record { parent = parent; idx = i; left_child = l; right_child = n }

  left_before :
      weave (entries (suc h)) (take (suc i) parent.kvs) (take (suc i) parent.edges)
      ≡ weave (entries (suc h)) (take i parent.kvs) (take i parent.edges)
        ++ (entries (suc h) l ++ kv ∷ [])
  left_before = before_right (entries (suc h)) (
      IsCutAt-parent parent.kvs parent.edges i len (get_elem?_bound parent.kvs i get) kv l stale get
        get_l get_r)

  pub merge_left_around :
      (path : Parents K V (suc h))
      → SameAround
          (suc h)
          path
          (up (merge_parent (suc h) left_context (merge_nodes (suc h) l kv n)) i q)
      → SameAround h
          (up (merge_nodes (suc h) l kv n) (length l.kvs + 1 + j) path)
          (up n j (up parent (suc i) q))
  unfolding merge_nodes merge_parent
  merge_left_around path (before, after) =
      let f = entries {K = K} {V = V} (suc h) in
      let bound = get_elem?_bound parent.kvs i get in
      let merged = merge_nodes (suc h) l kv n in
      let eb = entries_before (suc (suc h)) q in
      let ea = entries_after (suc (suc h)) q in
      let w = weave (entries h) (take j n.kvs) (take j n.edges) in
      (
        ap₂ (λ a c. a ++ c)
              (before
                ∙ ap (λ a. eb ++ a) (before_merged f parent.kvs parent.edges i len bound merged))
              (before_extended_front (entries h) l.kvs n.kvs kv l.edges n.edges j
                (length l.kvs + 1 + j) len_l refl)
            ∙ (simp append_assoc)
            ∙ sym (ap (λ a. (eb ++ a) ++ w) left_before),
        ap₂ (λ a c. a ++ c)
            (after_extended_front (entries h) l.kvs n.kvs kv l.edges n.edges j
              (length l.kvs + 1 + j) len_l refl)
            (after ∙ ap (λ a. a ++ ea) (after_merged f parent.kvs parent.edges i len bound merged)),
      )

  pub steal_left_around :
      (least m count : ℕ) (x : K × V)
      → IsFilled K V least (suc h) l
      → get_elem? l.kvs m ≡ some x
      → length l.kvs ≡ m + count
      → let c = replaced left_context x (shift_right (suc h) m l kv n) in
        SameAround h
          (up c.right_child (count + j) (up (store c) (suc i) q))
          (up n j (up parent (suc i) q))
  unfolding shift_right store
  steal_left_around least m count x fl here split =
      let f = entries {K = K} {V = V} (suc h) in
      let bound = get_elem?_bound parent.kvs i get in
      let moved = shift_right (suc h) m l kv n in
      let eb = entries_before (suc (suc h)) q in
      let ea = entries_after (suc (suc h)) q in
      let a = weave f (take i parent.kvs) (take i parent.edges) in
      let w = weave (entries h) (take j n.kvs) (take j n.edges) in
      let wt = weave_tail (entries h) (drop j n.kvs) (drop (suc j) n.edges) in
      let new = IsCutAt-replaced parent.kvs parent.edges i len bound x moved.0 moved.1 in
      let old = IsCutAt-parent parent.kvs parent.edges i len bound kv l stale get get_l get_r in
      let at : count + j ≡ length (drop (suc m) l.kvs) + 1 + j =
        omega (arith, length-drop (suc m) l.kvs, get_elem?_bound l.kvs m here) in
      let filled : length (drop (suc m) l.edges) ≡ suc (length (drop (suc m) l.kvs)) = omega (
        arith,
        length-drop (suc m) l.kvs,
        length-drop (suc m) l.edges,
        get_elem?_bound l.kvs m here,
      ) in
      (
        ap₂ (λ b c. (eb ++ b) ++ c) (before_right f new)
              (before_extended_front (entries h) (drop (suc m) l.kvs) n.kvs kv
                (drop (suc m) l.edges) n.edges j (count + j) filled at)
            ∙ (simp append_assoc)
            ∙ ap (λ b. eb ++ (a ++ b)) (regroup fl here w)
            ∙ sym (ap (λ b. (eb ++ b) ++ w) left_before ∙ (simp append_assoc)),
        ap₂ (λ b c. b ++ (c ++ ea))
            (after_extended_front (entries h) (drop (suc m) l.kvs) n.kvs kv (drop (suc m) l.edges)
              n.edges j (count + j) filled at)
            (after_right f new ∙ sym (after_right f old)),
      )
    where
      regroup :
          IsFilled K V least (suc h) l
          → get_elem? l.kvs m ≡ some x
          → (w : List (K × V))
          → kv_before (suc h) l m ++ x ∷ (kv_after (suc h) l m ++ kv ∷ w)
            ≡ entries (suc h) l ++ kv ∷ w
      regroup fl here w =
          sym (append_assoc (kv_before (suc h) l m) (x ∷ kv_after (suc h) l m) (kv ∷ w))
          ∙ ap (λ b. b ++ kv ∷ w) (sym (entries_split least (suc h) l m x fl here))

-- The node is the left child, in front of the pair `i` of its parent.
module _ {ℓ κ} {K : Type ℓ} {V : Type κ} (h : ℕ) (n r : Node K V (suc h)) (j i : ℕ)
    (parent : InternalNode K V (Node K V (suc h))) (q : Parents K V (suc (suc h))) (kv : K × V)
    (len : length parent.edges ≡ suc (length parent.kvs)) (get : get_elem? parent.kvs i ≡ some kv)
    (stale : Node K V (suc h)) (get_l : get_elem? parent.edges i ≡ some stale)
    (get_r : get_elem? parent.edges (suc i) ≡ some r) (len_n : length n.edges ≡ suc (length n.kvs))
    (in_node : j ≤ length n.kvs) where
  abbrev right_context : BalancingContext K V (suc h)
  right_context = record { parent = parent; idx = i; left_child = n; right_child = r }

  right_after :
      weave_tail (entries (suc h)) (drop i parent.kvs) (drop (suc i) parent.edges)
      ≡ kv
        ∷ (entries (suc h) r
            ++ weave_tail
                (entries (suc h))
                (drop (suc i) parent.kvs)
                (drop (suc (suc i)) parent.edges))
  right_after = after_left (entries (suc h)) (
      IsCutAt-parent parent.kvs parent.edges i len (get_elem?_bound parent.kvs i get) kv stale r get
        get_l get_r)

  right_rest :
      let f = entries {K = K} {V = V} (suc h) in
      let ea = entries_after (suc (suc h)) q in
      weave_tail f (drop i parent.kvs) (drop (suc i) parent.edges) ++ ea
      ≡ kv
        ∷ (f r ++ (weave_tail f (drop (suc i) parent.kvs) (drop (suc (suc i)) parent.edges) ++ ea))
  right_rest =
      let d =
        weave_tail (entries (suc h)) (drop (suc i) parent.kvs) (drop (suc (suc i)) parent.edges) in
      ap (λ a. a ++ entries_after (suc (suc h)) q) right_after
      ∙ ap (◌∷◌ kv) (append_assoc (entries (suc h) r) d (entries_after (suc (suc h)) q))

  pub merge_right_around :
      (path : Parents K V (suc h))
      → SameAround
          (suc h)
          path
          (up (merge_parent (suc h) right_context (merge_nodes (suc h) n kv r)) i q)
      → SameAround h (up (merge_nodes (suc h) n kv r) j path) (up n j (up parent i q))
  unfolding merge_nodes merge_parent
  merge_right_around path (before, after) =
      let f = entries {K = K} {V = V} (suc h) in
      let bound = get_elem?_bound parent.kvs i get in
      let merged = merge_nodes (suc h) n kv r in
      let eb = entries_before (suc (suc h)) q in
      let ea = entries_after (suc (suc h)) q in
      let wt = weave_tail (entries h) (drop j n.kvs) (drop (suc j) n.edges) in
      (
        ap₂ (λ a c. a ++ c)
            (before
              ∙ ap (λ a. eb ++ a) (before_merged f parent.kvs parent.edges i len bound merged))
            (before_extended_back (entries h) n.kvs r.kvs kv n.edges r.edges j j len_n in_node),
        ap₂ (λ a c. a ++ c)
              (after_extended_back (entries h) n.kvs r.kvs kv n.edges r.edges j j len_n in_node)
              (after
                ∙ ap (λ a. a ++ ea) (after_merged f parent.kvs parent.edges i len bound merged))
            ∙ append_assoc wt (kv ∷ f r)
                (weave_tail f (drop (suc i) parent.kvs) (drop (suc (suc i)) parent.edges) ++ ea)
            ∙ sym (ap (λ a. wt ++ a) right_rest),
      )

  pub steal_right_around :
      (least m : ℕ) (x : K × V)
      → IsFilled K V least (suc h) r
      → get_elem? r.kvs m ≡ some x
      → let c = replaced right_context x (shift_left (suc h) m n kv r) in
        SameAround h (up c.left_child j (up (store c) i q)) (up n j (up parent i q))
  unfolding shift_left store
  steal_right_around least m x fr here =
      let f = entries {K = K} {V = V} (suc h) in
      let bound = get_elem?_bound parent.kvs i get in
      let moved = shift_left (suc h) m n kv r in
      let eb = entries_before (suc (suc h)) q in
      let ea = entries_after (suc (suc h)) q in
      let d = weave_tail f (drop (suc i) parent.kvs) (drop (suc (suc i)) parent.edges) in
      let w = weave (entries h) (take j n.kvs) (take j n.edges) in
      let wt = weave_tail (entries h) (drop j n.kvs) (drop (suc j) n.edges) in
      let new = IsCutAt-replaced parent.kvs parent.edges i len bound x moved.0 moved.1 in
      let old = IsCutAt-parent parent.kvs parent.edges i len bound kv stale r get get_l get_r in
      let rb = kv_before (suc h) r m in
      let ra = kv_after (suc h) r m in
      (
        ap₂ (λ b c. (eb ++ b) ++ c) (before_left f new ∙ sym (before_left f old))
            (before_extended_back (entries h) n.kvs (take m r.kvs) kv n.edges (take (suc m) r.edges)
              j j len_n in_node),
        ap₂ (λ b c. b ++ (c ++ ea))
              (after_extended_back (entries h) n.kvs (take m r.kvs) kv n.edges
                (take (suc m) r.edges) j j len_n in_node)
              (after_left f new)
            ∙ append_assoc wt (kv ∷ rb) ((x ∷ (ra ++ d)) ++ ea)
            ∙ ap (λ b. wt ++ kv ∷ (rb ++ x ∷ b)) (append_assoc ra d ea)
            ∙ ap (λ b. wt ++ kv ∷ b) (sym (append_assoc rb (x ∷ ra) (d ++ ea)))
            ∙ ap (λ b. wt ++ kv ∷ (b ++ (d ++ ea)))
                (sym (entries_split least (suc h) r m x fr here))
            ∙ sym (ap (λ b. wt ++ b) right_rest),
      )
