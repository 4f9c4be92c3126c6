-- ===== src/Balance/Steal.antt =====
-- The operations of a balancing context as a whole.
use btree_monstrousity.Prelude.{
  ℕ, suc, ◌+◌, ◌-◌, ◌≤◌, ◌<◌, ◌≡◌, refl, sym, ap, ◌∙◌, ◌∷◌, ◌++◌, length, take, drop, set,
  get_elem?, some, arith, true, ltb, leb, ◌&&◌, length-set, get_elem?_of_lt, take-set, drop-set,
  get_elem?-set_self, append_assoc,
}
use btree_monstrousity.Node.{InternalNode, Node, pairs, capacity}
use btree_monstrousity.Node.Content.{weave, weave_tail, entries, IsFilled}
use btree_monstrousity.Balance.{
  BalancingContext, left_child_len, right_child_len, merge_nodes, shift_right, shift_left,
  merge_parent, do_merge, bulk_steal_left, bulk_steal_right, store,
}
use btree_monstrousity.Balance.Content.{
  two_children_content, merged_child_content, merge_nodes_content, shift_right_content,
  shift_left_content,
}
use btree_monstrousity.Balance.Fill.{
  IsContext, merge_nodes-IsFilled, shift_right-IsFilled, shift_left-IsFilled, length-shift_right,
  length-shift_left,
}

-- The three assertions of a steal.
steal_guard :
    (count to from : ℕ)
    → 0 < count
    → to + count ≤ capacity
    → count ≤ from
    → (ltb 0 count && leb (to + count) capacity && leb count from) ≡ true
steal_guard count to from pos le ge = ground arith

module _ {ℓ κ} {K : Type ℓ} {V : Type κ} where
  -- Two contexts over one parent have the same content if their middles have.
  pub store_content :
      (h : ℕ) (c : BalancingContext K V h) (kv : K × V)
      → get_elem? c.parent.kvs c.idx ≡ some kv
      → length c.parent.edges ≡ suc (length c.parent.kvs)
      → entries (suc h) (store c)
        ≡ weave (entries h) (take c.idx c.parent.kvs) (take c.idx c.parent.edges)
          ++ ((entries h c.left_child ++ kv ∷ entries h c.right_child)
              ++ weave_tail
                  (entries h)
                  (drop (suc c.idx) c.parent.kvs)
                  (drop (suc (suc c.idx)) c.parent.edges))
  unfolding store
  store_content h c kv get len =
      two_children_content (entries h) c.parent.kvs c.parent.edges c.idx c.left_child c.right_child
        kv get len
      ∙ simp append_assoc

  -- The context after the pair of the parent and both children are replaced.
  abbrev pub replaced :
      {h : ℕ} → BalancingContext K V h → K × V → Node K V h × Node K V h → BalancingContext K V h
  replaced c x (l, r) = record {
    parent = record c.parent { kvs = set c.parent.kvs c.idx x };
    idx = c.idx;
    left_child = l;
    right_child = r;
  }

  pub replaced_content :
      (h : ℕ) (c : BalancingContext K V h) (kv x : K × V) (l r : Node K V h)
      → c.idx < length c.parent.kvs
      → get_elem? c.parent.kvs c.idx ≡ some kv
      → length c.parent.edges ≡ suc (length c.parent.kvs)
      → entries h l ++ x ∷ entries h r ≡ entries h c.left_child ++ kv ∷ entries h c.right_child
      → entries (suc h) (store (replaced c x (l, r))) ≡ entries (suc h) (store c)
  replaced_content h c kv x l r bound get len same =
      store_content h (replaced c x (l, r)) x (get_elem?-set_self c.parent.kvs c.idx x bound)
        (omega (arith, length-set c.parent.kvs c.idx x))
      ∙ rw (take-set c.parent.kvs c.idx x, drop-set c.parent.kvs c.idx x, same)
          (sym (store_content h c kv get len))

  merge_parent_content :
      (h : ℕ) (c : BalancingContext K V h) (kv : K × V) (merged : Node K V h)
      → c.idx < length c.parent.kvs
      → get_elem? c.parent.kvs c.idx ≡ some kv
      → length c.parent.edges ≡ suc (length c.parent.kvs)
      → entries h merged ≡ entries h c.left_child ++ kv ∷ entries h c.right_child
      → entries (suc h) (merge_parent h c merged) ≡ entries (suc h) (store c)
  unfolding merge_parent
  merge_parent_content h c kv merged bound get len same =
      let a = weave (entries h) (take c.idx c.parent.kvs) (take c.idx c.parent.edges) in
      let d =
        weave_tail (entries h) (drop (suc c.idx) c.parent.kvs)
          (drop (suc (suc c.idx)) c.parent.edges) in
      merged_child_content (entries h) c.parent.kvs c.parent.edges c.idx merged bound len
      ∙ ap (λ xs. a ++ (xs ++ d)) same
      ∙ sym (store_content h c kv get len)

  pub do_merge_runs :
      (h : ℕ) (c : BalancingContext K V h) (kv : K × V)
      → get_elem? c.parent.kvs c.idx ≡ some kv
      → left_child_len c + 1 + right_child_len c ≤ capacity
      → let merged = merge_nodes h c.left_child kv c.right_child in
        do_merge h c ≡ some (merge_parent h c merged, merged)
  unfolding do_merge
  do_merge_runs h c kv get le =
      rw
        (
          let e : leb (left_child_len c + 1 + right_child_len c) capacity ≡ true = ground arith in
              e,
          get,
        )
        refl

  pub bulk_steal_left_runs :
      (h : ℕ) (c : BalancingContext K V h) (count : ℕ) (kv x : K × V)
      → get_elem? c.parent.kvs c.idx ≡ some kv
      → get_elem? (pairs h c.left_child) (left_child_len c - count) ≡ some x
      → 0 < count
      → right_child_len c + count ≤ capacity
      → count ≤ left_child_len c
      → bulk_steal_left h c count
        ≡ some
            (replaced c x (shift_right h (left_child_len c - count) c.left_child kv c.right_child))
  unfolding bulk_steal_left
  bulk_steal_left_runs h c count kv x get here pos le ge =
      rw (steal_guard count (right_child_len c) (left_child_len c) pos le ge, here, get) refl

  pub bulk_steal_right_runs :
      (h : ℕ) (c : BalancingContext K V h) (count : ℕ) (kv x : K × V)
      → get_elem? c.parent.kvs c.idx ≡ some kv
      → get_elem? (pairs h c.right_child) (count - 1) ≡ some x
      → 0 < count
      → left_child_len c + count ≤ capacity
      → count ≤ right_child_len c
      → bulk_steal_right h c count
        ≡ some (replaced c x (shift_left h (count - 1) c.left_child kv c.right_child))
  unfolding bulk_steal_right
  bulk_steal_right_runs h c count kv x get here pos le ge =
      rw (steal_guard count (left_child_len c) (right_child_len c) pos le ge, here, get) refl

  -- For two filled children around a pair of their parent that fit in one node with that pair,
  -- `do_merge` returns; the pairs of the parent and all below it stay the same and in order, and the
  -- merged child is filled.
  pub do_merge_lem :
      (h a b : ℕ) (c : BalancingContext K V h)
      → IsContext a b c
      → left_child_len c + 1 + right_child_len c ≤ capacity
      → (parent : InternalNode K V (Node K V h)) × (merged : Node K V h) × (do_merge h c
          ≡ some (parent, merged))
        × (entries (suc h) parent ≡ entries (suc h) (store c))
        × IsFilled K V (left_child_len c + 1 + right_child_len c) h merged
  unfolding left_child_len right_child_len
  do_merge_lem h a b c ok le =
      let (kv, get) = get_elem?_of_lt c.parent.kvs c.idx ok.in_parent in
      let merged = merge_nodes h c.left_child kv c.right_child in
      (
        merge_parent h c merged,
        merged,
        do_merge_runs h c kv get le,
        merge_parent_content h c kv merged ok.in_parent get ok.edges
            (merge_nodes_content a h c.left_child kv c.right_child ok.left),
        merge_nodes-IsFilled a b
            (length (pairs h c.left_child) + 1 + length (pairs h c.right_child)) h c.left_child kv
            c.right_child ok.left ok.right le (omega arith),
      )

  -- What a steal leaves: exact lengths, the same index, and a parent in which only the pair at that
  -- index is another one, `x`.
  pub record Stolen {h : ℕ} (c c' : BalancingContext K V h) (x : K × V) (left right : ℕ)
      : Type (ℓ ⊔ κ) where
    pub same_idx : c'.idx ≡ c.idx
    pub same_parent : c'.parent ≡ record c.parent { kvs = set c.parent.kvs c.idx x }
    pub left_len : left_child_len c' ≡ left
    pub right_len : right_child_len c' ≡ right

  -- For two filled children around a pair of their parent and a positive count that the left child
  -- has and the right child has room for, `bulk_steal_left` returns; the pairs of the parent and all
  -- below it stay the same and in order, and the children are filled, the left with exactly `count`
  -- pairs less and the right with exactly `count` more. The index is the same, and the parent
  -- changes only in the pair at that index, which is now the one that stood in the left child
  -- `count` from its end.
  pub bulk_steal_left_lem :
      (h a b : ℕ) (c : BalancingContext K V h) (count : ℕ)
      → IsContext a b c
      → 0 < count
      → right_child_len c + count ≤ capacity
      → count ≤ left_child_len c
      → (c' : BalancingContext K V h) × (bulk_steal_left h c count ≡ some c')
        × (entries (suc h) (store c') ≡ entries (suc h) (store c))
        × IsContext (left_child_len c - count) (right_child_len c + count) c'
        × (x : K × V) × (get_elem? (pairs h c.left_child) (left_child_len c - count) ≡ some x)
        × Stolen c c' x (left_child_len c - count) (right_child_len c + count)
  unfolding left_child_len right_child_len
  bulk_steal_left_lem h a b c count ok pos le ge =
      let m = left_child_len c - count in
      let (kv, get) = get_elem?_of_lt c.parent.kvs c.idx ok.in_parent in
      let (x, here) = get_elem?_of_lt (pairs h c.left_child) m (omega arith) in
      let moved = shift_right h m c.left_child kv c.right_child in
      let (l, r) =
        shift_right-IsFilled a b m m (right_child_len c + count) h c.left_child kv c.right_child
          ok.left ok.right (omega arith) (omega arith) (omega arith) (omega arith) in
      let lens = length-shift_right h m c.left_child kv c.right_child (omega arith) in
      (
        replaced c x moved,
        bulk_steal_left_runs h c count kv x get here pos le ge,
        replaced_content h c kv x moved.0 moved.1 ok.in_parent get ok.edges
            (shift_right_content a h m c.left_child kv x c.right_child ok.left here),
        record {
          in_parent = omega (arith, ok.in_parent, length-set c.parent.kvs c.idx x);
          edges = omega (arith, ok.edges, length-set c.parent.kvs c.idx x);
          left = l;
          right = r;
        },
        x,
        here,
        record {
          same_idx = refl;
          same_parent = refl;
          left_len = omega (arith, lens, ge);
          right_len = omega (arith, lens, ge);
        },
      )

  -- For two filled children around a pair of their parent and a positive count that the right child
  -- has and the left child has room for, `bulk_steal_right` returns; the pairs of the parent and all
  -- below it stay the same and in order, and the children are filled, the right with exactly `count`
  -- pairs less and the left with exactly `count` more. The index is the same, and the parent changes
  -- only in the pair at that index, which is now the one that stood in the right child at `count -
  -- 1`.
  pub bulk_steal_right_lem :
      (h a b : ℕ) (c : BalancingContext K V h) (count : ℕ)
      → IsContext a b c
      → 0 < count
      → left_child_len c + count ≤ capacity
      → count ≤ right_child_len c
      → (c' : BalancingContext K V h) × (bulk_steal_right h c count ≡ some c')
        × (entries (suc h) (store c') ≡ entries (suc h) (store c))
        × IsContext (left_child_len c + count) (right_child_len c - count) c'
        × (x : K × V) × (get_elem? (pairs h c.right_child) (count - 1) ≡ some x)
        × Stolen c c' x (left_child_len c + count) (right_child_len c - count)
  unfolding left_child_len right_child_len
  bulk_steal_right_lem h a b c count ok pos le ge =
      let m = count - 1 in
      let (kv, get) = get_elem?_of_lt c.parent.kvs c.idx ok.in_parent in
      let (x, here) = get_elem?_of_lt (pairs h c.right_child) m (omega arith) in
      let moved = shift_left h m c.left_child kv c.right_child in
      let (l, r) =
        shift_left-IsFilled a b m (left_child_len c + count) (right_child_len c - count) h
          c.left_child kv c.right_child ok.left ok.right (omega arith) (omega arith) (omega arith)
          (omega arith) in
      let lens = length-shift_left h m c.left_child kv c.right_child (omega arith) in
      (
        replaced c x moved,
        bulk_steal_right_runs h c count kv x get here pos le ge,
        replaced_content h c kv x moved.0 moved.1 ok.in_parent get ok.edges
            (shift_left_content a b h m c.left_child kv x c.right_child ok.left ok.right here),
        record {
          in_parent = omega (arith, ok.in_parent, length-set c.parent.kvs c.idx x);
          edges = omega (arith, ok.edges, length-set c.parent.kvs c.idx x);
          left = l;
          right = r;
        },
        x,
        here,
        record {
          same_idx = refl;
          same_parent = refl;
          left_len = omega (arith, lens, ge, pos);
          right_len = omega (arith, lens, ge, pos);
        },
      )
