-- ===== src/Append.antt =====
-- append.rs (without the allocator), `MergeIterInner` of merge_iter.rs, `fix_right_border_of_plentiful`
-- of fix.rs and `append` of map.rs. Two sorted maps are merged into a sequence of pairs, which are
-- pushed to the right end of a new tree.
pub mod Spine
pub mod Push
pub mod Sibling
pub mod Plentiful
pub mod Merge
pub mod Sorted
pub mod Whole
pub mod Lookup
use Prim.Native.Nat.Ordering.{lt, eq, gt}
use btree_monstrousity.Prelude.{
  ℕ, zero, suc, ◌+◌, ◌-◌, Bool, true, false, List, [], ◌∷◌, length, set, Option, none, some, ltb,
  leb, Ordering, if◌then◌else◌,
}
use mathlib.Core.Option
use btree_monstrousity.Defined.{Defined, ◌>>=◌, assert}
use btree_monstrousity.Node.{LeafNode, Node, Root, Parents, top, up, replant, capacity, min_len}
use btree_monstrousity.Balance.{
  BalancingContext, consider_for_balancing, left_child_len, right_child_len, bulk_steal_left, store,
}
use btree_monstrousity.Remove.{last_leaf_edge}
use btree_monstrousity.Map.{BTreeMap, new, is_empty}
use btree_monstrousity.Iter.{iter, collect}
use btree_monstrousity.Clone.{leaf_push, internal_push, push_internal_level}

-- An iterator that merges two others, which stand as the lists of what they still yield.
pub data Peeked {ℓ} (A : Type ℓ) : Type ℓ where
  from_a : A → Peeked A
  from_b : A → Peeked A

pub record MergeIterInner {ℓ} (A : Type ℓ) : Type ℓ where
  pub a : List A
  pub b : List A
  pub peeked : Option (Peeked A)

module _ {ℓ} {A : Type ℓ} where
  abbrev pub uncons : List A → Option A × List A
  uncons [] = (none, [])
  uncons (x ∷ xs) = (some x, xs)

  -- The next item of each source.
  unfoldable pub next_of_both : MergeIterInner A → Option A × Option A × List A × List A
  next_of_both m = elim m.peeked [
    | some (Peeked.from_a x) ↦ let (y, b) = uncons m.b in (some x, y, m.a, b)
    | some (Peeked.from_b y) ↦ let (x, a) = uncons m.a in (x, some y, a, m.b)
    | none ↦ let (x, a) = uncons m.a in let (y, b) = uncons m.b in (x, y, a, b)
  ]

  -- The later of two unequal items is kept for the next call.
  unfoldable pub settle :
      (A → A → Ordering)
      → Option A
      → Option A
      → List A
      → List A
      → Option A × Option A × MergeIterInner A
  settle cmp (some x) (some y) a b = elim (cmp x y) [
    | lt ↦ (some x, none, record { a = a; b = b; peeked = some (Peeked.from_b y) })
    | gt ↦ (none, some y, record { a = a; b = b; peeked = some (Peeked.from_a x) })
    | eq ↦ (some x, some y, record { a = a; b = b; peeked = none })
  ]
  settle cmp (some x) none a b = (some x, none, record { a = a; b = b; peeked = none })
  settle cmp none y a b = (none, y, record { a = a; b = b; peeked = none })

  unfoldable pub nexts :
      (A → A → Ordering) → MergeIterInner A → Option A × Option A × MergeIterInner A
  unfolding next_of_both settle
  nexts cmp m = let (x, y, a, b) = next_of_both m in settle cmp x y a b

  -- `next` of `MergeIter`: of two equal items the one of the right source.
  unfoldable pub merge_next : (A → A → Ordering) → MergeIterInner A → Option A × MergeIterInner A
  unfolding nexts
  merge_next cmp m =
      let (x, y, m') = nexts cmp m in elim y [ some y ↦ (some y, m') | none ↦ (x, m') ]

  -- All that a merging iterator yields, with fuel for the calls.
  unfoldable pub drain : (A → A → Ordering) → ℕ → MergeIterInner A → Defined (List A)
  drain cmp zero m = none
  drain cmp (suc fuel) m =
      let (x, m') = merge_next cmp m in
      let rest = drain cmp fuel m' in
      elim x [ none ↦ some [] | some x ↦ rest >>= λ xs. some (x ∷ xs) ]

module _ {ℓ κ} (K : Type ℓ) (V : Type κ) where
  -- A tree of the height of an open node's children, without pairs.
  unfoldable pub right_tree : (h : ℕ) → Node K V h
  right_tree zero = []
  right_tree (suc h) = push_internal_level h (right_tree h)

  -- `fix_right_border_of_plentiful` from a node down; `last_kv` of a node without pairs panics.
  unfoldable pub fix_plentiful : (h : ℕ) → Node K V h → Defined (Node K V h)
  fix_plentiful zero n = some n
  fix_plentiful (suc h) n = assert (ltb 0 (length n.kvs)) >>= λ _.
      consider_for_balancing n (length n.kvs - 1) >>= λ c.
      assert (leb (min_len + min_len) (left_child_len c)) >>= λ _.
      (if ltb (right_child_len c) min_len
        then bulk_steal_left h c (min_len - right_child_len c)
        else some c)
      >>= λ c'. fix_plentiful h c'.right_child >>= λ child.
          some (store (record c' { right_child = child }))

module _ {ℓ κ} {K : Type ℓ} {V : Type κ} where
  -- The pair and a new right subtree go to an open node; then down to its last leaf.
  unfoldable pub push_open :
      (h : ℕ)
      → Node K V (suc h)
      → Parents K V (suc h)
      → K × V
      → Defined (LeafNode K V × Parents K V 0)
  push_open h open_node p kv = internal_push h open_node kv (right_tree K V h) >>= λ open_node'.
      last_leaf_edge (suc h) open_node' p >>= λ (leaf, i, path). some (leaf, path)

  -- The way up from a full node to one with space left, or to a new root.
  unfoldable pub push_above :
      (h : ℕ) → Node K V h → Parents K V h → K × V → Defined (LeafNode K V × Parents K V 0)
  push_above h n top kv = push_open h (push_internal_level h n) top kv
  push_above h n (up parent i q) kv =
      let parent' = record parent { edges = set parent.edges i n } in
      let above = push_above (suc h) parent' q kv in
      if ltb (length parent.kvs) capacity then push_open h parent' q kv else above

  -- One round of the loop of `bulk_push`, at the last leaf.
  unfoldable pub push_pair :
      LeafNode K V → Parents K V 0 → K × V → Defined (LeafNode K V × Parents K V 0)
  push_pair n p kv =
      if ltb (length n) capacity
      then (leaf_push n kv >>= λ n'. some (n', p))
      else push_above 0 n p kv

  unfoldable pub push_pairs :
      LeafNode K V → Parents K V 0 → List (K × V) → ℕ → Defined ((LeafNode K V × Parents K V 0) × ℕ)
  push_pairs n p [] len = some ((n, p), len)
  push_pairs n p (kv ∷ kvs) len = push_pair n p kv >>= λ (n', p'). push_pairs n' p' kvs (len + 1)

  unfoldable pub fix_right_border_of_plentiful : Root K V → Defined (Root K V)
  fix_right_border_of_plentiful r =
      fix_plentiful K V r.height r.node >>= λ n. some (record { height = r.height; node = n })

  unfoldable pub bulk_push : Root K V → List (K × V) → ℕ → Defined (Root K V × ℕ)
  bulk_push root kvs len = last_leaf_edge root.height root.node top >>= λ (n, i, p).
      push_pairs n p kvs len >>= λ ((n', p'), len').
      fix_right_border_of_plentiful (replant 0 n' p') >>= λ root'. some (root', len')

  unfoldable pub append_from_sorted_iters :
      Root K V
      → List (K × V)
      → List (K × V)
      → ℕ
      → (K × V → K × V → Ordering)
      → Defined (Root K V × ℕ)
  append_from_sorted_iters root left right len order =
      drain order (suc (length left + length right)) (record { a = left; b = right; peeked = none })
      >>= λ kvs. bulk_push root kvs len

  -- Both maps afterwards. The pairs of both are read off in order, as their iterators yield them.
  unfoldable pub append :
      BTreeMap K V
      → BTreeMap K V
      → (K × V → K × V → Ordering)
      → Defined (BTreeMap K V × BTreeMap K V)
  append m other mega_comp =
      if is_empty other
      then some (m, other)
      else if is_empty m
      then some (other, m)
      else (collect (suc m.length) (iter m) >>= λ left.
          collect (suc other.length) (iter other) >>= λ right.
          append_from_sorted_iters (record { height = 0; node = [] }) left right 0 mega_comp
          >>= λ (root, len). some (record { root = some root; length = len }, new))
