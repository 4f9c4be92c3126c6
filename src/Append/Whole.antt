-- ===== src/Append/Whole.antt =====
-- `bulk_push` and `append` as a whole.
use btree_monstrousity.Prelude.{
  ℕ, zero, suc, ◌+◌, ◌≡◌, refl, sym, ap, ◌∙◌, subst, ◌==◌, true, false, inl, inr, Bool-cases, List,
  [], ◌++◌, length, none, some, Ordering, arith,
}
use btree_monstrousity.Defined.{Defined, ◌>>=◌}
use btree_monstrousity.Order.{IsSorted}
use btree_monstrousity.Node.{Node, Root, top, pairs, replant}
use btree_monstrousity.Node.Content.{root_entries, IsFilled, IsFilledRoot, root_min}
use btree_monstrousity.Balance.Fill.{IsFilled-weaken}
use btree_monstrousity.Map.{BTreeMap, new, len, is_empty}
use btree_monstrousity.Map.View.{map_entries, IsMap}
use btree_monstrousity.Iter.Script.{collect-iter}
use btree_monstrousity.Clone.Whole.{no_pairs}
use btree_monstrousity.Append.{
  fix_right_border_of_plentiful, bulk_push, append_from_sorted_iters, append, MergeIterInner,
}
use btree_monstrousity.Append.Spine.{IsOpen, HasPairs, last_leaf_edge-IsOpen, replant-IsOpen}
use btree_monstrousity.Append.Push.{push_pairs_lem}
use btree_monstrousity.Append.Plentiful.{fix_plentiful_lem}
use btree_monstrousity.Append.Merge.{merge, drain_lem, merge-nil, merge_nothing}
use btree_monstrousity.Append.Sorted.{merge-IsSorted, IsPairOrder}

module _ {ℓ κ} (K : Type ℓ) (V : Type κ) where
  root-IsFilled :
      (h : ℕ) (n n' : Node K V h)
      → HasPairs K V h n
      → length (pairs h n') ≡ length (pairs h n)
      → IsFilled K V 0 h n'
      → IsFilled K V (root_min h) h n'
  root-IsFilled zero n n' has e f = f
  root-IsFilled (suc h) n n' has e f = IsFilled-weaken K V 0 1 (suc h) n' f (omega (arith, has, e))

module _ {ℓ κ} {K : Type ℓ} {V : Type κ} where
  -- For a tree that is full but for the nodes on its right border, with a pair in the root if that
  -- is no leaf, `bulk_push` returns: every pair is added at the end, in order and counted, and the
  -- new tree is filled.
  pub bulk_push_lem :
      (root : Root K V) (kvs : List (K × V)) (n : ℕ)
      → IsOpen K V root.height root.node
      → HasPairs K V root.height root.node
      → (root' : Root K V) × (bulk_push root kvs n ≡ some (root', n + length kvs))
        × IsFilledRoot K V root'
        × (root_entries root' ≡ root_entries root ++ kvs)
  unfolding bulk_push fix_right_border_of_plentiful
  bulk_push_lem root kvs n o has =
      let start = last_leaf_edge-IsOpen root.height root.node top o has tt in
      let pushed = push_pairs_lem start.leaf start.path kvs n start.room start.has start.on_path in
      let (o', has', content) =
        replant-IsOpen 0 pushed.leaf pushed.path (pushed.room, refl) pushed.has pushed.on_path in
      let r = replant 0 pushed.leaf pushed.path in
      let fixed = fix_plentiful_lem r.height r.node o' has' in
      (
        record { height = r.height; node = fixed.node },
        rw (start.runs, ◌>>=◌, pushed.runs, fixed.runs) refl,
        root-IsFilled K V r.height r.node fixed.node has' fixed.as_many fixed.filled,
        fixed.content ∙ content ∙ pushed.before ∙ ap (λ a. a ++ kvs) start.before,
      )

module _ {ℓ κ μ} {K : Type ℓ} {V : Type κ} (before : K → K → Type μ) where
  -- Both maps after `append`.
  abbrev pub IsAppended : List (K × V) → Defined (BTreeMap K V × BTreeMap K V) → Type (ℓ ⊔ κ ⊔ μ)
  IsAppended kvs r =
      (m' : BTreeMap K V) × (other' : BTreeMap K V) × (r ≡ some (m', other'))
      × IsMap before m'
      × (map_entries m' ≡ kvs)
      × IsMap before other'
      × (map_entries other' ≡ [])

  empty_entries : (m : BTreeMap K V) → IsMap before m → is_empty m ≡ true → map_entries m ≡ []
  unfolding is_empty len
  empty_entries m ok e =
      no_pairs (map_entries m) (omega (arith, ok.counted, zero_length m.length e))
    where
      zero_length : (n : ℕ) → (n == 0) ≡ true → n ≡ 0
      zero_length n e = ground arith

  module _ (cmp : K × V → K × V → Ordering) (order : IsPairOrder before cmp) where
    append_both :
        (m other : BTreeMap K V)
        → IsMap before m
        → IsMap before other
        → is_empty m ≡ false
        → is_empty other ≡ false
        → IsAppended (merge cmp (map_entries m) (map_entries other)) (append m other cmp)
    unfolding append append_from_sorted_iters new
    append_both m other ok ok' e e' =
        let zs = merge cmp (map_entries m) (map_entries other) in
        let left = collect-iter m (suc m.length) ok (omega arith) in
        let right = collect-iter other (suc other.length) ok' (omega arith) in
        let start : MergeIterInner (K × V) = record {
          a = map_entries m;
          b = map_entries other;
          peeked = none;
        } in
        let all =
          drain_lem cmp (suc (length (map_entries m) + length (map_entries other))) start
            (map_entries m) (map_entries other) refl refl (omega arith) in
        let (root, runs, filled, content) =
          bulk_push_lem (record { height = 0; node = [] }) zs 0 (omega arith, refl) tt in
        (
          record { root = some root; length = 0 + length zs },
          new,
          rw (e, e', left, right, ◌>>=◌, all, runs) refl,
          record {
            filled = filled;
            sorted = subst (IsSorted before) (sym content) (
                merge-IsSorted before cmp order (map_entries m) (map_entries other) ok.sorted
                  ok'.sorted);
            counted = omega (arith, ap length content);
          },
          content,
          record { filled = tt; sorted = tt; counted = refl },
          refl,
        )

    -- For two filled, sorted and counted maps and a comparator of pairs that agrees with the order
    -- of their keys, `append` returns. The first map is then again filled, sorted and counted, and
    -- has the pairs of both merged, of two equal keys that of the second map; the second map is
    -- empty.
    pub append_lem :
        (m other : BTreeMap K V)
        → IsMap before m
        → IsMap before other
        → IsAppended (merge cmp (map_entries m) (map_entries other)) (append m other cmp)
    unfolding append
    append_lem m other ok ok' = elim (Bool-cases (is_empty other)) [
      | inl e' ↦
          let nothing = empty_entries other ok' e' in
          (
            m,
            other,
            rw e' refl,
            ok,
            sym (ap (merge cmp (map_entries m)) nothing ∙ merge-nil cmp (map_entries m)),
            ok',
            nothing,
          )
      | inr e' ↦ elim (Bool-cases (is_empty m)) [
        | inl e ↦
            let nothing = empty_entries m ok e in
            (
              other,
              m,
              rw (e', e) refl,
              ok',
              sym (
                  ap (λ xs. merge cmp xs (map_entries other)) nothing
                  ∙ merge_nothing cmp (map_entries other)),
              ok,
              nothing,
            )
        | inr e ↦ append_both m other ok ok' e e'
      ]
    ]
