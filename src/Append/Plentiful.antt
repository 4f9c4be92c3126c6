-- ===== src/Append/Plentiful.antt =====
-- `fix_right_border_of_plentiful`: the nodes on the right border take pairs of their left siblings.
use btree_monstrousity.Prelude.{
  ℕ, zero, suc, ◌+◌, ◌-◌, ◌≤◌, ◌<◌, ◌≡◌, refl, sym, ap, ap₂, ◌∙◌, subst, lt→ltb, ge→ltb, below,
  List, [], ◌∷◌, ◌++◌, length, take, drop, set, get_elem?, some, ltb, leb, true, inl, inr, arith,
  All, All-append, length-append, length-set, get_elem?_of_lt,
}
use btree_monstrousity.Defined.{Defined, ◌>>=◌}
use btree_monstrousity.Node.{Node, pairs, capacity, min_len}
use btree_monstrousity.Node.Content.{weave, weave_tail, entries, IsFilled}
use btree_monstrousity.Balance.{
  BalancingContext, left_child_len, right_child_len, consider_for_balancing, bulk_steal_left,
  shift_right, store,
}
use btree_monstrousity.Balance.Content.{shift_right_content}
use btree_monstrousity.Balance.Fill.{IsFilled-weaken}
use btree_monstrousity.Balance.Steal.{
  store_content, replaced, replaced_content, bulk_steal_left_runs,
}
use btree_monstrousity.Append.{fix_plentiful}
use btree_monstrousity.Append.Spine.{IsFull, IsOpen, HasPairs, IsFull-IsFilled, All-map, get_length}
use btree_monstrousity.Append.Sibling.{
  set_both, get_both, split_last, steal_left-IsFilled, steal_right-IsOpen,
}

module _ {ℓ κ} (K : Type ℓ) (V : Type κ) where
  has_pairs : (h : ℕ) (n : Node K V h) → min_len ≤ length (pairs h n) → HasPairs K V h n
  has_pairs zero n le = tt
  has_pairs (suc h) n le = omega (arith, le)

  full_len : (h : ℕ) (n : Node K V h) → IsFull K V h n → length (pairs h n) ≡ capacity
  full_len zero n f = f.0
  full_len (suc h) n f = f.0

  -- A node with its right border stocked up.
  pub record Stocked (h : ℕ) (n : Node K V h) (r : Defined (Node K V h)) : Type (ℓ ⊔ κ) where
    pub node : Node K V h
    pub runs : r ≡ some node
    pub content : entries h node ≡ entries h n
    pub as_many : length (pairs h node) ≡ length (pairs h n)
    pub filled : IsFilled K V 0 h node

module _ {ℓ κ} {K : Type ℓ} {V : Type κ} where
  -- The context of the last pair of a node, with a left child that may give pairs.
  record LastPair (h : ℕ) (n : Node K V (suc h)) (init : List (Node K V h))
      (c : BalancingContext K V h) : Type (ℓ ⊔ κ) where
    pub at : c.idx ≡ length init
    pub as_many : length c.parent.kvs ≡ length n.kvs
    pub counted : length n.kvs ≡ suc (length init)
    pub edges_len : length c.parent.edges ≡ suc (length c.parent.kvs)
    pub small : length n.kvs ≤ capacity
    pub before : All (IsFull K V h) init
    pub left : IsFilled K V min_len h c.left_child
    pub right : IsOpen K V h c.right_child
    pub enough : min_len ≤ length (pairs h c.right_child)
    pub stored :
        (r : Node K V h)
        → (store (record c { right_child = r })).edges ≡ init ++ c.left_child ∷ r ∷ []
    pub content : entries (suc h) (store c) ≡ entries (suc h) n

  Stocked-child :
      (h : ℕ) (n : Node K V (suc h)) (init : List (Node K V h)) (c : BalancingContext K V h)
      → LastPair h n init c
      → Stocked K V h c.right_child (fix_plentiful K V h c.right_child)
      → Stocked K V (suc h) n (
          fix_plentiful K V h c.right_child >>= λ child.
          some (store (record c { right_child = child })))
  unfolding store
  Stocked-child h n init c ok down =
      let c' : BalancingContext K V h = record c { right_child = down.node } in
      let (kv, get) =
        get_elem?_of_lt c.parent.kvs c.idx (omega (arith, ok.at, ok.as_many, ok.counted)) in
      let full : All (IsFilled K V min_len h) (init ++ c.left_child ∷ down.node ∷ []) =
        All-append (IsFilled K V min_len h) init (c.left_child ∷ down.node ∷ [])
          (All-map (λ m f. IsFull-IsFilled K V min_len h m (omega arith) f) init ok.before)
          (
            ok.left,
            (
              IsFilled-weaken K V 0 min_len h down.node down.filled
                  (omega (arith, down.as_many, ok.enough)),
              tt,
            ),
          ) in
      let two = length-append init (c.left_child ∷ down.node ∷ []) in
      let long = ap length (ok.stored down.node) in
      record {
        node = store c';
        runs = rw (down.runs, ◌>>=◌) refl;
        content =
            store_content h c' kv get ok.edges_len
            ∙ ap
                (λ es.
                  weave (entries h) (take c.idx c.parent.kvs) (take c.idx c.parent.edges)
                  ++ ((entries h c.left_child ++ kv ∷ es)
                      ++ weave_tail (entries h) (drop (suc c.idx) c.parent.kvs)
                          (drop (suc (suc c.idx)) c.parent.edges)))
                down.content
            ∙ sym (store_content h c kv get ok.edges_len)
            ∙ ok.content;
        as_many = ok.as_many;
        filled = (
          omega arith,
          omega (arith, ok.as_many, ok.small),
          omega (arith, ok.as_many, ok.counted, two, long),
          subst (All (IsFilled K V min_len h)) (sym (ok.stored down.node)) full,
        );
      }

  -- The context that `consider_for_balancing` makes of the last pair.
  abbrev last_context :
      (h : ℕ) → Node K V (suc h) → Node K V h → Node K V h → BalancingContext K V h
  last_context h n left last = record {
    parent = n;
    idx = length n.kvs - 1;
    left_child = left;
    right_child = last;
  }

  -- A node whose last two children are known.
  record Known (h : ℕ) (n : Node K V (suc h)) (init : List (Node K V h)) (left last : Node K V h)
      : Type (ℓ ⊔ κ) where
    pub edges : n.edges ≡ init ++ left ∷ last ∷ []
    pub counted : length n.kvs ≡ suc (length init)
    pub small : length n.kvs ≤ capacity
    pub before : All (IsFull K V h) init
    pub left_full : IsFull K V h left
    pub last_open : IsOpen K V h last

  module _ (h : ℕ) (n : Node K V (suc h)) (init : List (Node K V h)) (left last : Node K V h)
      (ok : Known h n init left last) where
    idx_at : length n.kvs - 1 ≡ length init
    idx_at = omega (arith, ok.counted)

    stored_both :
        (l r : Node K V h)
        → set (set n.edges (length n.kvs - 1) l) (suc (length n.kvs - 1)) r ≡ init ++ l ∷ r ∷ []
    stored_both l r =
        ap (λ es. set (set es (length n.kvs - 1) l) (suc (length n.kvs - 1)) r) ok.edges
        ∙ ap (λ k. set (set (init ++ left ∷ last ∷ []) k l) (suc k) r) idx_at
        ∙ set_both init left last l r

    considered : consider_for_balancing n (length n.kvs - 1) ≡ some (last_context h n left last)
    unfolding consider_for_balancing
    considered =
        let l : get_elem? n.edges (length n.kvs - 1) ≡ some left =
          ap₂ get_elem? ok.edges idx_at ∙ get_length init left (last ∷ []) in
        let r : get_elem? n.edges (suc (length n.kvs - 1)) ≡ some last =
          ap₂ get_elem? ok.edges (ap suc idx_at) ∙ get_both init left last in
        rw (l, r, ◌>>=◌) refl

    store_same : entries (suc h) (store (last_context h n left last)) ≡ entries (suc h) n
    unfolding store
    store_same = ap (weave (entries h) n.kvs) (stored_both left last ∙ sym ok.edges)

    edges_counted : length n.edges ≡ suc (length n.kvs)
    edges_counted =
        omega (arith, ap length ok.edges, length-append init (left ∷ last ∷ []), ok.counted)

    -- Nothing to steal.
    LastPair-same : min_len ≤ length (pairs h last) → LastPair h n init (last_context h n left last)
    unfolding store
    LastPair-same le = record {
      at = idx_at;
      as_many = refl;
      counted = ok.counted;
      edges_len = edges_counted;
      small = ok.small;
      before = ok.before;
      left = IsFull-IsFilled K V min_len h left (omega arith) ok.left_full;
      right = ok.last_open;
      enough = le;
      stored = λ r. stored_both left r;
      content = store_same;
    }

    -- The last child gets as many pairs as it lacks.
    LastPair-steal :
        length (pairs h last) < min_len
        → (c : BalancingContext K V h) × (bulk_steal_left h
              (last_context h n left last)
              (min_len - length (pairs h last))
            ≡ some c)
          × LastPair h n init c
    unfolding store left_child_len right_child_len
    LastPair-steal less =
        let c = last_context h n left last in
        let count = min_len - length (pairs h last) in
        let m = length (pairs h left) - count in
        let len = full_len K V h left ok.left_full in
        let (kv, get) = get_elem?_of_lt n.kvs c.idx (omega (arith, ok.counted)) in
        let (x, here) = get_elem?_of_lt (pairs h left) m (omega (arith, len, less)) in
        let (l, r) = shift_right h m left kv last in
        let (is_open, enough) =
          steal_right-IsOpen h m left kv last ok.left_full ok.last_open (omega (arith, len, less))
            (omega (arith, len, less)) in
        (
          replaced c x (l, r),
          bulk_steal_left_runs h c count kv x get here (omega (arith, less)) (omega (arith, less))
              (omega (arith, len, less)),
          record {
            at = idx_at;
            as_many = length-set n.kvs c.idx x;
            counted = ok.counted;
            edges_len = omega (arith, edges_counted, length-set n.kvs c.idx x);
            small = ok.small;
            before = ok.before;
            left =
                steal_left-IsFilled h m left kv last ok.left_full (omega (arith, len, less))
                  (omega (arith, len, less));
            right = is_open;
            enough = omega (arith, enough);
            stored = λ r'. stored_both l r';
            content =
                replaced_content h c kv x l r (omega (arith, ok.counted)) get edges_counted (
                  shift_right_content capacity h m left kv x last
                    (IsFull-IsFilled K V capacity h left (omega arith) ok.left_full) here)
                ∙ store_same;
          },
        )

    stocked :
        ((m : Node K V h)
          → IsOpen K V h m
          → HasPairs K V h m
          → Stocked K V h m (fix_plentiful K V h m))
        → Stocked K V (suc h) n (fix_plentiful K V (suc h) n)
    unfolding fix_plentiful left_child_len right_child_len
    stocked down =
        let len = full_len K V h left ok.left_full in
        let two : leb (min_len + min_len) (length (pairs h left)) ≡ true = ground (arith, len) in
        let has : ltb 0 (length n.kvs) ≡ true =
          lt→ltb 0 (length n.kvs) (omega (arith, ok.counted)) in
        let finish = λ (c : BalancingContext K V h) (good : LastPair h n init c).
          Stocked-child h n init c good
            (down c.right_child good.right (has_pairs K V h c.right_child good.enough)) in
        elim (below (length (pairs h last)) min_len) [
          | inl less ↦
              let (c, runs, good) = LastPair-steal less in
              rw (has, considered, ◌>>=◌, two, lt→ltb (length (pairs h last)) min_len less, runs)
                (finish c good)
          | inr more ↦
              rw (has, considered, ◌>>=◌, two, ge→ltb (length (pairs h last)) min_len more)
                (finish (last_context h n left last) (LastPair-same more))
        ]

  pub fix_plentiful_lem :
      (h : ℕ) (n : Node K V h)
      → IsOpen K V h n
      → HasPairs K V h n
      → Stocked K V h n (fix_plentiful K V h n)
  unfolding fix_plentiful
  fix_plentiful_lem zero n (le, _) has = record {
    node = n;
    runs = refl;
    content = refl;
    as_many = refl;
    filled = omega (arith, le);
  }
  fix_plentiful_lem (suc h) n ([], last, e, len, le, full, o) has = absurd (omega (arith, len, has))
  fix_plentiful_lem (suc h) n (x ∷ xs, last, e, len, le, full, o) has =
      let (init, left, same, as_many, before, left_full) =
        split_last (IsFull K V h) x xs last full in
      stocked h n init left last
        (record {
          edges = e ∙ same;
          counted = omega (arith, len, as_many);
          small = le;
          before = before;
          left_full = left_full;
          last_open = o;
        })
        (fix_plentiful_lem h)
