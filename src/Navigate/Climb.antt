-- ===== src/Navigate/Climb.antt =====
-- From a leaf edge to the pair next to it, in the leaf or in an ancestor.
use btree_monstrousity.Prelude.{
  ℕ, suc, ◌≤◌, ◌<◌, ◌≡◌, refl, sym, ap, ◌∙◌, subst, inl, inr, lt→ltb, ge→ltb, below, List, [], ◌∷◌,
  ◌++◌, length, take, drop, some, get_elem?_of_lt, append_assoc, append-nil, drop_split,
  drop_beyond, take_beyond,
}
use btree_monstrousity.Node.{LeafNode, Node, Root, Parents, top, up, pairs}
use btree_monstrousity.Node.Content.{
  weave, entries, entries_before, entries_after, kv_after, IsFilledPath,
}
use btree_monstrousity.Remove.Next.{before_child, nothing_behind}
use btree_monstrousity.Remove.Tracking.{before_kv, after_edge}
use btree_monstrousity.Navigate.{LeafEdge, KvHandle, next_kv_from, next_kv}
use btree_monstrousity.Navigate.Linked.{IsLinked, root_above}
use btree_monstrousity.Navigate.Ends.{IsEdge, IsKv}

module _ {ℓ} {A : Type ℓ} where
  pub first_of : (x y : A) (xs ys : List A) → x ∷ xs ≡ y ∷ ys → x ≡ y
  first_of x y xs ys e = cc

  pub rest_of : (x y : A) (xs ys : List A) → x ∷ xs ≡ y ∷ ys → xs ≡ ys
  rest_of x y xs ys e = cc

module _ {ℓ κ} {K : Type ℓ} {V : Type κ} where
  next_kv_here :
      (h : ℕ) (n : Node K V h) (i : ℕ) (p : Parents K V h)
      → i < length (pairs h n)
      → next_kv_from h n i p ≡ some (record { height = h; node = n; idx = i; path = p })
  unfolding next_kv_from
  next_kv_here h n i top lt = rw (lt→ltb i (length (pairs h n)) lt) refl
  next_kv_here h n i (up m j q) lt = rw (lt→ltb i (length (pairs h n)) lt) refl

  next_kv_above :
      (h : ℕ) (n : Node K V h) (i : ℕ) (m : Node K V (suc h)) (j : ℕ) (q : Parents K V (suc h))
      → length (pairs h n) ≤ i
      → next_kv_from h n i (up m j q) ≡ next_kv_from (suc h) m j q
  unfolding next_kv_from
  next_kv_above h n i m j q ge = rw (ge→ltb i (length (pairs h n)) ge) refl

  -- The first pair behind a child `c` in slot `j` of `m`: in `m`, or further up.
  abbrev Reaches :
      (h : ℕ)
      → Node K V h
      → Node K V (suc h)
      → ℕ
      → Parents K V (suc h)
      → K × V
      → List (K × V)
      → Type (ℓ ⊔ κ)
  Reaches h c m j q x rest =
      (k : KvHandle K V) × (next_kv_from (suc h) m j q ≡ some k)
      × IsKv (root_above (suc h) m q) k (entries_before h (up m j q) ++ entries h c) x rest

  in_parent :
      (h : ℕ) (c : Node K V h) (m : Node K V (suc h)) (j : ℕ) (q : Parents K V (suc h)) (x : K × V)
      (rest : List (K × V))
      → IsLinked h c (up m j q)
      → IsFilledPath K V h (up m j q)
      → entries_after h (up m j q) ≡ x ∷ rest
      → j < length m.kvs
      → Reaches h c m j q x rest
  in_parent h c m j q x rest (get, l) (le, f, w) e lt =
      let (y, gy) = get_elem?_of_lt m.kvs j lt in
      let split = sym (after_edge h j m q y gy) ∙ e in
      let tail = kv_after (suc h) m j ++ entries_after (suc h) q in
      (
        record { height = suc h; node = m; idx = j; path = q },
        next_kv_here (suc h) m j q lt,
        record {
          linked = l;
          of_root = refl;
          here = gy ∙ ap some (first_of y x tail rest split);
          filled = f;
          on_path = w;
          before =
              ap (λ a. entries_before (suc h) q ++ a) (sym (before_kv h j m c lt get))
              ∙ sym (
                  append_assoc (entries_before (suc h) q)
                    (weave (entries h) (take j m.kvs) (take j m.edges)) (entries h c));
          after = rest_of y x tail rest split;
        },
      )

  next_kv_climb :
      (h : ℕ) (c : Node K V h) (m : Node K V (suc h)) (j : ℕ) (q : Parents K V (suc h)) (x : K × V)
      (rest : List (K × V))
      → IsLinked h c (up m j q)
      → IsFilledPath K V h (up m j q)
      → entries_after h (up m j q) ≡ x ∷ rest
      → Reaches h c m j q x rest
  next_kv_climb h c m j top x rest l w e = elim (below j (length m.kvs)) [
    | inl lt ↦ in_parent h c m j top x rest l w e lt
    | inr ge ↦
        let none_left =
          sym (ap (λ a. a ++ entries_after (suc h) top) (nothing_behind h j m w.1.2 ge)) ∙ e in
        absurd (let t : [] ≡ x ∷ rest = none_left in cc)
  ]
  next_kv_climb h c m j (up m' j' q) x rest l w e = elim (below j (length m.kvs)) [
    | inl lt ↦ in_parent h c m j (up m' j' q) x rest l w e lt
    | inr ge ↦
        let p = up m' j' q in
        let no_more = nothing_behind h j m w.1.2 ge in
        let (k, run, ok) =
          next_kv_climb (suc h) m m' j' q x rest l.1 w.2
            (sym (ap (λ a. a ++ entries_after (suc h) p) no_more) ∙ e) in
        (
          k,
          next_kv_above (suc h) m j m' j' q ge ∙ run,
          subst (λ a. IsKv (root_above (suc (suc h)) m' q) k a x rest)
              (sym (before_child h j m c p w.1.2 l.0)
                ∙ ap (λ a. entries_before h (up m j p) ++ a)
                    (ap (λ a. entries h c ++ a) no_more ∙ append-nil (entries h c)))
              ok,
        )
  ]

  from_leaf_edge :
      (n : LeafNode K V) (i : ℕ) (p : Parents K V 0) (front : List (K × V)) (x : K × V)
      (rest : List (K × V))
      → IsEdge (root_above 0 n p) (record { leaf = n; idx = i; path = p }) front (x ∷ rest)
      → (k : KvHandle K V) × (next_kv_from 0 n i p ≡ some k)
        × IsKv (root_above 0 n p) k front x rest
  from_leaf_edge n i p front x rest ok = elim (below i (length n)) [
    | inl lt ↦
        let (y, gy) = get_elem?_of_lt n i lt in
        let split = sym (ap (λ a. a ++ entries_after 0 p) (drop_split n i y gy)) ∙ ok.after in
        let tail = drop (suc i) n ++ entries_after 0 p in
        (
          record { height = 0; node = n; idx = i; path = p },
          next_kv_here 0 n i p lt,
          record {
            linked = ok.of_root.0;
            of_root = refl;
            here = gy ∙ ap some (first_of y x tail rest split);
            filled = ok.filled;
            on_path = ok.on_path;
            before = ok.before;
            after = rest_of y x tail rest split;
          },
        )
    | inr ge ↦
        beyond p ok.of_root.0 ok.on_path ge
          (sym (ap (λ a. a ++ entries_after 0 p) (drop_beyond n i ge)) ∙ ok.after)
          (ap (λ a. entries_before 0 p ++ a) (sym (take_beyond n i ge)) ∙ ok.before)
  ]
    where
      beyond :
          (p : Parents K V 0)
          → IsLinked 0 n p
          → IsFilledPath K V 0 p
          → length n ≤ i
          → entries_after 0 p ≡ x ∷ rest
          → entries_before 0 p ++ n ≡ front
          → (k : KvHandle K V) × (next_kv_from 0 n i p ≡ some k)
            × IsKv (root_above 0 n p) k front x rest
      beyond top l w ge e b = absurd (let t : [] ≡ x ∷ rest = e in cc)
      beyond (up m j q) l w ge e b =
          let (k, run, ok) = next_kv_climb 0 n m j q x rest l w e in
          (
            k,
            next_kv_above 0 n i m j q ge ∙ run,
            subst (λ a. IsKv (root_above 1 m q) k a x rest) b ok,
          )

  -- From a leaf edge of a filled tree with a pair behind it, the walk ends at that pair.
  pub next_kv_lem :
      (root : Root K V) (e : LeafEdge K V) (front : List (K × V)) (x : K × V) (rest : List (K × V))
      → IsEdge root e front (x ∷ rest)
      → (k : KvHandle K V) × (next_kv e ≡ some k) × IsKv root k front x rest
  unfolding next_kv
  next_kv_lem root e front x rest ok =
      let same = ok.of_root.1 in
      subst (λ r. (k : KvHandle K V) × (next_kv e ≡ some k) × IsKv r k front x rest) same
        (from_leaf_edge e.leaf e.idx e.path front x rest
          (subst (λ r. IsEdge r e front (x ∷ rest)) (sym same) ok))
