-- ===== src/Navigate/Back.antt =====
-- From a leaf edge to the pair in front of it, in the leaf or in an ancestor.
use btree_monstrousity.Prelude.{
  ℕ, zero, suc, ◌-◌, ◌≡◌, refl, sym, ap, ap₂, ◌∙◌, subst, lt→ltb, List, [], ◌∷◌, ◌++◌, take, some,
  arith, get_elem?_of_lt, append_assoc, append-nil, take-suc,
}
use btree_monstrousity.Node.{LeafNode, Node, Root, Parents, top, up}
use btree_monstrousity.Node.Content.{
  weave, entries, entries_before, entries_after, kv_before, IsFilledPath,
}
use btree_monstrousity.Navigate.{LeafEdge, KvHandle, next_back_kv_from, next_back_kv}
use btree_monstrousity.Navigate.Linked.{IsLinked, root_above}
use btree_monstrousity.Navigate.Ends.{IsEdge, IsKv, with_last, with_child}
use btree_monstrousity.Navigate.Climb.{first_of, rest_of}

module _ {ℓ} {A : Type ℓ} where
  front_of : (x y : A) (xs ys : List A) → xs ++ x ∷ [] ≡ ys ++ y ∷ [] → xs ≡ ys
  front_of x y [] [] e = refl
  front_of x y [] (b ∷ []) e = absurd (let s = rest_of x b [] (y ∷ []) e in cc)
  front_of x y [] (b ∷ c ∷ ys) e = absurd (let s = rest_of x b [] (c ∷ (ys ++ y ∷ [])) e in cc)
  front_of x y (a ∷ []) [] e = absurd (let s = rest_of a y (x ∷ []) [] e in cc)
  front_of x y (a ∷ c ∷ xs) [] e = absurd (let s = rest_of a y (c ∷ (xs ++ x ∷ [])) [] e in cc)
  front_of x y (a ∷ xs) (b ∷ ys) e =
      ap₂ (◌∷◌) (first_of a b (xs ++ x ∷ []) (ys ++ y ∷ []) e)
        (front_of x y xs ys (rest_of a b (xs ++ x ∷ []) (ys ++ y ∷ []) e))

  last_of : (x y : A) (xs ys : List A) → xs ++ x ∷ [] ≡ ys ++ y ∷ [] → x ≡ y
  last_of x y [] [] e = first_of x y [] [] e
  last_of x y [] (b ∷ []) e = absurd (let s = rest_of x b [] (y ∷ []) e in cc)
  last_of x y [] (b ∷ c ∷ ys) e = absurd (let s = rest_of x b [] (c ∷ (ys ++ y ∷ [])) e in cc)
  last_of x y (a ∷ []) [] e = absurd (let s = rest_of a y (x ∷ []) [] e in cc)
  last_of x y (a ∷ c ∷ xs) [] e = absurd (let s = rest_of a y (c ∷ (xs ++ x ∷ [])) [] e in cc)
  last_of x y (a ∷ xs) (b ∷ ys) e = last_of x y xs ys (rest_of a b (xs ++ x ∷ []) (ys ++ y ∷ []) e)

  nothing_in : (x : A) (xs : List A) → [] ≡ xs ++ x ∷ [] → ⊥
  nothing_in x [] e = cc
  nothing_in x (a ∷ xs) e = cc

module _ {ℓ κ} {K : Type ℓ} {V : Type κ} where
  next_back_kv_here :
      (h : ℕ) (n : Node K V h) (i : ℕ) (p : Parents K V h)
      → next_back_kv_from h n (suc i) p ≡ some (record { height = h; node = n; idx = i; path = p })
  unfolding next_back_kv_from
  next_back_kv_here h n i top =
      let back : suc i - 1 ≡ i = omega arith in rw (lt→ltb 0 (suc i) (omega arith), back) refl
  next_back_kv_here h n i (up m j q) =
      let back : suc i - 1 ≡ i = omega arith in rw (lt→ltb 0 (suc i) (omega arith), back) refl

  next_back_kv_above :
      (h : ℕ) (n : Node K V h) (m : Node K V (suc h)) (j : ℕ) (q : Parents K V (suc h))
      → next_back_kv_from h n 0 (up m j q) ≡ next_back_kv_from (suc h) m j q
  unfolding next_back_kv_from
  next_back_kv_above h n m j q = refl

  -- The first pair in front of a child `c` in slot `j` of `m`: in `m`, or further up.
  abbrev Reaches :
      (h : ℕ)
      → Node K V h
      → Node K V (suc h)
      → ℕ
      → Parents K V (suc h)
      → List (K × V)
      → K × V
      → Type (ℓ ⊔ κ)
  Reaches h c m j q front x =
      (k : KvHandle K V) × (next_back_kv_from (suc h) m j q ≡ some k)
      × IsKv (root_above (suc h) m q) k front x (entries h c ++ entries_after h (up m j q))

  in_parent :
      (h : ℕ) (c : Node K V h) (m : Node K V (suc h)) (i : ℕ) (q : Parents K V (suc h))
      (front : List (K × V)) (x : K × V)
      → IsLinked h c (up m (suc i) q)
      → IsFilledPath K V h (up m (suc i) q)
      → entries_before h (up m (suc i) q) ≡ front ++ x ∷ []
      → Reaches h c m (suc i) q front x
  in_parent h c m i q front x (get, l) (le, f, w) e =
      let (y, gy) = get_elem?_of_lt m.kvs i (omega (arith, le)) in
      let lead = entries_before (suc h) q ++ kv_before (suc h) m i in
      let split : lead ++ y ∷ [] ≡ front ++ x ∷ [] =
        append_assoc (entries_before (suc h) q) (kv_before (suc h) m i) (y ∷ [])
        ∙ ap (λ a. entries_before (suc h) q ++ a)
            (sym (
              ap (λ a. weave (entries h) a (take (suc i) m.edges)) (take-suc m.kvs i y gy)
              ∙ with_last h m i y f.2 (omega (arith, le))))
        ∙ e in
      (
        record { height = suc h; node = m; idx = i; path = q },
        next_back_kv_here (suc h) m i q,
        record {
          linked = l;
          of_root = refl;
          here = gy ∙ ap some (last_of y x lead front split);
          filled = f;
          on_path = w;
          before = front_of y x lead front split;
          after = sym (with_child h m (suc i) c q get);
        },
      )

  next_back_kv_climb :
      (h : ℕ) (c : Node K V h) (m : Node K V (suc h)) (j : ℕ) (q : Parents K V (suc h))
      (front : List (K × V)) (x : K × V)
      → IsLinked h c (up m j q)
      → IsFilledPath K V h (up m j q)
      → entries_before h (up m j q) ≡ front ++ x ∷ []
      → Reaches h c m j q front x
  next_back_kv_climb h c m (suc i) q front x l w e = in_parent h c m i q front x l w e
  next_back_kv_climb h c m zero top front x l w e = absurd (nothing_in x front e)
  next_back_kv_climb h c m zero (up m' j' q) front x l w e =
      let p = up m' j' q in
      let (k, run, ok) =
        next_back_kv_climb (suc h) m m' j' q front x l.1 w.2
          (sym (append-nil (entries_before (suc h) p)) ∙ e) in
      (
        k,
        next_back_kv_above (suc h) m m' j' q ∙ run,
        subst (λ a. IsKv (root_above (suc (suc h)) m' q) k front x a)
            (sym (with_child h m 0 c p l.0)) ok,
      )

  back_from_leaf_edge :
      (n : LeafNode K V) (i : ℕ) (p : Parents K V 0) (front : List (K × V)) (x : K × V)
      (rest : List (K × V))
      → IsEdge (root_above 0 n p) (record { leaf = n; idx = i; path = p }) (front ++ x ∷ []) rest
      → (k : KvHandle K V) × (next_back_kv_from 0 n i p ≡ some k)
        × IsKv (root_above 0 n p) k front x rest
  back_from_leaf_edge n (suc i) p front x rest ok =
      let (y, gy) = get_elem?_of_lt n i (omega (arith, ok.in_leaf)) in
      let lead = entries_before 0 p ++ take i n in
      let split : lead ++ y ∷ [] ≡ front ++ x ∷ [] =
        append_assoc (entries_before 0 p) (take i n) (y ∷ [])
        ∙ ap (λ a. entries_before 0 p ++ a) (sym (take-suc n i y gy))
        ∙ ok.before in
      (
        record { height = 0; node = n; idx = i; path = p },
        next_back_kv_here 0 n i p,
        record {
          linked = ok.of_root.0;
          of_root = refl;
          here = gy ∙ ap some (last_of y x lead front split);
          filled = ok.filled;
          on_path = ok.on_path;
          before = front_of y x lead front split;
          after = ok.after;
        },
      )
  back_from_leaf_edge n zero top front x rest ok = absurd (nothing_in x front ok.before)
  back_from_leaf_edge n zero (up m j q) front x rest ok =
      let before = sym (append-nil (entries_before 0 (up m j q))) ∙ ok.before in
      let (k, run, at) = next_back_kv_climb 0 n m j q front x ok.of_root.0 ok.on_path before in
      (
        k,
        next_back_kv_above 0 n m j q ∙ run,
        subst (λ a. IsKv (root_above 1 m q) k front x a) ok.after at,
      )

  -- From a leaf edge of a filled tree with a pair in front of it, the walk ends at that pair.
  pub next_back_kv_lem :
      (root : Root K V) (e : LeafEdge K V) (front : List (K × V)) (x : K × V) (rest : List (K × V))
      → IsEdge root e (front ++ x ∷ []) rest
      → (k : KvHandle K V) × (next_back_kv e ≡ some k) × IsKv root k front x rest
  unfolding next_back_kv
  next_back_kv_lem root e front x rest ok =
      let same = ok.of_root.1 in
      subst (λ r. (k : KvHandle K V) × (next_back_kv e ≡ some k) × IsKv r k front x rest) same
        (back_from_leaf_edge e.leaf e.idx e.path front x rest
          (subst (λ r. IsEdge r e (front ++ x ∷ []) rest) (sym same) ok))
