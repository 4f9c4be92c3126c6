-- ===== src/Range/Between.antt =====
-- The pairs between the two leaf edges of a range of navigate.rs.
use btree_monstrousity.Prelude.{
  ℕ, zero, suc, ◌≤◌, ◌<◌, ◌≡◌, refl, sym, ap, ap₂, ◌∙◌, List, [], ◌∷◌, ◌++◌, length, take, drop,
  get_elem?, none, some, Ordering, arith, append_assoc, All, get_elem?_bound, take-append-drop,
  length-take,
}
use mathlib.Core.Option.{some-injective}
use btree_monstrousity.Node.{Node, Root, Parents, pairs}
use btree_monstrousity.Node.Content.{
  weave, weave_middle, entries, root_entries, entries_before, entries_after, kv_before, IsFilled,
}
use btree_monstrousity.Search.{SearchBound}
use btree_monstrousity.Search.Divide.{IsWithinUpper, IsPastUpper}
use btree_monstrousity.Navigate.{LeafEdge}
use btree_monstrousity.Navigate.Ends.{IsEdge}
use btree_monstrousity.Range.Sides.{edge_front, edge_back}
use btree_monstrousity.Range.Edge.{IsIn, IsIn-content}

-- The pairs up to a later edge of a node, with an earlier pair among them.
module _ {ℓ} {A : Type ℓ} where
  take_between :
      (xs : List A) (i j : ℕ) (x : A)
      → i < j
      → get_elem? xs i ≡ some x
      → (mid : List A) × (take j xs ≡ take i xs ++ x ∷ mid)
  take_between xs i zero x less get = absurd (omega (arith, less))
  take_between [] i (suc j) x less get = absurd (let t : none ≡ some x = get in cc)
  take_between (y ∷ ys) zero (suc j) x less get =
      (take j ys, ap (λ z. z ∷ take j ys) (some-injective y x get))
  take_between (y ∷ ys) (suc i) (suc j) x less get =
      let (mid, e) = take_between ys i j x (omega arith) get in (mid, ap (◌∷◌ y) e)

  take_from : (xs : List A) (i j : ℕ) → i ≤ j → (mid : List A) × (take j xs ≡ take i xs ++ mid)
  take_from xs zero j le = (take j xs, refl)
  take_from xs (suc i) zero le = absurd (omega (arith, le))
  take_from [] (suc i) (suc j) le = ([], refl)
  take_from (y ∷ ys) (suc i) (suc j) le =
      let (mid, e) = take_from ys i j (omega arith) in (mid, ap (◌∷◌ y) e)

module _ {ℓ κ} {K : Type ℓ} {V : Type κ} where
  pub edge_front-between :
      (least h : ℕ) (n : Node K V h) (i j : ℕ) (p : Parents K V h) (x : K × V)
      → IsFilled K V least h n
      → i < j
      → get_elem? (pairs h n) i ≡ some x
      → (mid : List (K × V)) × (edge_front h n j p
          ≡ (entries_before h p ++ kv_before h n i) ++ x ∷ mid)
  edge_front-between least zero n i j p x f less get =
      let (mid, e) = take_between n i j x less get in
      (
        mid,
        ap (λ a. entries_before 0 p ++ a) e
            ∙ sym (append_assoc (entries_before 0 p) (take i n) (x ∷ mid)),
      )
  edge_front-between least (suc h) n i j p x f less get =
      let (mid, e) = take_between n.kvs i j x less get in
      let (mid', e') = take_from n.edges (suc i) j less in
      let bound = get_elem?_bound n.kvs i get in
      let w = kv_before (suc h) n i in
      (
        weave (entries h) mid mid',
        ap₂ (λ a c. entries_before (suc h) p ++ weave (entries h) a c) e e'
            ∙ ap (λ a. entries_before (suc h) p ++ a)
                (weave_middle (entries h) (take i n.kvs) mid x (take (suc i) n.edges) mid'
                  (omega (arith, f.2, bound, length-take i n.kvs, length-take (suc i) n.edges)))
            ∙ sym (append_assoc (entries_before (suc h) p) w (x ∷ weave (entries h) mid mid')),
      )

  pub leaf_content :
      (root : Root K V) (n : Node K V 0) (i : ℕ) (p : Parents K V 0)
      → IsIn root 0 n p
      → root_entries root ≡ edge_front 0 n i p ++ edge_back 0 n i p
  leaf_content root n i p ok =
      IsIn-content root 0 n p ok
      ∙ ap (λ a. entries_before 0 p ++ (a ++ entries_after 0 p)) (sym (take-append-drop i n))
      ∙ ap (λ a. entries_before 0 p ++ a) (append_assoc (take i n) (drop i n) (entries_after 0 p))
      ∙ sym (append_assoc (entries_before 0 p) (take i n) (drop i n ++ entries_after 0 p))

  pub side_IsEdge :
      {root : Root K V} (e : LeafEdge K V)
      → IsIn root 0 e.leaf e.path
      → e.idx ≤ length e.leaf
      → (front back : List (K × V)) → edge_front 0 e.leaf e.idx e.path ≡ front
      → edge_back 0 e.leaf e.idx e.path ≡ back
      → IsEdge root e front back
  side_IsEdge e ok le front back f b = record {
    of_root = (ok.linked, ok.of_root);
    in_leaf = le;
    filled = ok.filled;
    on_path = ok.on_path;
    before = f;
    after = b;
  }

  pub agrees_self :
      (comp : K → Ordering) (b : SearchBound) (xs : List (K × V))
      → All
          (λ x.
            (IsWithinUpper comp b x.0 → IsWithinUpper comp b x.0)
            × (IsPastUpper comp b x.0 → IsPastUpper comp b x.0))
          xs
  agrees_self comp b [] = tt
  agrees_self comp b (x ∷ xs) = ((λ w. w, λ q. q), agrees_self comp b xs)
