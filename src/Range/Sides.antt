-- ===== src/Range/Sides.antt =====
-- One end of a range on its way down: the edge of a bound in a node, what stands on both sides of
-- it, and the bound that is left for the child.
use btree_monstrousity.Prelude.{
  ℕ, zero, suc, ◌≤◌, ◌≡◌, sym, ap, ◌∙◌, inl, inr, List, [], ◌∷◌, ◌++◌, length, take, get_elem?,
  some, Ordering, All, All-append_right, append_assoc, append-nil, get_elem?_bound, take-suc,
  drop_split, drop_beyond,
}
use btree_monstrousity.Order.{IsCut, IsSorted, IsFront, IsBack}
use btree_monstrousity.Order.Cut.{Ordering-cases, IsSorted-append_right}
use btree_monstrousity.Node.{Node, Parents, up, pairs}
use btree_monstrousity.Node.Content.{
  weave, entries, entries_before, entries_after, kv_before, kv_after, IsFilled,
}
use btree_monstrousity.Remove.Around.{edge_before, edge_after}
use btree_monstrousity.Remove.Next.{nothing_behind}
use btree_monstrousity.Remove.Tracking.{after_edge}
use btree_monstrousity.Navigate.Ends.{with_last}
use btree_monstrousity.Search.{SearchBound}
use btree_monstrousity.Search.Divide.{IsWithinUpper, IsPastUpper}

module _ {ℓ κ} {K : Type ℓ} {V : Type κ} where
  -- The pairs in front of an edge of a node of any height, and those behind it; the child at an edge
  -- of an internal node is in neither.
  abbrev pub edge_front : (h : ℕ) → Node K V h → ℕ → Parents K V h → List (K × V)
  edge_front zero n i p = edge_before n i p
  edge_front (suc h) n i p = entries_before h (up n i p)

  abbrev pub edge_back : (h : ℕ) → Node K V h → ℕ → Parents K V h → List (K × V)
  edge_back zero n i p = edge_after n i p
  edge_back (suc h) n i p = entries_after h (up n i p)

  pub edge_front-zero :
      (h : ℕ) (n : Node K V h) (p : Parents K V h) → edge_front h n 0 p ≡ entries_before h p
  edge_front-zero zero n p = append-nil (entries_before 0 p)
  edge_front-zero (suc h) n p = append-nil (entries_before (suc h) p)

  pub edge_front-suc :
      (least h : ℕ) (n : Node K V h) (k : ℕ) (p : Parents K V h) (x : K × V)
      → IsFilled K V least h n
      → get_elem? (pairs h n) k ≡ some x
      → edge_front h n (suc k) p ≡ (entries_before h p ++ kv_before h n k) ++ x ∷ []
  edge_front-suc least zero n k p x f get =
      ap (λ a. entries_before 0 p ++ a) (take-suc n k x get)
      ∙ sym (append_assoc (entries_before 0 p) (take k n) (x ∷ []))
  edge_front-suc least (suc h) n k p x f get =
      ap (λ a. entries_before (suc h) p ++ weave (entries h) a (take (suc k) n.edges))
        (take-suc n.kvs k x get)
      ∙ ap (λ a. entries_before (suc h) p ++ a)
          (with_last h n k x f.2 (get_elem?_bound n.kvs k get))
      ∙ sym (append_assoc (entries_before (suc h) p) (kv_before (suc h) n k) (x ∷ []))

  pub edge_back-kv :
      (h : ℕ) (n : Node K V h) (i : ℕ) (p : Parents K V h) (x : K × V)
      → get_elem? (pairs h n) i ≡ some x
      → edge_back h n i p ≡ x ∷ (kv_after h n i ++ entries_after h p)
  edge_back-kv zero n i p x get = ap (λ a. a ++ entries_after 0 p) (drop_split n i x get)
  edge_back-kv (suc h) n i p x get = after_edge h i n p x get

  pub edge_back-end :
      (least h : ℕ) (n : Node K V h) (i : ℕ) (p : Parents K V h)
      → IsFilled K V least h n
      → length (pairs h n) ≤ i
      → edge_back h n i p ≡ entries_after h p
  edge_back-end least zero n i p f le = ap (λ a. a ++ entries_after 0 p) (drop_beyond n i le)
  edge_back-end least (suc h) n i p f le =
      ap (λ a. a ++ entries_after (suc h) p) (nothing_behind h i n f.2 le)

  pub IsBack-left :
      (comp : K → Ordering) (xs ys : List (K × V)) → IsBack comp (xs ++ ys) → IsBack comp xs
  IsBack-left comp [] ys h = tt
  IsBack-left comp (x ∷ xs) ys h = (h.0, IsBack-left comp xs ys h.1)

  pub IsFront-right :
      (comp : K → Ordering) (xs ys : List (K × V)) → IsFront comp (xs ++ ys) → IsFront comp ys
  IsFront-right comp [] ys h = h
  IsFront-right comp (x ∷ xs) ys h = IsFront-right comp xs ys h.1

module _ {ℓ μ} {K : Type ℓ} (before : K → K → Type μ) (comp : K → Ordering)
    (cut : IsCut before comp) where
  within_before :
      (b : SearchBound) (a c : K) → before a c → IsWithinUpper comp b c → IsWithinUpper comp b a
  within_before SearchBound.included a c lt_ac w = λ l. w (cut.lt_past a c lt_ac (λ g. cc))
  within_before SearchBound.excluded a c lt_ac w = elim (Ordering-cases (comp a)) [
    | inl l ↦ absurd (let t = cut.lt_past a c lt_ac (λ g. cc) in cc)
    | inr (inl e) ↦ absurd (let t = cut.lt_past a c lt_ac (λ g. cc) in cc)
    | inr (inr g) ↦ g
  ]
  within_before SearchBound.all_included a c lt_ac w = tt
  within_before SearchBound.all_excluded a c lt_ac w = w

  past_behind :
      (b : SearchBound) (a c : K) → before a c → IsPastUpper comp b a → IsPastUpper comp b c
  past_behind SearchBound.included a c lt_ac q = cut.lt_past a c lt_ac (λ g. cc)
  past_behind SearchBound.excluded a c lt_ac q = λ g. (let t = cut.lt_past a c lt_ac q in cc)
  past_behind SearchBound.all_included a c lt_ac q = q
  past_behind SearchBound.all_excluded a c lt_ac q = tt

module _ {ℓ κ μ} {K : Type ℓ} {V : Type κ} (before : K → K → Type μ) (comp : K → Ordering)
    (cut : IsCut before comp) where
  -- All in front of a pair within a bound are within it, and all behind one past it are past it.
  pub within_upto :
      (b : SearchBound) (xs : List (K × V)) (x : K × V) (ys : List (K × V))
      → IsSorted before (xs ++ x ∷ ys)
      → IsWithinUpper comp b x.0
      → All (λ y. IsWithinUpper comp b y.0) (xs ++ x ∷ [])
  within_upto b [] x ys s w = (w, tt)
  within_upto b (y ∷ xs) x ys s w = (
    within_before before comp cut b y.0 x.0
        (All-append_right (λ z. before y.0 z.0) xs (x ∷ ys) s.0).0 w,
    within_upto b xs x ys s.1 w,
  )

  All-past :
      (b : SearchBound) (x : K × V) (ys : List (K × V))
      → All (λ y. before x.0 y.0) ys
      → IsPastUpper comp b x.0
      → All (λ y. IsPastUpper comp b y.0) ys
  All-past b x [] s q = tt
  All-past b x (y ∷ ys) s q = (past_behind before comp cut b x.0 y.0 s.0 q, All-past b x ys s.1 q)

  pub past_onward :
      (b : SearchBound) (xs : List (K × V)) (x : K × V) (ys : List (K × V))
      → IsSorted before (xs ++ x ∷ ys)
      → IsPastUpper comp b x.0
      → All (λ y. IsPastUpper comp b y.0) (x ∷ ys)
  past_onward b xs x ys s q = (q, All-past b x ys (IsSorted-append_right before xs (x ∷ ys) s).0 q)
