-- ===== src/Range/Edge.antt =====
-- A node on the way down and the edge of a bound in it, with what both know of the whole tree.
use btree_monstrousity.Prelude.{
  ℕ, zero, suc, ◌-◌, ◌≤◌, ◌<◌, ◌≡◌, sym, ap, ◌∙◌, subst, ◌⊎◌, inl, inr, List, [], ◌∷◌, ◌++◌, length,
  drop, get_elem?, some, Ordering, arith, All, All-get_elem?, All-append_left, All-append_right,
  append_assoc, get_elem?_of_lt, below,
}
use btree_monstrousity.Order.{IsCut, IsSorted, IsFront, IsBack}
use btree_monstrousity.Order.Cut.{IsBack-of_ne_gt, IsFront-of_ne_lt, IsSorted-append_right}
use btree_monstrousity.Node.{Node, Root, Parents, top, up, pairs, min_len}
use btree_monstrousity.Node.Content.{
  weave_tail, entries, root_entries, entries_before, entries_after, kv_before, kv_after,
  entries_split, IsFilled, IsFilledPath, path_min,
}
use btree_monstrousity.Node.Replant.{replant_content}
use btree_monstrousity.Remove.Next.{before_child}
use btree_monstrousity.Map.View.{handle_content}
use btree_monstrousity.Navigate.Linked.{IsLinked, root_above, replant-IsLinked}
use btree_monstrousity.Search.{SearchBound}
use btree_monstrousity.Search.Divide.{IsWithinUpper, IsPastUpper}
use btree_monstrousity.Range.Narrow.{Narrows, IsBoundEdge}
use btree_monstrousity.Range.Sides.{
  edge_front, edge_back, edge_front-zero, edge_front-suc, edge_back-kv, edge_back-end, IsBack-left,
  IsFront-right, within_upto, past_onward,
}

module _ {ℓ κ} {K : Type ℓ} {V : Type κ} where
  -- A filled node of the tree under `root`.
  pub record IsIn (root : Root K V) (h : ℕ) (n : Node K V h) (p : Parents K V h)
      : Type (ℓ ⊔ κ) where
    pub linked : IsLinked h n p
    pub of_root : root_above h n p ≡ root
    pub filled : IsFilled K V (path_min h p) h n
    pub on_path : IsFilledPath K V h p

  pub IsIn-child :
      (root : Root K V) (h : ℕ) (n : Node K V (suc h)) (i : ℕ) (p : Parents K V (suc h))
      (c : Node K V h)
      → IsIn root (suc h) n p
      → i ≤ length n.kvs
      → get_elem? n.edges i ≡ some c
      → IsIn root h c (up n i p)
  IsIn-child root h n i p c ok le get = record {
    linked = (get, ok.linked);
    of_root = ok.of_root;
    filled = All-get_elem? (IsFilled K V min_len h) n.edges i ok.filled.3 get;
    on_path = (le, ok.filled, ok.on_path);
  }

  pub IsIn-content :
      (root : Root K V) (h : ℕ) (n : Node K V h) (p : Parents K V h)
      → IsIn root h n p
      → root_entries root ≡ entries_before h p ++ (entries h n ++ entries_after h p)
  IsIn-content root h n p ok =
      ap root_entries (sym (replant-IsLinked h n p ok.linked ∙ ok.of_root))
      ∙ replant_content h n p ok.on_path

  pub IsIn-kv :
      (root : Root K V) (h : ℕ) (n : Node K V h) (k : ℕ) (p : Parents K V h) (x : K × V)
      → IsIn root h n p
      → get_elem? (pairs h n) k ≡ some x
      → root_entries root
        ≡ (entries_before h p ++ kv_before h n k) ++ x ∷ (kv_after h n k ++ entries_after h p)
  IsIn-kv root h n k p x ok get =
      ap root_entries (sym (replant-IsLinked h n p ok.linked ∙ ok.of_root))
      ∙ handle_content h n k p x ok.filled ok.on_path get

module _ {ℓ κ μ} {K : Type ℓ} {V : Type κ} (before : K → K → Type μ) (comp : K → Ordering)
    (cut : IsCut before comp) (goal : SearchBound) (root : Root K V)
    (sorted : IsSorted before (root_entries root)) where
  -- A bound says of a key what the bound of the search says.
  abbrev pub Agrees : SearchBound → List (K × V) → Type 0
  Agrees b xs =
      All
        (λ x.
          (IsWithinUpper comp b x.0 → IsWithinUpper comp goal x.0)
          × (IsPastUpper comp b x.0 → IsPastUpper comp goal x.0))
        xs

  abbrev pub AllWithin : List (K × V) → Type 0
  AllWithin xs = All (λ x. IsWithinUpper comp goal x.0) xs

  abbrev pub AllPast : List (K × V) → Type 0
  AllPast xs = All (λ x. IsPastUpper comp goal x.0) xs

  abbrev pub ChildAgrees : SearchBound → (h : ℕ) → Node K V h → ℕ → Type (ℓ ⊔ κ)
  ChildAgrees b zero n i = Unit
  ChildAgrees b (suc h) n i =
      (c : Node K V h) × (get_elem? n.edges i ≡ some c) × Agrees b (entries h c)

  -- The edge of the bound of the search: all in front of it is within, and all behind it past.
  pub record IsSide (b : SearchBound) (h : ℕ) (n : Node K V h) (i : ℕ) (p : Parents K V h)
      : Type (ℓ ⊔ κ) where
    pub is_in : IsIn root h n p
    pub inside : i ≤ length (pairs h n)
    pub front : AllWithin (edge_front h n i p)
    pub back : AllPast (edge_back h n i p)
    pub child : ChildAgrees b h n i

  Agrees-at :
      (b : SearchBound) (h : ℕ) (n : Node K V h) (p : Parents K V h) (k : ℕ) (x : K × V)
      → IsIn root h n p
      → Agrees b (entries h n)
      → get_elem? (pairs h n) k ≡ some x
      → (IsWithinUpper comp b x.0 → IsWithinUpper comp goal x.0)
        × (IsPastUpper comp b x.0 → IsPastUpper comp goal x.0)
  Agrees-at b h n p k x ok a get =
      (All-append_right
        (λ x.
          (IsWithinUpper comp b x.0 → IsWithinUpper comp goal x.0)
          × (IsPastUpper comp b x.0 → IsPastUpper comp goal x.0))
        (kv_before h n k) (x ∷ kv_after h n k)
        (subst (Agrees b) (entries_split (path_min h p) h n k x ok.filled get) a)).0

  front_within :
      (b : SearchBound) (h : ℕ) (n : Node K V h) (k : ℕ) (p : Parents K V h) (x : K × V)
      → IsIn root h n p
      → get_elem? (pairs h n) k ≡ some x
      → IsWithinUpper comp goal x.0
      → AllWithin (edge_front h n (suc k) p)
  front_within b h n k p x ok get w =
      subst AllWithin (sym (edge_front-suc (path_min h p) h n k p x ok.filled get)) (
        within_upto before comp cut goal (entries_before h p ++ kv_before h n k) x
          (kv_after h n k ++ entries_after h p)
          (subst (IsSorted before) (IsIn-kv root h n k p x ok get) sorted) w)

  back_past :
      (b : SearchBound) (h : ℕ) (n : Node K V h) (i : ℕ) (p : Parents K V h) (x : K × V)
      → IsIn root h n p
      → get_elem? (pairs h n) i ≡ some x
      → IsPastUpper comp goal x.0
      → AllPast (edge_back h n i p)
  back_past b h n i p x ok get q = subst AllPast (sym (edge_back-kv h n i p x get)) (
      past_onward before comp cut goal (entries_before h p ++ kv_before h n i) x
        (kv_after h n i ++ entries_after h p)
        (subst (IsSorted before) (IsIn-kv root h n i p x ok get) sorted) q)

  Agrees-child :
      (b : SearchBound) (h : ℕ) (n : Node K V (suc h)) (i : ℕ) (c : Node K V h)
      → length n.edges ≡ suc (length n.kvs)
      → get_elem? n.edges i ≡ some c
      → Agrees b (entries (suc h) n)
      → Agrees b (entries h c)
  Agrees-child b h n i c len get a =
      let P : K × V → Type 0 = λ x.
        (IsWithinUpper comp b x.0 → IsWithinUpper comp goal x.0)
        × (IsPastUpper comp b x.0 → IsPastUpper comp goal x.0) in
      let tail = weave_tail (entries h) (drop i n.kvs) (drop (suc i) n.edges) in
      All-append_left P (entries h c) tail (
        All-append_right P (entries_before h (up n i top)) (entries h c ++ tail)
          (subst (Agrees b) (sym (before_child h i n c top len get)) a))

  -- A child behind the needle, or in front of it, agrees with the bound that takes all of one side.
  behind_needle :
      (b : SearchBound) (xs : List (K × V))
      → b ≡ SearchBound.included
      → Agrees b xs
      → IsBack comp xs
      → Agrees SearchBound.all_excluded xs
  behind_needle SearchBound.included [] e a h = tt
  behind_needle SearchBound.included (x ∷ xs) e a h =
      ((λ w. absurd w, λ q. a.0.1 h.0), behind_needle SearchBound.included xs e a.1 h.1)
  behind_needle SearchBound.excluded xs e a h = absurd (let t = e in cc)
  behind_needle SearchBound.all_included xs e a h = absurd (let t = e in cc)
  behind_needle SearchBound.all_excluded xs e a h = absurd (let t = e in cc)

  before_needle :
      (b : SearchBound) (xs : List (K × V))
      → b ≡ SearchBound.excluded
      → Agrees b xs
      → IsFront comp xs
      → Agrees SearchBound.all_included xs
  before_needle SearchBound.excluded [] e a h = tt
  before_needle SearchBound.excluded (x ∷ xs) e a h =
      ((λ w. a.0.0 h.0, λ q. absurd q), before_needle SearchBound.excluded xs e a.1 h.1)
  before_needle SearchBound.included xs e a h = absurd (let t = e in cc)
  before_needle SearchBound.all_included xs e a h = absurd (let t = e in cc)
  before_needle SearchBound.all_excluded xs e a h = absurd (let t = e in cc)

  child_content :
      (h : ℕ) (n : Node K V (suc h)) (i : ℕ) (p : Parents K V (suc h)) (c : Node K V h)
      → IsIn root (suc h) n p
      → i ≤ length n.kvs
      → get_elem? n.edges i ≡ some c
      → IsSorted before (edge_front (suc h) n i p ++ (entries h c ++ edge_back (suc h) n i p))
  child_content h n i p c ok le get =
      subst (IsSorted before)
        (IsIn-content root h c (up n i p) (IsIn-child root h n i p c ok le get)) sorted

  pub Agrees-narrow :
      (b b' : SearchBound) (h : ℕ) (n : Node K V (suc h)) (i : ℕ) (p : Parents K V (suc h))
      (c : Node K V h)
      → IsIn root (suc h) n p
      → get_elem? n.edges i ≡ some c
      → Agrees b (entries (suc h) n)
      → Narrows comp n.kvs b (i, b')
      → Agrees b' (entries h c)
  Agrees-narrow b b' h n i p c ok get a (le, inl e) =
      subst (λ x. Agrees x (entries h c)) (sym e) (Agrees-child b h n i c ok.filled.2 get a)
  Agrees-narrow b b' h n i p c ok get a (le, inr (inl (eb, eb', k, x, at, here, same))) =
      let back = edge_back (suc h) n i p in
      let s : IsSorted before
          ((entries_before (suc h) p ++ kv_before (suc h) n k) ++ x ∷ (entries h c ++ back)) =
        subst (IsSorted before)
          (ap (λ a. a ++ (entries h c ++ back))
              (ap (λ j. edge_front (suc h) n j p) at
                ∙ edge_front-suc (path_min (suc h) p) (suc h) n k p x ok.filled here)
            ∙ append_assoc (entries_before (suc h) p ++ kv_before (suc h) n k) (x ∷ [])
                (entries h c ++ back))
          (child_content h n i p c ok le get) in
      let behind =
        IsBack-of_ne_gt before comp cut x (entries h c ++ back)
          (IsSorted-append_right before (entries_before (suc h) p ++ kv_before (suc h) n k)
            (x ∷ (entries h c ++ back)) s)
          (λ g. cc) in
      subst (λ x. Agrees x (entries h c)) (sym eb')
        (behind_needle b (entries h c) eb (Agrees-child b h n i c ok.filled.2 get a)
          (IsBack-left comp (entries h c) back behind))
  Agrees-narrow b b' h n i p c ok get a (le, inr (inr (eb, eb', x, here, same))) =
      let front = edge_front (suc h) n i p in
      let rest = kv_after (suc h) n i ++ entries_after (suc h) p in
      let s : IsSorted before ((front ++ entries h c) ++ x ∷ rest) =
        subst (IsSorted before)
          (ap (λ a. front ++ (entries h c ++ a)) (edge_back-kv (suc h) n i p x here)
            ∙ sym (append_assoc front (entries h c) (x ∷ rest)))
          (child_content h n i p c ok le get) in
      subst (λ x. Agrees x (entries h c)) (sym eb')
        (before_needle b (entries h c) eb (Agrees-child b h n i c ok.filled.2 get a) (
          IsFront-right comp front (entries h c)
            (IsFront-of_ne_lt before comp cut (front ++ entries h c) x rest s (λ l. cc))))

  ChildAgrees-narrow :
      (b b' : SearchBound) (h : ℕ) (n : Node K V h) (i : ℕ) (p : Parents K V h)
      → IsIn root h n p
      → Agrees b (entries h n)
      → Narrows comp (pairs h n) b (i, b')
      → ChildAgrees b' h n i
  ChildAgrees-narrow b b' zero n i p ok a nar = tt
  ChildAgrees-narrow b b' (suc h) n i p ok a nar =
      let (c, get) = get_elem?_of_lt n.edges i (omega (arith, nar.0, ok.filled.2)) in
      (c, get, Agrees-narrow b b' h n i p c ok get a nar)

  -- All in front of the edge of a bound is within it, if that is known outside of the node where the
  -- edge is its first; all behind it is past it, if that is known where the edge is its last.
  pub enter_front :
      (b : SearchBound) (h : ℕ) (n : Node K V h) (start i : ℕ) (p : Parents K V h)
      → IsIn root h n p
      → Agrees b (entries h n)
      → IsBoundEdge before comp cut (pairs h n) b start i
      → (start < i) ⊎ ((i ≡ 0) × AllWithin (entries_before h p))
      → AllWithin (edge_front h n i p)
  enter_front b h n start i p ok a edge (inl less) =
      let k = i - 1 in
      let (x, get) = get_elem?_of_lt (pairs h n) k (omega (arith, less, edge.inside)) in
      let at : suc k ≡ i = omega (arith, less) in
      subst (λ j. AllWithin (edge_front h n j p)) at
        (front_within b h n k p x ok get (
          (Agrees-at b h n p k x ok a get).0
            (edge.last k x (omega (arith, less)) (omega (arith, less)) get)))
  enter_front b h n start i p ok a edge (inr (e, all)) =
      subst (λ j. AllWithin (edge_front h n j p)) (sym e)
        (subst AllWithin (sym (edge_front-zero h n p)) all)

  pub enter_back :
      (b : SearchBound) (h : ℕ) (n : Node K V h) (start i : ℕ) (p : Parents K V h)
      → IsIn root h n p
      → Agrees b (entries h n)
      → IsBoundEdge before comp cut (pairs h n) b start i
      → (i < length (pairs h n)) ⊎ AllPast (entries_after h p)
      → AllPast (edge_back h n i p)
  enter_back b h n start i p ok a edge back = elim (below i (length (pairs h n))) [
    | inl less ↦
        let (x, get) = get_elem?_of_lt (pairs h n) i less in
        back_past b h n i p x ok get ((Agrees-at b h n p i x ok a get).1 (edge.next x get))
    | inr ge ↦ elim back [
      | inl less ↦ absurd (omega (arith, less, ge))
      | inr all ↦ subst AllPast (sym (edge_back-end (path_min h p) h n i p ok.filled ge)) all
    ]
  ]

  pub enter :
      (b b' : SearchBound) (h : ℕ) (n : Node K V h) (start i : ℕ) (p : Parents K V h)
      → IsIn root h n p
      → Agrees b (entries h n)
      → IsBoundEdge before comp cut (pairs h n) b start i
      → Narrows comp (pairs h n) b (i, b')
      → (start < i) ⊎ ((i ≡ 0) × AllWithin (entries_before h p))
      → (i < length (pairs h n)) ⊎ AllPast (entries_after h p)
      → IsSide b' h n i p
  enter b b' h n start i p ok a edge nar front back = record {
    is_in = ok;
    inside = edge.inside;
    front = enter_front b h n start i p ok a edge front;
    back = enter_back b h n start i p ok a edge back;
    child = ChildAgrees-narrow b b' h n i p ok a nar;
  }

  pub down :
      (b : SearchBound) (h : ℕ) (n : Node K V (suc h)) (i : ℕ) (p : Parents K V (suc h))
      → IsSide b (suc h) n i p
      → (c : Node K V h) × (get_elem? n.edges i ≡ some c)
        × IsIn root h c (up n i p)
        × Agrees b (entries h c)
  down b h n i p side =
      let (c, get, a) = side.child in
      (c, get, IsIn-child root h n i p c side.is_in side.inside get, a)
