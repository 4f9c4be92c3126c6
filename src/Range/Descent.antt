-- ===== src/Range/Descent.antt =====
-- The common way of both bounds, down to where they part or to a leaf edge that matches both.
use btree_monstrousity.Prelude.{
  ℕ, zero, suc, ◌≤◌, ◌<◌, ◌≡◌, refl, sym, ap, ◌∙◌, subst, ◌⊎◌, inl, inr, List, lt→ltb, ge→ltb, ◌++◌,
  take, drop, take-append-drop, get_elem?, some, Ordering, arith, append_assoc, below,
  get_elem?_of_lt,
}
use btree_monstrousity.Order.{IsCut, IsSorted}
use btree_monstrousity.Node.{Node, Root, Parents, up, pairs}
use btree_monstrousity.Node.Content.{entries, root_entries, entries_before, entries_after}
use btree_monstrousity.Search.{SearchBound, find_lower_bound_index, find_upper_bound_index}
use btree_monstrousity.Range.{Bifurcation, search_tree_for_bifurcation}
use btree_monstrousity.Navigate.{LeafEdge}
use btree_monstrousity.Range.Narrow.{
  flip, flipped, find_lower_bound_index-flip, find_upper_bound_index-Narrows,
  find_upper_bound_index-IsBoundEdge, Narrows, IsBoundEdge,
}
use btree_monstrousity.Range.Sides.{edge_front, edge_back}
use btree_monstrousity.Range.Edge.{
  IsIn, IsIn-child, IsIn-content, Agrees, Agrees-narrow, AllWithin, AllPast, IsSide, enter,
  enter_front, enter_back,
}
use btree_monstrousity.Range.Spread.{IsIn-IsSorted, IsLow, IsHigh, flip-flip}

module _ {ℓ κ μ} {K : Type ℓ} {V : Type κ} (before : K → K → Type μ) (lower upper : K → Ordering)
    (cut_l : IsCut before lower) (cut_u : IsCut before upper) (from to : SearchBound)
    (root : Root K V) (sorted : IsSorted before (root_entries root)) where
  abbrev pub AllBefore : List (K × V) → Type 0
  AllBefore xs = AllWithin before lower cut_l (flip from) root sorted xs

  abbrev pub AllBeyond : List (K × V) → Type 0
  AllBeyond xs = AllPast before upper cut_u to root sorted xs

  -- Where the descent from a node ends.
  pub record Parts (h : ℕ) (n : Node K V h) (p : Parents K V h) (lb ub : SearchBound)
      : Type (ℓ ⊔ κ) where
    pub height : ℕ
    pub node : Node K V height
    pub lower_idx : ℕ
    pub upper_idx : ℕ
    pub path : Parents K V height
    pub lower_bound : SearchBound
    pub upper_bound : SearchBound
    pub runs :
        search_tree_for_bifurcation lower upper h n p lb ub
        ≡ some (Bifurcation.parted height node lower_idx upper_idx path lower_bound upper_bound)
    pub apart : lower_idx < upper_idx
    pub is_low :
        IsLow before lower upper cut_l cut_u from to root sorted lower_bound height node lower_idx
          path
    pub is_high :
        IsHigh before lower upper cut_l cut_u from to root sorted upper_bound height node upper_idx
          path

  pub record Misses (h : ℕ) (n : Node K V h) (p : Parents K V h) (lb ub : SearchBound)
      : Type (ℓ ⊔ κ) where
    pub edge : LeafEdge K V
    pub runs : search_tree_for_bifurcation lower upper h n p lb ub ≡ some (Bifurcation.common edge)
    pub front : List (K × V)
    pub back : List (K × V)
    pub content : root_entries root ≡ front ++ back
    pub before_range : AllBefore front
    pub beyond_range : AllBeyond back

  -- The two edges in one node, as the descent computes them.
  abbrev low_edge : (h : ℕ) → Node K V h → SearchBound → ℕ × SearchBound
  low_edge h n lb = find_upper_bound_index lower (pairs h n) (flip lb) 0

  abbrev high_edge : (h : ℕ) → Node K V h → SearchBound → SearchBound → ℕ × SearchBound
  high_edge h n lb ub = find_upper_bound_index upper (pairs h n) ub (low_edge h n lb).0

  -- The upper edge behind a lower one.
  abbrev above : (h : ℕ) → Node K V h → SearchBound → ℕ × SearchBound → ℕ × SearchBound
  above h n ub low = find_upper_bound_index upper (pairs h n) ub low.0

  abbrev PartsAt :
      (h : ℕ)
      → Node K V h
      → Parents K V h
      → SearchBound
      → SearchBound
      → ℕ × SearchBound
      → Type (ℓ ⊔ κ)
  PartsAt h n p lb ub low =
      low.0 < (above h n ub low).0
      → search_tree_for_bifurcation lower upper h n p lb ub
        ≡ some (Bifurcation.parted h n low.0 (above h n ub low).0 p low.1 (above h n ub low).1)

  parts_at :
      (h : ℕ) (n : Node K V h) (p : Parents K V h) (lb ub : SearchBound)
      → PartsAt h n p lb ub (find_lower_bound_index lower (pairs h n) lb)
  unfolding search_tree_for_bifurcation
  parts_at zero n p lb ub less =
      let low = find_lower_bound_index lower n lb in
      rw (search_tree_for_bifurcation, lt→ltb low.0 (above 0 n ub low).0 less) refl
  parts_at (suc h) n p lb ub less =
      let low = find_lower_bound_index lower n.kvs lb in
      rw (search_tree_for_bifurcation, lt→ltb low.0 (above (suc h) n ub low).0 less) refl

  parted_here :
      (h : ℕ) (n : Node K V h) (p : Parents K V h) (lb ub : SearchBound)
      → PartsAt h n p lb ub (flipped (low_edge h n lb))
  parted_here h n p lb ub less =
      subst (PartsAt h n p lb ub) (find_lower_bound_index-flip lower (pairs h n) lb)
        (parts_at h n p lb ub) less

  abbrev CommonAt :
      Node K V 0 → Parents K V 0 → SearchBound → SearchBound → ℕ × SearchBound → Type (ℓ ⊔ κ)
  CommonAt n p lb ub low =
      (above 0 n ub low).0 ≤ low.0
      → search_tree_for_bifurcation lower upper 0 n p lb ub
        ≡ some (Bifurcation.common (record { leaf = n; idx = low.0; path = p }))

  common_at :
      (n : Node K V 0) (p : Parents K V 0) (lb ub : SearchBound)
      → CommonAt n p lb ub (find_lower_bound_index lower n lb)
  unfolding search_tree_for_bifurcation
  common_at n p lb ub ge =
      let low = find_lower_bound_index lower n lb in
      rw (search_tree_for_bifurcation, ge→ltb low.0 (above 0 n ub low).0 ge) refl

  common_here :
      (n : Node K V 0) (p : Parents K V 0) (lb ub : SearchBound)
      → CommonAt n p lb ub (flipped (low_edge 0 n lb))
  common_here n p lb ub ge =
      subst (CommonAt n p lb ub) (find_lower_bound_index-flip lower n lb) (common_at n p lb ub) ge

  abbrev BelowAt :
      (h : ℕ)
      → Node K V (suc h)
      → Parents K V (suc h)
      → SearchBound
      → SearchBound
      → Node K V h
      → ℕ × SearchBound
      → Type (ℓ ⊔ κ)
  BelowAt h n p lb ub c low =
      (above (suc h) n ub low).0 ≤ low.0
      → get_elem? n.edges low.0 ≡ some c
      → search_tree_for_bifurcation lower upper (suc h) n p lb ub
        ≡ search_tree_for_bifurcation lower upper h c (up n low.0 p) low.1
            (above (suc h) n ub low).1

  below_at :
      (h : ℕ) (n : Node K V (suc h)) (p : Parents K V (suc h)) (lb ub : SearchBound)
      (c : Node K V h)
      → BelowAt h n p lb ub c (find_lower_bound_index lower n.kvs lb)
  unfolding search_tree_for_bifurcation
  below_at h n p lb ub c ge get =
      let low = find_lower_bound_index lower n.kvs lb in
      rw (search_tree_for_bifurcation, ge→ltb low.0 (above (suc h) n ub low).0 ge, get) refl

  common_below :
      (h : ℕ) (n : Node K V (suc h)) (p : Parents K V (suc h)) (lb ub : SearchBound)
      (c : Node K V h)
      → BelowAt h n p lb ub c (flipped (low_edge (suc h) n lb))
  common_below h n p lb ub c ge get =
      subst (BelowAt h n p lb ub c) (find_lower_bound_index-flip lower n.kvs lb)
        (below_at h n p lb ub c) ge get

  module _ (h : ℕ) (n : Node K V h) (p : Parents K V h) (lb ub : SearchBound) (ok : IsIn root h n p)
      (agrees_l : Agrees before lower cut_l (flip from) root sorted (flip lb) (entries h n))
      (agrees_u : Agrees before upper cut_u to root sorted ub (entries h n))
      (front : AllBefore (entries_before h p)) (back : AllBeyond (entries_after h p)) where
    low_edge-Narrows : Narrows lower (pairs h n) (flip lb) (low_edge h n lb)
    low_edge-Narrows = find_upper_bound_index-Narrows lower (pairs h n) (flip lb) 0 (omega arith)

    high_edge-Narrows : Narrows upper (pairs h n) ub (high_edge h n lb ub)
    high_edge-Narrows =
        find_upper_bound_index-Narrows upper (pairs h n) ub (low_edge h n lb).0 low_edge-Narrows.0

    low_IsBoundEdge : IsBoundEdge before lower cut_l (pairs h n) (flip lb) 0 (low_edge h n lb).0
    low_IsBoundEdge =
        find_upper_bound_index-IsBoundEdge before lower cut_l (pairs h n) (flip lb) 0
          (IsIn-IsSorted before root h n p ok sorted) (omega arith)

    high_IsBoundEdge :
        IsBoundEdge before upper cut_u (pairs h n) ub (low_edge h n lb).0 (high_edge h n lb ub).0
    high_IsBoundEdge =
        find_upper_bound_index-IsBoundEdge before upper cut_u (pairs h n) ub (low_edge h n lb).0
          (IsIn-IsSorted before root h n p ok sorted) low_edge-Narrows.0

    low_front :
        (0 < (low_edge h n lb).0) ⊎ (((low_edge h n lb).0 ≡ 0) × AllBefore (entries_before h p))
    low_front = elim (below 0 (low_edge h n lb).0) [
      | inl pos ↦ inl pos
      | inr none_left ↦ inr (omega (arith, none_left), front)
    ]

    parting : (low_edge h n lb).0 < (high_edge h n lb ub).0 → Parts h n p lb ub
    parting less = record {
      height = h;
      node = n;
      lower_idx = (low_edge h n lb).0;
      upper_idx = (high_edge h n lb ub).0;
      path = p;
      lower_bound = flip (low_edge h n lb).1;
      upper_bound = (high_edge h n lb ub).1;
      runs = parted_here h n p lb ub less;
      apart = less;
      is_low =
          subst (λ b. IsSide before lower cut_l (flip from) root sorted b h n (low_edge h n lb).0 p)
            (sym (flip-flip (low_edge h n lb).1))
            (enter before lower cut_l (flip from) root sorted (flip lb) (low_edge h n lb).1 h n 0
              (low_edge h n lb).0 p ok agrees_l low_IsBoundEdge low_edge-Narrows low_front
              (inl (omega (arith, less, high_edge-Narrows.0))));
      is_high =
          enter before upper cut_u to root sorted ub (high_edge h n lb ub).1 h n (low_edge h n lb).0
            (high_edge h n lb ub).0 p ok agrees_u high_IsBoundEdge high_edge-Narrows (inl less)
            (inr back);
    }

    all_before : AllBefore (edge_front h n (low_edge h n lb).0 p)
    all_before =
        enter_front before lower cut_l (flip from) root sorted (flip lb) h n 0 (low_edge h n lb).0 p
          ok agrees_l low_IsBoundEdge low_front

    meet :
        (high_edge h n lb ub).0 ≤ (low_edge h n lb).0
        → (high_edge h n lb ub).0 ≡ (low_edge h n lb).0
    meet ge = omega (arith, ge, high_IsBoundEdge.from_start)

    all_beyond :
        (high_edge h n lb ub).0 ≤ (low_edge h n lb).0
        → AllBeyond (edge_back h n (low_edge h n lb).0 p)
    all_beyond ge =
        subst (λ j. AllBeyond (edge_back h n j p)) (meet ge)
          (enter_back before upper cut_u to root sorted ub h n (low_edge h n lb).0
            (high_edge h n lb ub).0 p ok agrees_u high_IsBoundEdge (inr back))

  abbrev pub Descends :
      (h : ℕ) → Node K V h → Parents K V h → SearchBound → SearchBound → Type (ℓ ⊔ κ)
  Descends h n p lb ub = Parts h n p lb ub ⊎ Misses h n p lb ub

  missing :
      (n : Node K V 0) (p : Parents K V 0) (lb ub : SearchBound)
      → IsIn root 0 n p
      → Agrees before lower cut_l (flip from) root sorted (flip lb) n
      → Agrees before upper cut_u to root sorted ub n
      → AllBefore (entries_before 0 p)
      → AllBeyond (entries_after 0 p)
      → (high_edge 0 n lb ub).0 ≤ (low_edge 0 n lb).0
      → Misses 0 n p lb ub
  missing n p lb ub ok al au f b ge =
      let i = (low_edge 0 n lb).0 in
      record {
        edge = record { leaf = n; idx = i; path = p };
        runs = common_here n p lb ub ge;
        front = edge_front 0 n i p;
        back = edge_back 0 n i p;
        content =
            IsIn-content root 0 n p ok
            ∙ ap (λ a. entries_before 0 p ++ (a ++ entries_after 0 p)) (sym (take-append-drop i n))
            ∙ ap (λ a. entries_before 0 p ++ a)
                (append_assoc (take i n) (drop i n) (entries_after 0 p))
            ∙ sym (append_assoc (entries_before 0 p) (take i n) (drop i n ++ entries_after 0 p));
        before_range = all_before 0 n p lb ub ok al au f b;
        beyond_range = all_beyond 0 n p lb ub ok al au f b ge;
      }

  ends_below :
      (h : ℕ) (n : Node K V (suc h)) (p : Parents K V (suc h)) (lb ub : SearchBound)
      (c : Node K V h) (q : Parents K V h) (lb' ub' : SearchBound)
      → search_tree_for_bifurcation lower upper (suc h) n p lb ub
        ≡ search_tree_for_bifurcation lower upper h c q lb' ub'
      → Descends h c q lb' ub'
      → Descends (suc h) n p lb ub
  ends_below h n p lb ub c q lb' ub' e (inl r) = inl (record {
    height = r.height;
    node = r.node;
    lower_idx = r.lower_idx;
    upper_idx = r.upper_idx;
    path = r.path;
    lower_bound = r.lower_bound;
    upper_bound = r.upper_bound;
    runs = e ∙ r.runs;
    apart = r.apart;
    is_low = r.is_low;
    is_high = r.is_high;
  })
  ends_below h n p lb ub c q lb' ub' e (inr r) = inr (record {
    edge = r.edge;
    runs = e ∙ r.runs;
    front = r.front;
    back = r.back;
    content = r.content;
    before_range = r.before_range;
    beyond_range = r.beyond_range;
  })

  -- The descent ends where the bounds part, with the edges of both, or between pairs of which none
  -- is in the range.
  pub search_tree_for_bifurcation_lem :
      (h : ℕ) (n : Node K V h) (p : Parents K V h) (lb ub : SearchBound)
      → IsIn root h n p
      → Agrees before lower cut_l (flip from) root sorted (flip lb) (entries h n)
      → Agrees before upper cut_u to root sorted ub (entries h n)
      → AllBefore (entries_before h p)
      → AllBeyond (entries_after h p)
      → Descends h n p lb ub
  search_tree_for_bifurcation_lem zero n p lb ub ok al au f b =
      elim (below (low_edge 0 n lb).0 (high_edge 0 n lb ub).0) [
        | inl less ↦ inl (parting 0 n p lb ub ok al au f b less)
        | inr ge ↦ inr (missing n p lb ub ok al au f b ge)
      ]
  search_tree_for_bifurcation_lem (suc h) n p lb ub ok al au f b =
      let low = low_edge (suc h) n lb in
      let high = high_edge (suc h) n lb ub in
      elim (below low.0 high.0) [
        | inl less ↦ inl (parting (suc h) n p lb ub ok al au f b less)
        | inr ge ↦
            let nar = low_edge-Narrows (suc h) n p lb ub ok al au f b in
            let nar' = high_edge-Narrows (suc h) n p lb ub ok al au f b in
            let (c, get) = get_elem?_of_lt n.edges low.0 (omega (arith, nar.0, ok.filled.2)) in
            let q = up n low.0 p in
            let al' =
              subst (λ x. Agrees before lower cut_l (flip from) root sorted x (entries h c))
                (sym (flip-flip low.1))
                (Agrees-narrow before lower cut_l (flip from) root sorted (flip lb) low.1 h n low.0
                  p c ok get al nar) in
            let at = meet (suc h) n p lb ub ok al au f b ge in
            let au' =
              Agrees-narrow before upper cut_u to root sorted ub high.1 h n low.0 p c ok get au
                (subst (λ j. Narrows upper n.kvs ub (j, high.1)) at nar') in
            ends_below h n p lb ub c q (flip low.1) high.1 (common_below h n p lb ub c ge get) (
              search_tree_for_bifurcation_lem h c q (flip low.1) high.1
                (IsIn-child root h n low.0 p c ok nar.0 get) al' au'
                (all_before (suc h) n p lb ub ok al au f b)
                (all_beyond (suc h) n p lb ub ok al au f b ge))
      ]
