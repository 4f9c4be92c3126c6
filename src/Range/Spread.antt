-- ===== src/Range/Spread.antt =====
-- From two edges at one height down to the leaf edges of a range.
use btree_monstrousity.Prelude.{
  ℕ, zero, suc, ◌<◌, ◌≡◌, refl, sym, ap, ◌∙◌, subst, ◌⊎◌, inl, inr, List, [], ◌∷◌, ◌++◌, take, drop,
  get_elem?, some, Ordering, arith, append_assoc, append-nil, below, All, All-append_right,
}
use btree_monstrousity.Defined.{◌>>=◌}
use btree_monstrousity.Order.{IsCut, IsSorted}
use btree_monstrousity.Order.Cut.{IsSorted-append_left, IsSorted-append_right}
use btree_monstrousity.Node.{Node, Root, Parents, up, pairs}
use btree_monstrousity.Node.Content.{
  weave, weave_tail, entries, root_entries, entries_before, entries_after,
}
use btree_monstrousity.Search.{SearchBound, find_upper_bound_index}
use btree_monstrousity.Range.{find_lower_bound_edge, find_upper_bound_edge, spread}
use btree_monstrousity.Navigate.{LeafEdge}
use btree_monstrousity.Range.Narrow.{
  flip, find_lower_bound_index-flip, find_upper_bound_index-Narrows,
  find_upper_bound_index-IsBoundEdge,
}
use btree_monstrousity.Range.Sides.{edge_front, edge_back}
use btree_monstrousity.Range.Edge.{IsIn, Agrees, AllWithin, IsSide, IsIn-content, enter, down}

-- The pairs of a node among all that is below it.
All-weave {ℓ κ ν} :
    {A : Type ℓ} {E : Type κ} (P : A → Type ν) (f : E → List A) (es : List A) (cs : List E)
    → All P (weave f es cs)
    → All P es
All-weave P f [] cs h = tt
All-weave P f (e ∷ es) [] h = h
All-weave P f (e ∷ es) (c ∷ cs) h =
    let h' = All-append_right P (f c) (e ∷ weave f es cs) h in (h'.0, All-weave P f es cs h'.1)

weave-IsSorted {ℓ κ μ ν} :
    {K : Type ℓ} {V : Type κ} {E : Type ν} (before : K → K → Type μ) (f : E → List (K × V))
    (es : List (K × V)) (cs : List E)
    → IsSorted before (weave f es cs)
    → IsSorted before es
weave-IsSorted before f [] cs s = tt
weave-IsSorted before f (e ∷ es) [] s = s
weave-IsSorted before f (e ∷ es) (c ∷ cs) s =
    let s' = IsSorted-append_right before (f c) (e ∷ weave f es cs) s in
    (All-weave (λ y. before e.0 y.0) f es cs s'.0, weave-IsSorted before f es cs s'.1)

pairs-IsSorted {ℓ κ μ} :
    {K : Type ℓ} (V : Type κ) (before : K → K → Type μ) (h : ℕ) (n : Node K V h)
    → IsSorted before (entries h n)
    → IsSorted before (pairs h n)
pairs-IsSorted V before zero n s = s
pairs-IsSorted V before (suc h) n s = weave-IsSorted before (entries h) n.kvs n.edges s

-- The pairs of a node of a sorted tree are sorted.
pub IsIn-IsSorted {ℓ κ μ} :
    {K : Type ℓ} {V : Type κ} (before : K → K → Type μ) (root : Root K V) (h : ℕ) (n : Node K V h)
    (p : Parents K V h)
    → IsIn root h n p
    → IsSorted before (root_entries root)
    → IsSorted before (pairs h n)
IsIn-IsSorted {V = V} before root h n p ok s =
    let all = subst (IsSorted before) (IsIn-content root h n p ok) s in
    let right =
      IsSorted-append_right before (entries_before h p) (entries h n ++ entries_after h p) all in
    pairs-IsSorted V before h n
      (IsSorted-append_left before (entries h n) (entries_after h p) right)

module _ {ℓ κ μ} {K : Type ℓ} {V : Type κ} (before : K → K → Type μ) (comp : K → Ordering)
    (cut : IsCut before comp) (goal : SearchBound) (root : Root K V)
    (sorted : IsSorted before (root_entries root)) where
  -- The edge of a bound in the child at an edge of the level above.
  pub step_down :
      (b : SearchBound) (h : ℕ) (n : Node K V (suc h)) (i : ℕ) (p : Parents K V (suc h))
      (c : Node K V h)
      → IsSide before comp cut goal root sorted b (suc h) n i p
      → IsIn root h c (up n i p)
      → Agrees before comp cut goal root sorted b (entries h c)
      → let (j, b') = find_upper_bound_index comp (pairs h c) b 0 in
        IsSide before comp cut goal root sorted b' h c j (up n i p)
  step_down b h n i p c side ok a =
      let kvs = pairs h c in
      let q = up n i p in
      let r = find_upper_bound_index comp kvs b 0 in
      let s = IsIn-IsSorted before root h c q ok sorted in
      let edge = find_upper_bound_index-IsBoundEdge before comp cut kvs b 0 s (omega arith) in
      let front : (0 < r.0)
          ⊎ ((r.0 ≡ 0) × AllWithin before comp cut goal root sorted (entries_before h q)) =
        elim (below 0 r.0) [
          | inl pos ↦ inl pos
          | inr none_left ↦ inr (omega (arith, none_left), side.front)
        ] in
      enter before comp cut goal root sorted b r.1 h c 0 r.0 q ok a edge
        (find_upper_bound_index-Narrows comp kvs b 0 (omega arith)) front (inr side.back)

module _ {ℓ κ} {K : Type ℓ} {V : Type κ} where
  edge_back-append :
      (h : ℕ) (n : Node K V h) (i : ℕ) (p : Parents K V h)
      → (rest : List (K × V)) × (edge_back h n i p ≡ rest ++ entries_after h p)
  edge_back-append zero n i p = (drop i n, refl)
  edge_back-append (suc h) n i p =
      (weave_tail (entries h) (drop i n.kvs) (drop (suc i) n.edges), refl)

  edge_front-append :
      (h : ℕ) (n : Node K V h) (i : ℕ) (p : Parents K V h)
      → (more : List (K × V)) × (edge_front h n i p ≡ entries_before h p ++ more)
  edge_front-append zero n i p = (take i n, refl)
  edge_front-append (suc h) n i p = (weave (entries h) (take i n.kvs) (take i n.edges), refl)

pub flip-flip : (b : SearchBound) → flip (flip b) ≡ b
flip-flip SearchBound.included = refl
flip-flip SearchBound.excluded = refl
flip-flip SearchBound.all_included = refl
flip-flip SearchBound.all_excluded = refl

module _ {ℓ κ μ} {K : Type ℓ} {V : Type κ} (before : K → K → Type μ) (lower upper : K → Ordering)
    (cut_l : IsCut before lower) (cut_u : IsCut before upper) (from to : SearchBound)
    (root : Root K V) (sorted : IsSorted before (root_entries root)) where
  -- The edge of the lower bound `from`, and that of the upper bound `to`.
  abbrev pub IsLow : SearchBound → (h : ℕ) → Node K V h → ℕ → Parents K V h → Type (ℓ ⊔ κ)
  IsLow b h n i p = IsSide before lower cut_l (flip from) root sorted (flip b) h n i p

  abbrev pub IsHigh : SearchBound → (h : ℕ) → Node K V h → ℕ → Parents K V h → Type (ℓ ⊔ κ)
  IsHigh b h n i p = IsSide before upper cut_u to root sorted b h n i p

  -- The leaf edges that two edges of one height lead to.
  pub record Spreads (h : ℕ) (n : Node K V h) (i : ℕ) (p : Parents K V h) (n' : Node K V h) (i' : ℕ)
      (p' : Parents K V h) (lb ub : SearchBound) : Type (ℓ ⊔ κ) where
    pub low : LeafEdge K V
    pub high : LeafEdge K V
    pub runs :
        spread lower upper h n i p n' i' p' lb ub
        ≡ some (record { front = some low; back = some high })
    pub low_bound : SearchBound
    pub high_bound : SearchBound
    pub is_low : IsLow low_bound 0 low.leaf low.idx low.path
    pub is_high : IsHigh high_bound 0 high.leaf high.idx high.path
    pub rest : List (K × V)
    pub behind : edge_back 0 low.leaf low.idx low.path ≡ rest ++ edge_back h n i p
    pub more : List (K × V)
    pub ahead : edge_front 0 high.leaf high.idx high.path ≡ edge_front h n' i' p' ++ more

  spread-suc :
      (h : ℕ) (n : Node K V (suc h)) (i : ℕ) (p : Parents K V (suc h)) (n' : Node K V (suc h))
      (i' : ℕ) (p' : Parents K V (suc h)) (lb ub : SearchBound) (c c' : Node K V h)
      → get_elem? n.edges i ≡ some c
      → get_elem? n'.edges i' ≡ some c'
      → let (j, b) = find_upper_bound_index lower (pairs h c) (flip lb) 0 in
        let (j', b') = find_upper_bound_index upper (pairs h c') ub 0 in
        spread lower upper (suc h) n i p n' i' p' lb ub
        ≡ spread lower upper h c j (up n i p) c' j' (up n' i' p') (flip b) b'
  unfolding spread find_lower_bound_edge find_upper_bound_edge
  spread-suc h n i p n' i' p' lb ub c c' get get' =
      rw (get, get', ◌>>=◌, find_lower_bound_index-flip lower (pairs h c) lb) refl

  pub spread_lem :
      (h : ℕ) (n : Node K V h) (i : ℕ) (p : Parents K V h) (n' : Node K V h) (i' : ℕ)
      (p' : Parents K V h) (lb ub : SearchBound)
      → IsLow lb h n i p
      → IsHigh ub h n' i' p'
      → Spreads h n i p n' i' p' lb ub
  spread_lem zero n i p n' i' p' lb ub low high = record {
    low = record { leaf = n; idx = i; path = p };
    high = record { leaf = n'; idx = i'; path = p' };
    runs = unfold spread in refl;
    low_bound = lb;
    high_bound = ub;
    is_low = low;
    is_high = high;
    rest = [];
    behind = refl;
    more = [];
    ahead = sym (append-nil (edge_front 0 n' i' p'));
  }
  spread_lem (suc h) n i p n' i' p' lb ub low high =
      let (c, get, is_in, a) =
        down before lower cut_l (flip from) root sorted (flip lb) h n i p low in
      let (c', get', is_in', a') = down before upper cut_u to root sorted ub h n' i' p' high in
      let r = find_upper_bound_index lower (pairs h c) (flip lb) 0 in
      let r' = find_upper_bound_index upper (pairs h c') ub 0 in
      let low' =
        subst (λ b. IsSide before lower cut_l (flip from) root sorted b h c r.0 (up n i p))
          (sym (flip-flip r.1))
          (step_down before lower cut_l (flip from) root sorted (flip lb) h n i p c low is_in a) in
      let high' = step_down before upper cut_u to root sorted ub h n' i' p' c' high is_in' a' in
      let below = spread_lem h c r.0 (up n i p) c' r'.0 (up n' i' p') (flip r.1) r'.1 low' high' in
      let (back, e) = edge_back-append h c r.0 (up n i p) in
      let (front, e') = edge_front-append h c' r'.0 (up n' i' p') in
      record {
        low = below.low;
        high = below.high;
        runs = spread-suc h n i p n' i' p' lb ub c c' get get' ∙ below.runs;
        low_bound = below.low_bound;
        high_bound = below.high_bound;
        is_low = below.is_low;
        is_high = below.is_high;
        rest = below.rest ++ back;
        behind =
            below.behind
            ∙ ap (λ a. below.rest ++ a) e
            ∙ sym (append_assoc below.rest back (edge_back (suc h) n i p));
        more = front ++ below.more;
        ahead =
            below.ahead
            ∙ ap (λ a. a ++ below.more) e'
            ∙ append_assoc (edge_front (suc h) n' i' p') front below.more;
      }
