-- ===== src/Range/Offset.antt =====
-- Handles of node.rs: the number of pairs in front of a leaf edge, by the indices that lead to it.
use btree_monstrousity.Prelude.{
  ℕ, zero, suc, ◌+◌, ◌≤◌, ◌<◌, ◌==◌, ◌&&◌, ◌≡◌, refl, sym, ap, ap₂, ◌∙◌, subst, inl, inr, Bool,
  true, false, List, [], ◌∷◌, ◌++◌, length, take, drop, get_elem?, none, some, arith, below,
  All-get_elem?, length-append,
}
use mathlib.Core.Option.{some-injective}
use btree_monstrousity.Node.{Node, Parents, top, up, min_len}
use btree_monstrousity.Node.Content.{
  weave, weave_tail, entries, entries_before, IsFilled, IsFilledPath,
}
use btree_monstrousity.Remove.Next.{before_child}
use btree_monstrousity.Navigate.Linked.{IsLinked, root_above}

pub eq_of_true : (a b : ℕ) → (a == b) ≡ true → a ≡ b
eq_of_true a b e = ground arith

pub true_of_eq : (a b : ℕ) → a ≡ b → (a == b) ≡ true
true_of_eq a b e = ground arith

pub both_true : (a b : Bool) → (a && b) ≡ true → (a ≡ true) × (b ≡ true)
both_true true true e = (refl, refl)
both_true true false e = (refl, e)
both_true false b e = absurd (let t : false ≡ true = e in cc)

-- A later edge has all of an earlier child and a pair in front of it.
weave-earlier {ℓ κ} :
    {A : Type ℓ} {E : Type κ} (f : E → List A) (es : List A) (cs : List E) (i j : ℕ) (c : E)
    → length cs ≡ suc (length es)
    → get_elem? cs i ≡ some c
    → i < j
    → j ≤ length es
    → length (weave f (take i es) (take i cs)) + length (f c)
      < length (weave f (take j es) (take j cs))
weave-earlier f [] cs i j c len get less le = absurd (omega (arith, less, le))
weave-earlier f (e ∷ es) [] i j c len get less le = absurd (omega arith)
weave-earlier f (e ∷ es) (d ∷ cs) i zero c len get less le = absurd (omega (arith, less))
weave-earlier f (e ∷ es) (d ∷ cs) zero (suc j) c len get less le =
    let same : length (f d) ≡ length (f c) = ap (λ x. length (f x)) (some-injective d c get) in
    omega (arith, same, length-append (f d) (e ∷ weave f (take j es) (take j cs)))
weave-earlier f (e ∷ es) (d ∷ cs) (suc i) (suc j) c len get less le = omega (
  arith,
  weave-earlier f es cs i j c (omega arith) get (omega arith) (omega arith),
  length-append (f d) (e ∷ weave f (take i es) (take i cs)),
  length-append (f d) (e ∷ weave f (take j es) (take j cs)),
)

module _ {ℓ κ} {K : Type ℓ} {V : Type κ} where
  -- The indices of the edges from the root down to a path's end, in front of those below it.
  abbrev pub indices : (h : ℕ) → Parents K V h → List ℕ → List ℕ
  indices h top acc = acc
  indices h (up n i p) acc = indices (suc h) p (i ∷ acc)

module _ {ℓ κ} (K : Type ℓ) (V : Type κ) where
  -- The pairs below a node in front of a leaf edge that the indices lead to.
  abbrev pub offset : (h : ℕ) → Node K V h → List ℕ → ℕ → ℕ
  offset zero n is idx = idx
  offset (suc h) n [] idx = idx
  offset (suc h) n (i ∷ is) idx =
      length (weave (entries {K = K} {V = V} h) (take i n.kvs) (take i n.edges))
      + elim (get_elem? n.edges i) [ none ↦ 0 | some c ↦ offset h c is idx ]

  abbrev pub Leads : (h : ℕ) → Node K V h → List ℕ → ℕ → Type (ℓ ⊔ κ)
  Leads zero n is idx = (is ≡ []) × (idx ≤ length n) × (n ≡ n)
  Leads (suc h) n is idx =
      (i : ℕ) × (rest : List ℕ) × (c : Node K V h) × (is ≡ i ∷ rest)
      × (i ≤ length n.kvs)
      × (get_elem? n.edges i ≡ some c)
      × Leads h c rest idx

module _ {ℓ κ} {K : Type ℓ} {V : Type κ} where
  offset-suc :
      (h : ℕ) (n : Node K V (suc h)) (i : ℕ) (is : List ℕ) (idx : ℕ) (c : Node K V h)
      → get_elem? n.edges i ≡ some c
      → offset K V (suc h) n (i ∷ is) idx
        ≡ length (weave (entries h) (take i n.kvs) (take i n.edges)) + offset K V h c is idx
  offset-suc h n i is idx c get = rw get refl

  pub climb-Leads :
      (h : ℕ) (n : Node K V h) (p : Parents K V h) (acc : List ℕ) (idx : ℕ)
      → IsLinked h n p
      → IsFilledPath K V h p
      → Leads K V h n acc idx
      → let r = root_above h n p in Leads K V r.height r.node (indices h p acc) idx
  climb-Leads h n top acc idx l w lead = lead
  climb-Leads h n (up m i q) acc idx (get, l) (le, f, w) lead =
      climb-Leads (suc h) m q (i ∷ acc) idx l w (i, acc, n, refl, le, get, lead)

  pub climb-offset :
      (h : ℕ) (n : Node K V h) (p : Parents K V h) (acc : List ℕ) (idx : ℕ)
      → IsLinked h n p
      → let r = root_above h n p in
        length (entries_before h p) + offset K V h n acc idx
        ≡ offset K V r.height r.node (indices h p acc) idx
  climb-offset h n top acc idx l = omega arith
  climb-offset h n (up m i q) acc idx (get, l) =
      let w = weave (entries h) (take i m.kvs) (take i m.edges) in
      let step = offset-suc h m i acc idx n get in
      let above = climb-offset (suc h) m q (i ∷ acc) idx l in
      let both = length-append (entries_before (suc h) q) w in omega (arith, both, step, above)

  -- A child and what is in front of it, in a node.
  child_length :
      (h : ℕ) (n : Node K V (suc h)) (i : ℕ) (c : Node K V h)
      → length n.edges ≡ suc (length n.kvs)
      → get_elem? n.edges i ≡ some c
      → length (weave (entries h) (take i n.kvs) (take i n.edges)) + length (entries h c)
        ≤ length (entries (suc h) n)
  child_length h n i c len get =
      let w = weave (entries h) (take i n.kvs) (take i n.edges) in
      let tail = weave_tail (entries h) (drop i n.kvs) (drop (suc i) n.edges) in
      let all : length (w ++ (entries h c ++ tail)) ≡ length (entries (suc h) n) =
        ap length (before_child h i n c top len get) in
      omega (arith, all, length-append w (entries h c ++ tail), length-append (entries h c) tail)

module _ {ℓ κ} (K : Type ℓ) (V : Type κ) where
  offset_bound :
      (least h : ℕ) (n : Node K V h) (is : List ℕ) (idx : ℕ)
      → IsFilled K V least h n
      → Leads K V h n is idx
      → offset K V h n is idx ≤ length (entries {K = K} {V = V} h n)
  offset_bound least zero n is idx f (e, le, _) = le
  offset_bound least (suc h) n is idx f (i, rest, c, e, le, get, lead) =
      let fc = All-get_elem? (IsFilled K V min_len h) n.edges i f.3 get in
      omega (
        arith,
        ap (λ k. offset K V (suc h) n k idx) e,
        offset-suc {K = K} {V = V} h n i rest idx c get,
        offset_bound min_len h c rest idx fc lead,
        child_length {K = K} {V = V} h n i c f.2 get,
      )

  earlier_offset :
      (least h : ℕ) (n : Node K V (suc h)) (i j : ℕ) (is js : List ℕ) (idx jdx : ℕ)
      (c c' : Node K V h)
      → IsFilled K V least (suc h) n
      → get_elem? n.edges i ≡ some c
      → get_elem? n.edges j ≡ some c'
      → j ≤ length n.kvs
      → Leads K V h c is idx
      → i < j
      → offset K V (suc h) n (i ∷ is) idx < offset K V (suc h) n (j ∷ js) jdx
  earlier_offset least h n i j is js idx jdx c c' f get get' le lead less =
      let fc = All-get_elem? (IsFilled K V min_len h) n.edges i f.3 get in
      omega (
        arith,
        offset-suc {K = K} {V = V} h n i is idx c get,
        offset-suc {K = K} {V = V} h n j js jdx c' get',
        offset_bound min_len h c is idx fc lead,
        weave-earlier (entries {K = K} {V = V} h) n.kvs n.edges i j c f.2 get less le,
      )

  -- The same number of pairs in front means the same way.
  pub offset-injective :
      (least h : ℕ) (n : Node K V h) (is js : List ℕ) (idx jdx : ℕ)
      → IsFilled K V least h n
      → Leads K V h n is idx
      → Leads K V h n js jdx
      → offset K V h n is idx ≡ offset K V h n js jdx
      → (is ≡ js) × (idx ≡ jdx)
  offset-injective least zero n is js idx jdx f (e, le, _) (e', le', _) same = (e ∙ sym e', same)
  offset-injective least (suc h) n is js idx jdx f (i, rest, c, e, le, get, lead)
        (j, rest', c', e', le', get', lead') same =
      let same' =
        sym (ap (λ k. offset K V (suc h) n k idx) e)
        ∙ same
        ∙ ap (λ k. offset K V (suc h) n k jdx) e' in
      elim (below i j) [
        | inl less ↦ absurd (
            omega (
              arith,
              same',
              earlier_offset least h n i j rest rest' idx jdx c c' f get get' le' lead less,
            ))
        | inr ge ↦ elim (below j i) [
          | inl less ↦ absurd (
              omega (
                arith,
                same',
                earlier_offset least h n j i rest' rest jdx idx c' c f get' get le lead' less,
              ))
          | inr ge' ↦
              let at : j ≡ i = omega (arith, ge, ge') in
              let child : c' ≡ c =
                some-injective c' c (sym get' ∙ ap (get_elem? n.edges) at ∙ get) in
              let there = subst (λ x. Leads K V h x rest' jdx) child lead' in
              let fc = All-get_elem? (IsFilled K V min_len h) n.edges i f.3 get in
              let w = offset-suc {K = K} {V = V} h n i rest idx c get in
              let w' = offset-suc {K = K} {V = V} h n i rest' jdx c get in
              let at_js = ap (λ k. offset K V (suc h) n (k ∷ rest') jdx) at in
              let (tails, ends) =
                offset-injective min_len h c rest rest' idx jdx fc lead there
                  (omega (arith, same', w, w', at_js)) in
              (e ∙ ap₂ (◌∷◌) (sym at) tails ∙ sym e', ends)
        ]
      ]
