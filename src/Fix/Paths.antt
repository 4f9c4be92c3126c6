-- ===== src/Fix/Paths.antt =====
-- The content around a tracked edge, before and after its node is merged with a sibling or takes
-- pairs from it: first in the node itself, then in the parent.
use btree_monstrousity.Prelude.{
  ℕ, suc, ◌+◌, ◌≤◌, ◌<◌, ◌≡◌, refl, sym, ap, ap₂, ◌∙◌, List, [], ◌∷◌, ◌++◌, length, take, drop, set,
  get_elem?, some, arith, length-take, length-drop, append-nil, get_elem?_split, set_two, set_split,
  set-get_elem?, take-append, drop-append, take-append_inside, drop-append_inside,
}
use btree_monstrousity.Node.Slots.{
  slice_remove, slice_remove-set, take-slice_remove, drop-slice_remove,
}
use btree_monstrousity.Node.Content.{weave, weave_tail, weave_middle, weave-append, weave-cons}

module _ {ℓ μ} {A : Type ℓ} {E : Type μ} (f : E → List A) where
  weave_tail_middle :
      (es es' : List A) (x : A) (cs cs' : List E)
      → length cs ≡ length es
      → weave_tail f (es ++ x ∷ es') (cs ++ cs') ≡ weave_tail f es cs ++ x ∷ weave f es' cs'
  weave_tail_middle [] es' x [] cs' h = refl
  weave_tail_middle [] es' x (c ∷ cs) cs' h = absurd (omega arith)
  weave_tail_middle (e ∷ es) es' x cs cs' h =
      ap (◌∷◌ e) (weave_middle f es es' x cs cs' (omega arith))

  module _ (es es' : List A) (x : A) (cs cs' : List E) (j i : ℕ)
      (filled : length cs ≡ suc (length es)) where
    -- A node that got pairs and edges in front: the tracked edge moved with them.
    pub before_extended_front :
        i ≡ length es + 1 + j
        → weave f (take i (es ++ x ∷ es')) (take i (cs ++ cs'))
          ≡ weave f es cs ++ x ∷ weave f (take j es') (take j cs')
    before_extended_front at =
        ap₂ (weave f) (take-append es (x ∷ es') i (suc j) (omega arith))
          (take-append cs cs' i j (omega arith))
        ∙ weave_middle f es (take j es') x cs (take j cs') filled

    pub after_extended_front :
        i ≡ length es + 1 + j
        → weave_tail f (drop i (es ++ x ∷ es')) (drop (suc i) (cs ++ cs'))
          ≡ weave_tail f (drop j es') (drop (suc j) cs')
    after_extended_front at =
        ap₂ (weave_tail f) (drop-append es (x ∷ es') i (suc j) (omega arith))
          (drop-append cs cs' (suc i) (suc j) (omega arith))

    -- A node that got pairs and edges behind: the tracked edge is where it was.
    pub before_extended_back :
        j ≤ length es
        → weave f (take j (es ++ x ∷ es')) (take j (cs ++ cs')) ≡ weave f (take j es) (take j cs)
    before_extended_back le =
        ap₂ (weave f) (take-append_inside es (x ∷ es') j le)
          (take-append_inside cs cs' j (omega arith))

    pub after_extended_back :
        j ≤ length es
        → weave_tail f (drop j (es ++ x ∷ es')) (drop (suc j) (cs ++ cs'))
          ≡ weave_tail f (drop j es) (drop (suc j) cs) ++ x ∷ weave f es' cs'
    after_extended_back le =
        ap₂ (weave_tail f) (drop-append_inside es (x ∷ es') j le)
          (drop-append_inside cs cs' (suc j) (omega arith))
        ∙ weave_tail_middle (drop j es) es' x (drop (suc j) cs) cs'
            (omega (arith, length-drop j es, length-drop (suc j) cs))

-- A parent cut at the pair `x`, with the children `l` and `r` on its sides.
pub record IsCutAt {ℓ μ} {A : Type ℓ} {E : Type μ} (es : List A) (cs : List E) (i : ℕ) (t : List A)
    (tc : List E) (x : A) (l r : E) (d : List A) (dc : List E) : Type (ℓ ⊔ μ) where
  pub pairs : es ≡ t ++ x ∷ d
  pub edges : cs ≡ tc ++ l ∷ r ∷ dc
  pub before : length t ≡ i
  pub before_edges : length tc ≡ i

module _ {ℓ μ} {A : Type ℓ} {E : Type μ} (f : E → List A) {es : List A} {cs : List E} {i : ℕ}
    {t : List A} {tc : List E} {x : A} {l r : E} {d : List A} {dc : List E}
    (c : IsCutAt es cs i t tc x l r d dc) where
  -- The content around the right child, and around the left child.
  pub before_right : weave f (take (suc i) es) (take (suc i) cs) ≡ weave f t tc ++ (f l ++ x ∷ [])
  before_right =
      ap₂ (λ a b. weave f (take (suc i) a) (take (suc i) b)) c.pairs c.edges
      ∙ ap₂ (weave f) (take-append t (x ∷ d) (suc i) 1 (omega (arith, c.before)))
          (take-append tc (l ∷ r ∷ dc) (suc i) 1 (omega (arith, c.before_edges)))
      ∙ weave-append f t (x ∷ []) tc (l ∷ []) (omega (arith, c.before, c.before_edges))

  pub after_right : weave_tail f (drop (suc i) es) (drop (suc (suc i)) cs) ≡ weave_tail f d dc
  after_right =
      ap₂ (λ a b. weave_tail f (drop (suc i) a) (drop (suc (suc i)) b)) c.pairs c.edges
      ∙ ap₂ (weave_tail f) (drop-append t (x ∷ d) (suc i) 1 (omega (arith, c.before)))
          (drop-append tc (l ∷ r ∷ dc) (suc (suc i)) 2 (omega (arith, c.before_edges)))

  pub before_left : weave f (take i es) (take i cs) ≡ weave f t tc
  before_left =
      ap₂ (λ a b. weave f (take i a) (take i b)) c.pairs c.edges
      ∙ ap₂ (weave f) (take-append t (x ∷ d) i 0 (omega (arith, c.before)) ∙ append-nil t)
          (take-append tc (l ∷ r ∷ dc) i 0 (omega (arith, c.before_edges)) ∙ append-nil tc)

  pub after_left : weave_tail f (drop i es) (drop (suc i) cs) ≡ x ∷ (f r ++ weave_tail f d dc)
  after_left =
      ap₂ (λ a b. weave_tail f (drop i a) (drop (suc i) b)) c.pairs c.edges
      ∙ ap₂ (weave_tail f) (drop-append t (x ∷ d) i 0 (omega (arith, c.before)))
          (drop-append tc (l ∷ r ∷ dc) (suc i) 1 (omega (arith, c.before_edges)))
      ∙ ap (◌∷◌ x) (weave-cons f d r dc)

module _ {ℓ μ} {A : Type ℓ} {E : Type μ} (es : List A) (cs : List E) (i : ℕ)
    (len : length cs ≡ suc (length es)) (bound : i < length es) where
  pub IsCutAt-parent :
      (x : A) (l r : E)
      → get_elem? es i ≡ some x
      → get_elem? cs i ≡ some l
      → get_elem? cs (suc i) ≡ some r
      → IsCutAt es cs i (take i es) (take i cs) x l r (drop (suc i) es) (drop (suc (suc i)) cs)
  IsCutAt-parent x l r get gl gr = record {
    pairs = get_elem?_split es i x get;
    edges =
        sym (set-get_elem? cs (suc i) r gr)
        ∙ ap (λ a. set a (suc i) r) (sym (set-get_elem? cs i l gl))
        ∙ set_two cs i l r (omega arith);
    before = omega (arith, length-take i es);
    before_edges = omega (arith, length-take i cs);
  }

  -- The parent after its pair and both children were replaced.
  pub IsCutAt-replaced :
      (x : A) (l r : E)
      → IsCutAt
          (set es i x)
          (set (set cs i l) (suc i) r)
          i
          (take i es)
          (take i cs)
          x
          l
          r
          (drop (suc i) es)
          (drop (suc (suc i)) cs)
  IsCutAt-replaced x l r = record {
    pairs = set_split es i x bound;
    edges = set_two cs i l r (omega arith);
    before = omega (arith, length-take i es);
    before_edges = omega (arith, length-take i cs);
  }

-- The parent after its pair was taken out and the children were merged into `m`.
module _ {ℓ μ} {A : Type ℓ} {E : Type μ} (f : E → List A) (es : List A) (cs : List E) (i : ℕ)
    (len : length cs ≡ suc (length es)) (bound : i < length es) (m : E) where
  pub before_merged :
      weave f (take i (slice_remove es i)) (take i (slice_remove (set cs i m) (suc i)))
      ≡ weave f (take i es) (take i cs)
  before_merged = ap₂ (weave f) (take-slice_remove es i (omega arith)) (
      ap (take i) (slice_remove-set cs i m (omega arith))
      ∙ take-append (take i cs) (m ∷ drop (suc (suc i)) cs) i 0 (omega (arith, length-take i cs))
      ∙ append-nil (take i cs))

  pub after_merged :
      weave_tail f (drop i (slice_remove es i)) (drop (suc i) (slice_remove (set cs i m) (suc i)))
      ≡ weave_tail f (drop (suc i) es) (drop (suc (suc i)) cs)
  after_merged = ap₂ (weave_tail f) (drop-slice_remove es i (omega arith)) (
      ap (drop (suc i)) (slice_remove-set cs i m (omega arith))
      ∙ drop-append (take i cs) (m ∷ drop (suc (suc i)) cs) (suc i) 1
          (omega (arith, length-take i cs)))
