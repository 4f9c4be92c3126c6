-- ===== src/Node/Content.antt =====
-- The pairs below a node in order, and the invariant of a tree: the abstract view of node.rs.
use btree_monstrousity.Prelude.{
  ℕ, zero, suc, ◌≤◌, ◌≡◌, refl, List, [], ◌∷◌, ◌++◌, length, All, take, drop, append_assoc,
  append-nil, arith, some, get_elem?, get_elem?_split, get_elem?_bound, length-take,
  take-append-drop, ◌∙◌, ap₂, sym,
}
use btree_monstrousity.Node.{Node, Root, Parents, top, up, pairs, capacity, min_len}

module _ {ℓ μ} {A : Type ℓ} {E : Type μ} (f : E → List A) where
  -- Alternate the contents of the edges with the pairs, from the first edge.
  abbrev pub weave : List A → List E → List A
  weave es [] = es
  weave [] (c ∷ cs) = f c ++ weave [] cs
  weave (e ∷ es) (c ∷ cs) = f c ++ e ∷ weave es cs

  -- The same behind an edge: from the next pair.
  abbrev pub weave_tail : List A → List E → List A
  weave_tail [] cs = weave [] cs
  weave_tail (e ∷ es) cs = e ∷ weave es cs

  pub weave-append :
      (es es' : List A) (cs cs' : List E)
      → length es ≡ length cs
      → weave (es ++ es') (cs ++ cs') ≡ weave es cs ++ weave es' cs'
  weave-append [] es' [] cs' h = refl
  weave-append [] es' (c ∷ cs) cs' h = absurd (omega arith)
  weave-append (e ∷ es) es' [] cs' h = absurd (omega arith)
  weave-append (e ∷ es) es' (c ∷ cs) cs' h =
      rw (weave-append es es' cs cs' (omega arith), append_assoc) refl

  pub weave-cons : (es : List A) (c : E) (cs : List E) → weave es (c ∷ cs) ≡ f c ++ weave_tail es cs
  weave-cons [] c cs = refl
  weave-cons (e ∷ es) c cs = refl

  -- The content around the edge at the end of a prefix.
  pub weave_at :
      (es es' : List A) (cs : List E) (c : E) (cs' : List E)
      → length es ≡ length cs
      → weave (es ++ es') (cs ++ c ∷ cs') ≡ weave es cs ++ (f c ++ weave_tail es' cs')
  weave_at es es' cs c cs' h = rw (weave-append es es' cs (c ∷ cs') h, weave-cons es' c cs')

  -- A pair that stands between two weaves.
  pub weave_middle :
      (es es' : List A) (x : A) (cs cs' : List E)
      → length cs ≡ suc (length es)
      → weave (es ++ x ∷ es') (cs ++ cs') ≡ weave es cs ++ x ∷ weave es' cs'
  weave_middle es es' x [] cs' h = absurd (omega arith)
  weave_middle [] es' x (c ∷ []) cs' h = rw append-nil refl
  weave_middle [] es' x (c ∷ d ∷ cs) cs' h = absurd (omega arith)
  weave_middle (e ∷ es) es' x (c ∷ cs) cs' h =
      rw (weave_middle es es' x cs cs' (omega arith), append_assoc) refl

module _ {ℓ κ} {K : Type ℓ} {V : Type κ} where
  -- All pairs below a node, in order.
  abbrev pub entries : (h : ℕ) → Node K V h → List (K × V)
  entries zero n = n
  entries (suc h) n = weave (entries h) n.kvs n.edges

  abbrev pub root_entries : Root K V → List (K × V)
  root_entries r = entries r.height r.node

  -- The pairs in front of the end of a path, and those behind it.
  abbrev pub entries_before : (h : ℕ) → Parents K V h → List (K × V)
  entries_before h top = []
  entries_before h (up n i p) =
      entries_before (suc h) p ++ weave (entries h) (take i n.kvs) (take i n.edges)

  abbrev pub entries_after : (h : ℕ) → Parents K V h → List (K × V)
  entries_after h top = []
  entries_after h (up n i p) =
      weave_tail (entries h) (drop i n.kvs) (drop (suc i) n.edges) ++ entries_after (suc h) p

  -- The pairs below a node in front of one of its own pairs, and behind it.
  abbrev pub kv_before : (h : ℕ) → Node K V h → ℕ → List (K × V)
  kv_before zero n i = take i n
  kv_before (suc h) n i = weave (entries h) (take i n.kvs) (take (suc i) n.edges)

  abbrev pub kv_after : (h : ℕ) → Node K V h → ℕ → List (K × V)
  kv_after zero n i = drop (suc i) n
  kv_after (suc h) n i = weave (entries h) (drop (suc i) n.kvs) (drop (suc i) n.edges)

-- The fill of a node whose least number of pairs is `least`, and of all below it.
abbrev pub IsFilled {ℓ κ} : (K : Type ℓ) (V : Type κ) → ℕ → (h : ℕ) → Node K V h → Type (ℓ ⊔ κ)
IsFilled K V least zero n = (least ≤ length n) × (length n ≤ capacity) × Unit
IsFilled K V least (suc h) n =
    (least ≤ length n.kvs)
    × (length n.kvs ≤ capacity)
    × (length n.edges ≡ suc (length n.kvs))
    × All (IsFilled K V min_len h) n.edges

-- A root may hold less than other nodes: nothing if it is a leaf, one pair if it is not.
abbrev pub root_min : ℕ → ℕ
root_min zero = 0
root_min (suc h) = 1

abbrev pub IsFilledRoot {ℓ κ} : (K : Type ℓ) (V : Type κ) → Root K V → Type (ℓ ⊔ κ)
IsFilledRoot K V r = IsFilled K V (root_min r.height) r.height r.node

-- The least number of pairs of a node under a path, where `rl` gives it for a root.
abbrev pub path_min_with {ℓ κ} : {K : Type ℓ} {V : Type κ} → (ℕ → ℕ) → (h : ℕ) → Parents K V h → ℕ
path_min_with rl h top = rl h
path_min_with rl h (up n i p) = min_len

-- The parents on a path are filled, and each index names an edge.
abbrev pub IsFilledPathWith {ℓ κ} :
    (K : Type ℓ) (V : Type κ) → (ℕ → ℕ) → (h : ℕ) → Parents K V h → Type (ℓ ⊔ κ)
IsFilledPathWith K V rl h top = Unit
IsFilledPathWith K V rl h (up n i p) =
    (i ≤ length n.kvs)
    × IsFilled K V (path_min_with rl (suc h) p) (suc h) n
    × IsFilledPathWith K V rl (suc h) p

abbrev pub path_min {ℓ κ} : {K : Type ℓ} {V : Type κ} (h : ℕ) → Parents K V h → ℕ
path_min h p = path_min_with root_min h p

abbrev pub IsFilledPath {ℓ κ} : (K : Type ℓ) (V : Type κ) (h : ℕ) → Parents K V h → Type (ℓ ⊔ κ)
IsFilledPath K V h p = IsFilledPathWith K V root_min h p

module _ {ℓ κ} {K : Type ℓ} {V : Type κ} where
  -- A pair of a filled node splits what is below it.
  pub entries_split :
      (least h : ℕ) (n : Node K V h) (i : ℕ) (x : K × V)
      → IsFilled K V least h n
      → get_elem? (pairs h n) i ≡ some x
      → entries h n ≡ kv_before h n i ++ x ∷ kv_after h n i
  entries_split least zero n i x f e = get_elem?_split n i x e
  entries_split least (suc h) n i x (l, c, len, a) e =
      ap₂ (weave (entries h)) (get_elem?_split n.kvs i x e) (sym (take-append-drop (suc i) n.edges))
      ∙ weave_middle (entries h) (take i n.kvs) (drop (suc i) n.kvs) x (take (suc i) n.edges)
          (drop (suc i) n.edges)
          (omega
            (arith, get_elem?_bound n.kvs i e, length-take i n.kvs, length-take (suc i) n.edges))
