-- ===== src/Clone/Subtree.antt =====
-- The copy of a subtree has the same shape, and the copies of the pairs in the same order.
use btree_monstrousity.Prelude.{
  ℕ, zero, suc, ◌+◌, ◌≤◌, ◌<◌, ◌≡◌, refl, sym, ap, ap₂, ◌∙◌, lt→ltb, List, [], ◌∷◌, ◌++◌, length,
  some, arith, All, All-append, length-append, append_assoc, append-nil,
}
use btree_monstrousity.Defined.{Defined, ◌>>=◌}
use btree_monstrousity.Node.{LeafNode, Node, capacity, min_len}
use btree_monstrousity.Node.Content.{weave, weave_tail, weave_middle, weave-cons, entries, IsFilled}
use btree_monstrousity.Clone.{
  leaf_push, internal_push, push_internal_level, clone_kv, clone_leaf, clone_pairs, clone_subtree,
}

-- A list of pairs with each replaced by its copy.
abbrev pub map_list {ℓ κ} : {A : Type ℓ} {B : Type κ} → (A → B) → List A → List B
map_list f [] = []
map_list f (x ∷ xs) = f x ∷ map_list f xs

pub map_list-append {ℓ κ} :
    {A : Type ℓ} {B : Type κ} (f : A → B) (xs ys : List A)
    → map_list f (xs ++ ys) ≡ map_list f xs ++ map_list f ys
map_list-append f [] ys = refl
map_list-append f (x ∷ xs) ys = ap (◌∷◌ (f x)) (map_list-append f xs ys)

pub length-map_list {ℓ κ} :
    {A : Type ℓ} {B : Type κ} (f : A → B) (xs : List A) → length (map_list f xs) ≡ length xs
length-map_list f [] = refl
length-map_list f (x ∷ xs) = omega (arith, length-map_list f xs)

module _ {ℓ κ} {K : Type ℓ} {V : Type κ} where
  leaf_push_room :
      (n : LeafNode K V) (kv : K × V) → length n < capacity → leaf_push n kv ≡ some (n ++ kv ∷ [])
  unfolding leaf_push
  leaf_push_room n kv less = rw (lt→ltb (length n) capacity less) refl

  internal_push_room :
      (h : ℕ) (n : Node K V (suc h)) (kv : K × V) (e : Node K V h)
      → length n.kvs < capacity
      → internal_push h n kv e ≡ some (record { kvs = n.kvs ++ kv ∷ []; edges = n.edges ++ e ∷ [] })
  unfolding internal_push
  internal_push_room h n kv e less = rw (lt→ltb (length n.kvs) capacity less) refl

module _ {ℓ κ} {K : Type ℓ} {V : Type κ} (clone_key : K → K) (clone_value : V → V) where
  abbrev pub copies : List (K × V) → List (K × V)
  copies xs = map_list (clone_kv clone_key clone_value) xs

  clone_leaf_lem :
      (kvs out : List (K × V)) (len : ℕ)
      → length out + length kvs ≤ capacity
      → clone_leaf clone_key clone_value kvs out len ≡ some (out ++ copies kvs, len + length kvs)
  unfolding clone_leaf
  clone_leaf_lem [] out len le = ap₂ (λ a c. some (a, c)) (sym (append-nil out)) (omega arith)
  clone_leaf_lem (kv ∷ kvs) out len le =
      let kv' = clone_kv clone_key clone_value kv in
      let out' = out ++ kv' ∷ [] in
      let longer = length-append out (kv' ∷ []) in
      let rest = clone_leaf_lem kvs out' (len + 1) (omega (arith, le, longer)) in
      let count : len + 1 + length kvs ≡ len + suc (length kvs) = omega arith in
      rw (leaf_push_room out kv' (omega (arith, le)), rest)
        (ap₂ (λ a c. some (a, c)) (append_assoc out (kv' ∷ []) (copies kvs)) count)

  -- A copy of a node of any height.
  pub record Copies (least h : ℕ) (n : Node K V h) (r : Defined (Node K V h × ℕ))
      : Type (ℓ ⊔ κ) where
    pub copy : Node K V h
    pub runs : r ≡ some (copy, length (entries h n))
    pub content : entries h copy ≡ copies (entries h n)
    pub filled : IsFilled K V least h copy

  abbrev AllCopies :
      (h : ℕ) → (Node K V h → Defined (Node K V h × ℕ)) → List (Node K V h) → Type (ℓ ⊔ κ)
  AllCopies h clone es = All (λ e. Copies min_len h e (clone e)) es

  -- The rest of an internal node after the pairs pushed so far.
  pub record Pushes (h : ℕ) (kvs : List (K × V)) (es : List (Node K V h)) (out : Node K V (suc h))
      (len : ℕ) (r : Defined (Node K V (suc h) × ℕ)) : Type (ℓ ⊔ κ) where
    pub copy : Node K V (suc h)
    pub runs : r ≡ some (copy, len + length (weave_tail (entries h) kvs es))
    pub content :
        entries (suc h) copy ≡ entries (suc h) out ++ copies (weave_tail (entries h) kvs es)
    pub as_many : length copy.kvs ≡ length out.kvs + length kvs
    pub edges_more : length copy.edges ≡ suc (length copy.kvs)
    pub children : All (IsFilled K V min_len h) copy.edges

  clone_pairs_lem :
      (h : ℕ) (clone : Node K V h → Defined (Node K V h × ℕ)) (kvs : List (K × V))
      (es : List (Node K V h)) (out : Node K V (suc h)) (len : ℕ)
      → AllCopies h clone es
      → length es ≡ length kvs
      → length out.kvs + length kvs ≤ capacity
      → length out.edges ≡ suc (length out.kvs)
      → All (IsFilled K V min_len h) out.edges
      → Pushes h kvs es out len (clone_pairs clone_key clone_value h clone kvs es out len)
  unfolding clone_pairs
  clone_pairs_lem h clone [] [] out len c same le more f = record {
    copy = out;
    runs = ap (λ a. some (out, a)) (omega arith);
    content = sym (append-nil (entries (suc h) out));
    as_many = omega arith;
    edges_more = more;
    children = f;
  }
  clone_pairs_lem h clone [] (e ∷ es) out len c same le more f = absurd (omega arith)
  clone_pairs_lem h clone (kv ∷ kvs) [] out len c same le more f = absurd (omega arith)
  clone_pairs_lem h clone (kv ∷ kvs) (e ∷ es) out len (c, cs) same le more f =
      let kv' = clone_kv clone_key clone_value kv in
      let out' : Node K V (suc h) = record {
        kvs = out.kvs ++ kv' ∷ [];
        edges = out.edges ++ c.copy ∷ [];
      } in
      let longer = length-append out.kvs (kv' ∷ []) in
      let more' = length-append out.edges (c.copy ∷ []) in
      let len' = len + (1 + length (entries h e)) in
      let rest =
        clone_pairs_lem h clone kvs es out' len' cs (omega (arith, same))
          (omega (arith, le, longer)) (omega (arith, more, more', longer))
          (All-append (IsFilled K V min_len h) out.edges (c.copy ∷ []) f (c.filled, tt)) in
      let wt = weave_tail (entries h) kvs es in
      let behind : weave (entries h) kvs (e ∷ es) ≡ entries h e ++ wt =
        weave-cons (entries h) kvs e es in
      let count : len' + length wt ≡ len + length (kv ∷ weave (entries h) kvs (e ∷ es)) =
        omega (arith, ap length behind, length-append (entries h e) wt) in
      record {
        copy = rest.copy;
        runs =
            rw (c.runs, internal_push_room h out kv' c.copy (omega (arith, le)), ◌>>=◌)
              (rest.runs ∙ ap (λ a. some (rest.copy, a)) count);
        content =
            rest.content
            ∙ ap (λ a. a ++ copies wt)
                (weave_middle (entries h) out.kvs [] kv' out.edges (c.copy ∷ []) more
                  ∙ ap (λ a. entries (suc h) out ++ kv' ∷ a)
                      (append-nil (entries h c.copy) ∙ c.content))
            ∙ append_assoc (entries (suc h) out) (kv' ∷ copies (entries h e)) (copies wt)
            ∙ ap (λ a. entries (suc h) out ++ kv' ∷ a)
                (sym (map_list-append (clone_kv clone_key clone_value) (entries h e) wt)
                  ∙ sym (ap copies behind));
        as_many = omega (arith, rest.as_many, longer);
        edges_more = rest.edges_more;
        children = rest.children;
      }

  clone_children :
      (h : ℕ) (clone : Node K V h → Defined (Node K V h × ℕ))
      → ((n : Node K V h) → IsFilled K V min_len h n → Copies min_len h n (clone n))
      → (es : List (Node K V h)) → All (IsFilled K V min_len h) es
      → AllCopies h clone es
  clone_children h clone each [] f = tt
  clone_children h clone each (e ∷ es) (f, fs) = (each e f, clone_children h clone each es fs)

  clone_internal :
      (least h : ℕ) (kvs : List (K × V)) (first : Node K V h) (rest : List (Node K V h))
      → ((n : Node K V h)
          → IsFilled K V min_len h n
          → Copies min_len h n (clone_subtree clone_key clone_value h n))
      → IsFilled K V least (suc h) (record { kvs = kvs; edges = first ∷ rest })
      → let n : Node K V (suc h) = record { kvs = kvs; edges = first ∷ rest } in
        Copies least (suc h) n (clone_subtree clone_key clone_value (suc h) n)
  unfolding clone_subtree push_internal_level
  clone_internal least h kvs first rest each f =
      let clone = clone_subtree clone_key clone_value h in
      let c = each first f.3.0 in
      let out = push_internal_level h c.copy in
      let len = length (entries h first) in
      let wt = weave_tail (entries h) kvs rest in
      let all = weave-cons (entries h) kvs first rest in
      let r =
        clone_pairs_lem h clone kvs rest out len (clone_children h clone each rest f.3.1)
          (omega (arith, f.2)) (omega (arith, f.1)) refl (c.filled, tt) in
      let count : len + length wt ≡ length (weave (entries h) kvs (first ∷ rest)) =
        omega (arith, ap length all, length-append (entries h first) wt) in
      record {
        copy = r.copy;
        runs = rw (c.runs, ◌>>=◌) (r.runs ∙ ap (λ a. some (r.copy, a)) count);
        content =
            r.content
            ∙ ap (λ a. a ++ copies wt) (append-nil (entries h c.copy) ∙ c.content)
            ∙ sym (map_list-append (clone_kv clone_key clone_value) (entries h first) wt)
            ∙ sym (ap copies all);
        filled = (
          omega (arith, f.0, r.as_many),
          omega (arith, f.1, r.as_many),
          r.edges_more,
          r.children,
        );
      }

  -- Below a filled node the copy returns, is filled, holds the copies of the pairs in order, and is
  -- counted.
  pub clone_subtree_lem :
      (least h : ℕ) (n : Node K V h)
      → IsFilled K V least h n
      → Copies least h n (clone_subtree clone_key clone_value h n)
  unfolding clone_subtree
  clone_subtree_lem least zero n f = record {
    copy = copies n;
    runs = clone_leaf_lem n [] 0 (omega (arith, f.1)) ∙ ap (λ a. some (copies n, a)) (omega arith);
    content = refl;
    filled = (
      omega (arith, f.0, length-map_list (clone_kv clone_key clone_value) n),
      omega (arith, f.1, length-map_list (clone_kv clone_key clone_value) n),
      tt,
    );
  }
  clone_subtree_lem least (suc h) n f =
      with_edges least h n.kvs n.edges (λ m g. clone_subtree_lem min_len h m g) f
    where
      with_edges :
          (least h : ℕ) (kvs : List (K × V)) (edges : List (Node K V h))
          → ((n : Node K V h)
              → IsFilled K V min_len h n
              → Copies min_len h n (clone_subtree clone_key clone_value h n))
          → IsFilled K V least (suc h) (record { kvs = kvs; edges = edges })
          → let n : Node K V (suc h) = record { kvs = kvs; edges = edges } in
            Copies least (suc h) n (clone_subtree clone_key clone_value (suc h) n)
      with_edges least h kvs [] each f = absurd (omega (arith, f.2))
      with_edges least h kvs (first ∷ rest) each f = clone_internal least h kvs first rest each f
