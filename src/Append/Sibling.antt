-- ===== src/Append/Sibling.antt =====
-- fix.rs, lines 96 to 114: the last two children of a node on the right border, and what one takes from the other.
use btree_monstrousity.Prelude.{
  ℕ, zero, suc, ◌+◌, ◌-◌, ◌≤◌, ◌<◌, ◌≡◌, refl, sym, ap, ◌∙◌, List, [], ◌∷◌, ◌++◌, length, drop, set,
  get_elem?, some, arith, All, All-append, All-take, All-drop, length-append, length-take,
  length-drop, append_assoc,
}
use btree_monstrousity.Node.{Node, pairs, capacity, min_len}
use btree_monstrousity.Node.Content.{IsFilled}
use btree_monstrousity.Balance.{shift_right}
use btree_monstrousity.Append.Spine.{IsFull, IsOpen, IsFull-IsFilled}

module _ {ℓ} {A : Type ℓ} where
  pub set_both :
      (xs : List A) (y z l r : A)
      → set (set (xs ++ y ∷ z ∷ []) (length xs) l) (suc (length xs)) r ≡ xs ++ l ∷ r ∷ []
  set_both [] y z l r = refl
  set_both (x ∷ xs) y z l r = ap (◌∷◌ x) (set_both xs y z l r)

  pub get_both : (xs : List A) (y z : A) → get_elem? (xs ++ y ∷ z ∷ []) (suc (length xs)) ≡ some z
  get_both [] y z = refl
  get_both (x ∷ xs) y z = get_both xs y z

  -- A list that ends in two elements, with a property of all but the last.
  pub split_last {κ} :
      (P : A → Type κ) (x : A) (xs : List A) (z : A)
      → All P (x ∷ xs)
      → (ys : List A) × (y : A) × ((x ∷ xs) ++ z ∷ [] ≡ ys ++ y ∷ z ∷ [])
        × (length xs ≡ length ys)
        × All P ys
        × P y
  split_last P x [] z (p, ps) = ([], x, refl, refl, tt, p)
  split_last P x (x' ∷ xs) z (p, ps) =
      let (ys, y, e, len, qs, q) = split_last P x' xs z ps in
      (x ∷ ys, y, ap (◌∷◌ x) e, omega (arith, len), (p, qs), q)

module _ {ℓ κ} {K : Type ℓ} {V : Type κ} where
  -- What is left of a full node after it gives up the pairs from `m`.
  pub steal_left-IsFilled :
      (h m : ℕ) (l : Node K V h) (kv : K × V) (r : Node K V h)
      → IsFull K V h l
      → m < capacity
      → min_len ≤ m
      → IsFilled K V min_len h (shift_right h m l kv r).0
  unfolding shift_right
  steal_left-IsFilled zero m l kv r (len, _) lt le = omega (arith, length-take m l, len)
  steal_left-IsFilled (suc h) m l kv r f lt le =
      let g = IsFull-IsFilled K V min_len (suc h) l (omega arith) f in
      let tk = length-take m l.kvs in
      let te = length-take (suc m) l.edges in
      (
        omega (arith, f.0),
        omega (arith, f.0),
        omega (arith, f.0, f.1),
        All-take (IsFilled K V min_len h) (suc m) l.edges g.3,
      )

  -- The right node stays open.
  pub steal_right-IsOpen :
      (h m : ℕ) (l : Node K V h) (kv : K × V) (r : Node K V h)
      → IsFull K V h l
      → IsOpen K V h r
      → m < capacity
      → length (pairs h r) + (capacity - m) ≡ min_len
      → let r' = (shift_right h m l kv r).1 in IsOpen K V h r' × (length (pairs h r') ≡ min_len)
  unfolding shift_right
  steal_right-IsOpen zero m l kv r (len, _) o lt e =
      let longer = length-append (drop (suc m) l) (kv ∷ r) in
      let fewer = length-drop (suc m) l in ((omega arith, refl), omega arith)
  steal_right-IsOpen (suc h) m l kv r f (init, last, e, len, le, full, o) lt all =
      let longer = length-append (drop (suc m) l.kvs) (kv ∷ r.kvs) in
      let fewer = length-drop (suc m) l.kvs in
      let longer' = length-append (drop (suc m) l.edges) init in
      let fewer' = length-drop (suc m) l.edges in
      let same =
        ap (λ es. drop (suc m) l.edges ++ es) e
        ∙ sym (append_assoc (drop (suc m) l.edges) init (last ∷ [])) in
      (
        (
          drop (suc m) l.edges ++ init,
          last,
          same,
          omega (arith, f.0, f.1, len, longer, longer', fewer, fewer'),
          omega (arith, f.0, longer, fewer, all),
          All-append (IsFull K V h) (drop (suc m) l.edges) init
              (All-drop (IsFull K V h) (suc m) l.edges f.2) full,
          o,
        ),
        omega (arith, f.0, longer, fewer, all),
      )
