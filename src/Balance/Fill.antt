-- ===== src/Balance/Fill.antt =====
-- The fill of what merging and stealing leave, and the operations as a whole.
use btree_monstrousity.Prelude.{
  ℕ, zero, suc, ◌+◌, ◌-◌, ◌≤◌, ◌<◌, ◌≡◌, ◌∷◌, length, take, drop, arith, length-take, length-drop,
  length-append, All-take, All-drop, All-append,
}
use btree_monstrousity.Node.{Node, pairs, capacity, min_len}
use btree_monstrousity.Node.Content.{IsFilled}
use btree_monstrousity.Balance.{BalancingContext, merge_nodes, shift_right, shift_left}

-- The least number of pairs matters for the node itself only.
pub IsFilled-weaken {ℓ κ} :
    (K : Type ℓ) (V : Type κ) (a least h : ℕ) (n : Node K V h)
    → IsFilled K V a h n
    → least ≤ length (pairs h n)
    → IsFilled K V least h n
IsFilled-weaken K V a least zero n f le = (le, f.1, tt)
IsFilled-weaken K V a least (suc h) n f le = (le, f.1, f.2, f.3)

module _ {ℓ κ} {K : Type ℓ} {V : Type κ} where
  -- The children are filled, and the index is that of a pair of the parent.
  pub record IsContext {h : ℕ} (least_left least_right : ℕ) (c : BalancingContext K V h)
      : Type (ℓ ⊔ κ) where
    pub in_parent : c.idx < length c.parent.kvs
    pub edges : length c.parent.edges ≡ suc (length c.parent.kvs)
    pub left : IsFilled K V least_left h c.left_child
    pub right : IsFilled K V least_right h c.right_child

  pub length-merge_nodes :
      (h : ℕ) (l : Node K V h) (kv : K × V) (r : Node K V h)
      → length (pairs h (merge_nodes h l kv r)) ≡ length (pairs h l) + 1 + length (pairs h r)
  unfolding merge_nodes
  length-merge_nodes zero l kv r = omega (arith, length-append l (kv ∷ r))
  length-merge_nodes (suc h) l kv r = omega (arith, length-append l.kvs (kv ∷ r.kvs))

  pub merge_nodes-IsFilled :
      (a c least h : ℕ) (l : Node K V h) (kv : K × V) (r : Node K V h)
      → IsFilled K V a h l
      → IsFilled K V c h r
      → length (pairs h l) + 1 + length (pairs h r) ≤ capacity
      → least ≤ length (pairs h l) + 1 + length (pairs h r)
      → IsFilled K V least h (merge_nodes h l kv r)
  unfolding merge_nodes
  merge_nodes-IsFilled a c least zero l kv r f g le ge = omega (arith, length-append l (kv ∷ r))
  merge_nodes-IsFilled a c least (suc h) l kv r f g le ge = (
    omega (arith, length-append l.kvs (kv ∷ r.kvs)),
    omega (arith, length-append l.kvs (kv ∷ r.kvs)),
    omega (arith, f.2, g.2, length-append l.kvs (kv ∷ r.kvs), length-append l.edges r.edges),
    All-append (IsFilled K V min_len h) l.edges r.edges f.3 g.3,
  )

  -- Both nodes after `count` pairs went to the right: `m` are left behind.
  pub shift_right-IsFilled :
      (a c m least_left least_right h : ℕ) (l : Node K V h) (kv : K × V) (r : Node K V h)
      → IsFilled K V a h l
      → IsFilled K V c h r
      → m < length (pairs h l)
      → length (pairs h r) + (length (pairs h l) - m) ≤ capacity
      → least_left ≤ m
      → least_right ≤ length (pairs h r) + (length (pairs h l) - m)
      → let (l', r') = shift_right h m l kv r in
        IsFilled K V least_left h l' × IsFilled K V least_right h r'
  unfolding shift_right
  shift_right-IsFilled a c m p q zero l kv r f g lt le ll lr =
      omega (arith, length-take m l, length-drop (suc m) l, length-append (drop (suc m) l) (kv ∷ r))
  shift_right-IsFilled a c m p q (suc h) l kv r f g lt le ll lr =
      let P = IsFilled K V min_len h in
      let tk = length-take m l.kvs in
      let te = length-take (suc m) l.edges in
      let dk = length-drop (suc m) l.kvs in
      let de = length-drop (suc m) l.edges in
      let ak = length-append (drop (suc m) l.kvs) (kv ∷ r.kvs) in
      let ae = length-append (drop (suc m) l.edges) r.edges in
      (
        (omega arith, omega arith, omega arith, All-take P (suc m) l.edges f.3),
        (
          omega arith,
          omega arith,
          omega arith,
          All-append P (drop (suc m) l.edges) r.edges (All-drop P (suc m) l.edges f.3) g.3,
        ),
      )

  -- Both nodes after `suc m` pairs went to the left.
  pub shift_left-IsFilled :
      (a c m least_left least_right h : ℕ) (l : Node K V h) (kv : K × V) (r : Node K V h)
      → IsFilled K V a h l
      → IsFilled K V c h r
      → m < length (pairs h r)
      → length (pairs h l) + suc m ≤ capacity
      → least_left ≤ length (pairs h l) + suc m
      → least_right + suc m ≤ length (pairs h r)
      → let (l', r') = shift_left h m l kv r in
        IsFilled K V least_left h l' × IsFilled K V least_right h r'
  unfolding shift_left
  shift_left-IsFilled a c m p q zero l kv r f g lt le ll lr =
      omega (arith, length-take m r, length-drop (suc m) r, length-append l (kv ∷ take m r))
  shift_left-IsFilled a c m p q (suc h) l kv r f g lt le ll lr =
      let P = IsFilled K V min_len h in
      let tk = length-take m r.kvs in
      let te = length-take (suc m) r.edges in
      let dk = length-drop (suc m) r.kvs in
      let de = length-drop (suc m) r.edges in
      let ak = length-append l.kvs (kv ∷ take m r.kvs) in
      let ae = length-append l.edges (take (suc m) r.edges) in
      (
        (
          omega arith,
          omega arith,
          omega arith,
          All-append P l.edges (take (suc m) r.edges) f.3 (All-take P (suc m) r.edges g.3),
        ),
        (omega arith, omega arith, omega arith, All-drop P (suc m) r.edges g.3),
      )

  -- The number of pairs of both nodes after a shift.
  pub length-shift_right :
      (h m : ℕ) (l : Node K V h) (kv : K × V) (r : Node K V h)
      → m < length (pairs h l)
      → let (l', r') = shift_right h m l kv r in
        (length (pairs h l') ≡ m)
        × (length (pairs h r') ≡ length (pairs h r) + (length (pairs h l) - m))
  unfolding shift_right
  length-shift_right zero m l kv r lt =
      let t = length-take m l in
      let d = length-drop (suc m) l in
      let a = length-append (drop (suc m) l) (kv ∷ r) in (omega arith, omega arith)
  length-shift_right (suc h) m l kv r lt =
      let t = length-take m l.kvs in
      let d = length-drop (suc m) l.kvs in
      let a = length-append (drop (suc m) l.kvs) (kv ∷ r.kvs) in (omega arith, omega arith)

  pub length-shift_left :
      (h m : ℕ) (l : Node K V h) (kv : K × V) (r : Node K V h)
      → m < length (pairs h r)
      → let (l', r') = shift_left h m l kv r in
        (length (pairs h l') ≡ length (pairs h l) + suc m)
        × (length (pairs h r') + suc m ≡ length (pairs h r))
  unfolding shift_left
  length-shift_left zero m l kv r lt =
      let t = length-take m r in
      let d = length-drop (suc m) r in
      let a = length-append l (kv ∷ take m r) in (omega arith, omega arith)
  length-shift_left (suc h) m l kv r lt =
      let t = length-take m r.kvs in
      let d = length-drop (suc m) r.kvs in
      let a = length-append l.kvs (kv ∷ take m r.kvs) in (omega arith, omega arith)
