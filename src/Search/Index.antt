-- ===== src/Search/Index.antt =====
-- The search in one node.
use Prim.Native.Nat.Ordering.{lt, eq, gt}
use btree_monstrousity.Prelude.{
  inl, inr, ℕ, suc, ◌+◌, ◌≤◌, ◌≡◌, refl, List, [], ◌∷◌, length, take, drop, get_elem?, some,
  Ordering, arith, length-drop,
}
use btree_monstrousity.Order.{IsFront}
use btree_monstrousity.Order.Cut.{Ordering-cases}
use btree_monstrousity.Search.{IndexResult, scan_keys, find_key_index}

module _ {ℓ κ} {K : Type ℓ} {V : Type κ} (comp : K → Ordering) where
  -- The first pair of the list, if there is one, is behind the needle.
  abbrev pub Stops : List (K × V) → Type 0
  Stops [] = Unit
  Stops (x ∷ xs) = comp x.0 ≡ lt

  -- What the scan of `xs` from the index `i` on says of its result.
  abbrev pub Located : List (K × V) → ℕ → IndexResult → Type (ℓ ⊔ κ)
  Located xs i (IndexResult.kv j) =
      (m : ℕ) × (x : K × V) × (j ≡ i + m)
      × (get_elem? xs m ≡ some x)
      × (comp x.0 ≡ eq)
      × IsFront comp (take m xs)
  Located xs i (IndexResult.edge j) =
      (m : ℕ) × (j ≡ i + m) × (m ≤ length xs) × IsFront comp (take m xs) × Stops (drop m xs)

  Located-suc :
      (x : K × V) (xs : List (K × V)) (i : ℕ) (r : IndexResult)
      → comp x.0 ≡ gt
      → Located xs (suc i) r
      → Located (x ∷ xs) i r
  Located-suc x xs i (IndexResult.kv j) e (m, y, at, get, same, front) =
      (suc m, y, omega arith, get, same, (e, front))
  Located-suc x xs i (IndexResult.edge j) e (m, at, le, front, stop) =
      (suc m, omega arith, omega arith, (e, front), stop)

  scan_keys-Located :
      (count : ℕ) (xs : List (K × V)) (i : ℕ)
      → count ≡ i + length xs
      → Located xs i (scan_keys comp count xs i)
  unfolding scan_keys
  scan_keys-Located count [] i h = (0, h, omega arith, tt, tt)
  scan_keys-Located count (x ∷ xs) i h = elim (Ordering-cases (comp x.0)) [
    | inl before ↦ rw (before, scan_keys) (0, omega arith, omega arith, tt, before)
    | inr (inl same) ↦ rw (same, scan_keys) (0, x, omega arith, refl, same, tt)
    | inr (inr behind) ↦
        rw (behind, scan_keys)
          (Located-suc x xs i (scan_keys comp count xs (suc i)) behind
            (scan_keys-Located count xs (suc i) (omega arith)))
  ]

  -- From a start index in range, `find_key_index` returns the index of the first key that is not in
  -- front of the needle: as a pair if the comparator accepts it, as an edge if the needle is in
  -- front of it or no key is left.
  pub find_key_index-Located :
      (kvs : List (K × V)) (start : ℕ)
      → start ≤ length kvs
      → Located (drop start kvs) start (find_key_index comp kvs start)
  unfolding find_key_index
  find_key_index-Located kvs start h =
      scan_keys-Located (length kvs) (drop start kvs) start (omega (arith, length-drop start kvs))
