-- ===== src/Node/Slots.antt =====
-- The slice helpers at the end of node.rs, on the initialised part of an array.
use btree_monstrousity.Prelude.{
  ℕ, zero, suc, ◌+◌, ◌≤◌, ◌<◌, ◌≡◌, refl, ap, List, [], ◌∷◌, ◌++◌, length, All, take, drop, set,
  length-append, length-take, length-drop, All-append, All-take, All-drop, arith,
}

module _ {ℓ} {A : Type ℓ} where
  -- `slice_insert`: shift the tail up by one slot and write the value.
  abbrev pub slice_insert : List A → ℕ → A → List A
  slice_insert xs idx x = take idx xs ++ x ∷ drop idx xs

  -- `slice_remove`: what is left when the tail is shifted down by one slot.
  abbrev pub slice_remove : List A → ℕ → List A
  slice_remove xs idx = take idx xs ++ drop (suc idx) xs

  pub length-slice_insert :
      (xs : List A) (i : ℕ) (x : A) → i ≤ length xs → length (slice_insert xs i x) ≡ suc (length xs)
  length-slice_insert xs i x h =
      omega (arith, length-append (take i xs) (x ∷ drop i xs), length-take i xs, length-drop i xs)

  pub length-slice_remove :
      (xs : List A) (i : ℕ) → i < length xs → suc (length (slice_remove xs i)) ≡ length xs
  length-slice_remove xs i h =
      omega (
        arith,
        length-append (take i xs) (drop (suc i) xs),
        length-take i xs,
        length-drop (suc i) xs,
      )

  -- A slot of the first part, or of the second.
  pub slice_insert-append_left :
      (xs ys : List A) (i : ℕ) (x : A)
      → i ≤ length xs
      → slice_insert (xs ++ ys) i x ≡ slice_insert xs i x ++ ys
  slice_insert-append_left xs ys zero x h = refl
  slice_insert-append_left [] ys (suc i) x h = absurd (omega arith)
  slice_insert-append_left (y ∷ xs) ys (suc i) x h =
      ap (◌∷◌ y) (slice_insert-append_left xs ys i x (omega arith))

  pub slice_insert-append_right :
      (xs ys : List A) (i j : ℕ) (x : A)
      → i ≡ length xs + j
      → slice_insert (xs ++ ys) i x ≡ xs ++ slice_insert ys j x
  slice_insert-append_right [] ys i j x h = rw (let e : i ≡ j = omega arith in e)
  slice_insert-append_right (y ∷ xs) ys zero j x h = absurd (omega arith)
  slice_insert-append_right (y ∷ xs) ys (suc i) j x h =
      ap (◌∷◌ y) (slice_insert-append_right xs ys i j x (omega arith))

  -- A value put in the slot in front of the one that is removed.
  pub slice_remove-set :
      (xs : List A) (i : ℕ) (x : A)
      → suc i < length xs
      → slice_remove (set xs i x) (suc i) ≡ take i xs ++ x ∷ drop (suc (suc i)) xs
  slice_remove-set [] i x h = absurd (omega arith)
  slice_remove-set (y ∷ xs) zero x h = refl
  slice_remove-set (y ∷ xs) (suc i) x h = ap (◌∷◌ y) (slice_remove-set xs i x (omega arith))

  pub take-slice_remove :
      (xs : List A) (i : ℕ) → i ≤ length xs → take i (slice_remove xs i) ≡ take i xs
  take-slice_remove xs zero h = refl
  take-slice_remove [] (suc i) h = refl
  take-slice_remove (y ∷ xs) (suc i) h = ap (◌∷◌ y) (take-slice_remove xs i (omega arith))

  pub drop-slice_remove :
      (xs : List A) (i : ℕ) → i ≤ length xs → drop i (slice_remove xs i) ≡ drop (suc i) xs
  drop-slice_remove xs zero h = refl
  drop-slice_remove [] (suc i) h = refl
  drop-slice_remove (y ∷ xs) (suc i) h = drop-slice_remove xs i (omega arith)

module _ {ℓ κ} {A : Type ℓ} (P : A → Type κ) where
  pub All-slice_insert :
      (xs : List A) (i : ℕ) (x : A) → P x → All P xs → All P (slice_insert xs i x)
  All-slice_insert xs i x p h =
      All-append P (take i xs) (x ∷ drop i xs) (All-take P i xs h) (p, All-drop P i xs h)

  pub All-slice_remove : (xs : List A) (i : ℕ) → All P xs → All P (slice_remove xs i)
  All-slice_remove xs i h =
      All-append P (take i xs) (drop (suc i) xs) (All-take P i xs h) (All-drop P (suc i) xs h)
