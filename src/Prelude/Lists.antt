-- ===== src/Prelude/Lists.antt =====
-- Lists measured and indexed by native numbers, under the library's names, and predicates on lists.
use Prim.Native.Nat.{ℕ, zero, suc, ◌+◌, ◌-◌, ◌≤◌, ◌<◌, min}
use mathlib.Core.Path.{◌≡◌, refl, ap, sym, subst}
use mathlib.Core.List.{List, [], ◌∷◌, ◌++◌}
use mathlib.Core.Option.{Option, none, some, some-injective}
use native.Mathlib.Omega.{arith}

module _ {ℓ} {A : Type ℓ} where
  abbrev pub length : List A → ℕ
  length [] = 0
  length (x ∷ xs) = suc (length xs)

  abbrev pub get_elem? : List A → ℕ → Option A
  get_elem? [] i = none
  get_elem? (x ∷ xs) zero = some x
  get_elem? (x ∷ xs) (suc i) = get_elem? xs i

  -- A write out of bounds changes nothing.
  abbrev pub set : List A → ℕ → A → List A
  set [] i v = []
  set (x ∷ xs) zero v = v ∷ xs
  set (x ∷ xs) (suc i) v = x ∷ set xs i v

  abbrev pub take : ℕ → List A → List A
  take zero xs = []
  take (suc n) [] = []
  take (suc n) (x ∷ xs) = x ∷ take n xs

  abbrev pub drop : ℕ → List A → List A
  drop zero xs = xs
  drop (suc n) [] = []
  drop (suc n) (x ∷ xs) = drop n xs

  abbrev pub replicate : ℕ → A → List A
  replicate zero a = []
  replicate (suc n) a = a ∷ replicate n a

  -- A predicate at every element.
  abbrev pub All {κ} : (A → Type κ) → List A → Type κ
  All P [] = Unit
  All P (x ∷ xs) = P x × All P xs

module _ {ℓ} {A : Type ℓ} where
  pub length-append : (xs ys : List A) → length (xs ++ ys) ≡ length xs + length ys
  length-append [] ys = omega arith
  length-append (x ∷ xs) ys = omega (arith, length-append xs ys)

  pub length-set : (xs : List A) (i : ℕ) (v : A) → length (set xs i v) ≡ length xs
  length-set [] i v = refl
  length-set (x ∷ xs) zero v = refl
  length-set (x ∷ xs) (suc i) v = ap suc (length-set xs i v)

  pub length-take : (n : ℕ) (xs : List A) → length (take n xs) ≡ min n (length xs)
  length-take zero xs = omega arith
  length-take (suc n) [] = omega arith
  length-take (suc n) (x ∷ xs) = omega (arith, length-take n xs)

  pub length-drop : (n : ℕ) (xs : List A) → length (drop n xs) ≡ length xs - n
  length-drop zero xs = omega arith
  length-drop (suc n) [] = omega arith
  length-drop (suc n) (x ∷ xs) = omega (arith, length-drop n xs)

  pub length-replicate : (n : ℕ) (a : A) → length (replicate n a) ≡ n
  length-replicate zero a = refl
  length-replicate (suc n) a = ap suc (length-replicate n a)

  pub take-append-drop : (n : ℕ) (xs : List A) → take n xs ++ drop n xs ≡ xs
  take-append-drop zero xs = refl
  take-append-drop (suc n) [] = refl
  take-append-drop (suc n) (x ∷ xs) = ap (◌∷◌ x) (take-append-drop n xs)

  -- A position in range splits the list.
  pub get_elem?_split :
      (xs : List A) (i : ℕ) (x : A)
      → get_elem? xs i ≡ some x
      → xs ≡ take i xs ++ x ∷ drop (suc i) xs
  get_elem?_split [] i x h = ground arith
  get_elem?_split (y ∷ ys) zero x h = ground arith
  get_elem?_split (y ∷ ys) (suc i) x h = ap (◌∷◌ y) (get_elem?_split ys i x h)

  pub get_elem?_of_lt : (xs : List A) (i : ℕ) → i < length xs → (x : A) × (get_elem? xs i ≡ some x)
  get_elem?_of_lt [] i h = absurd (omega arith)
  get_elem?_of_lt (x ∷ xs) zero h = (x, refl)
  get_elem?_of_lt (x ∷ xs) (suc i) h = get_elem?_of_lt xs i (omega arith)

  pub get_elem?_bound : (xs : List A) (i : ℕ) {x : A} → get_elem? xs i ≡ some x → i < length xs
  get_elem?_bound [] i h = ground arith
  get_elem?_bound (y ∷ ys) zero h = omega arith
  get_elem?_bound (y ∷ ys) (suc i) h = omega (arith, get_elem?_bound ys i h)

  pub set_split :
      (xs : List A) (i : ℕ) (x : A) → i < length xs → set xs i x ≡ take i xs ++ x ∷ drop (suc i) xs
  set_split [] i x h = absurd (omega arith)
  set_split (y ∷ ys) zero x h = refl
  set_split (y ∷ ys) (suc i) x h = ap (◌∷◌ y) (set_split ys i x (omega arith))

  pub drop_split :
      (xs : List A) (i : ℕ) (x : A) → get_elem? xs i ≡ some x → drop i xs ≡ x ∷ drop (suc i) xs
  drop_split [] i x h = ground arith
  drop_split (y ∷ ys) zero x h = ground arith
  drop_split (y ∷ ys) (suc i) x h = drop_split ys i x h

  pub take-suc :
      (xs : List A) (i : ℕ) (x : A)
      → get_elem? xs i ≡ some x
      → take (suc i) xs ≡ take i xs ++ x ∷ []
  take-suc [] i x h = ground arith
  take-suc (y ∷ ys) zero x h = ground arith
  take-suc (y ∷ ys) (suc i) x h = ap (◌∷◌ y) (take-suc ys i x h)

  -- A prefix and a suffix that are cut behind the first part.
  pub take-append :
      (xs ys : List A) (i j : ℕ) → i ≡ length xs + j → take i (xs ++ ys) ≡ xs ++ take j ys
  take-append [] ys i j h = rw (let e : i ≡ j = omega arith in e)
  take-append (x ∷ xs) ys zero j h = absurd (omega arith)
  take-append (x ∷ xs) ys (suc i) j h = ap (◌∷◌ x) (take-append xs ys i j (omega arith))

  pub drop-append : (xs ys : List A) (i j : ℕ) → i ≡ length xs + j → drop i (xs ++ ys) ≡ drop j ys
  drop-append [] ys i j h = rw (let e : i ≡ j = omega arith in e)
  drop-append (x ∷ xs) ys zero j h = absurd (omega arith)
  drop-append (x ∷ xs) ys (suc i) j h = drop-append xs ys i j (omega arith)

  -- The same cut inside the first part.
  pub take-append_inside : (xs ys : List A) (i : ℕ) → i ≤ length xs → take i (xs ++ ys) ≡ take i xs
  take-append_inside xs ys zero h = refl
  take-append_inside [] ys (suc i) h = absurd (omega arith)
  take-append_inside (x ∷ xs) ys (suc i) h = ap (◌∷◌ x) (take-append_inside xs ys i (omega arith))

  pub drop-append_inside :
      (xs ys : List A) (i : ℕ) → i ≤ length xs → drop i (xs ++ ys) ≡ drop i xs ++ ys
  drop-append_inside xs ys zero h = refl
  drop-append_inside [] ys (suc i) h = absurd (omega arith)
  drop-append_inside (x ∷ xs) ys (suc i) h = drop-append_inside xs ys i (omega arith)

  pub set_two :
      (xs : List A) (i : ℕ) (x y : A)
      → suc i < length xs
      → set (set xs i x) (suc i) y ≡ take i xs ++ x ∷ y ∷ drop (suc (suc i)) xs
  set_two [] i x y h = absurd (omega arith)
  set_two (z ∷ []) i x y h = absurd (omega arith)
  set_two (z ∷ w ∷ xs) zero x y h = refl
  set_two (z ∷ w ∷ xs) (suc i) x y h = ap (◌∷◌ z) (set_two (w ∷ xs) i x y (omega arith))

  pub take-set : (xs : List A) (i : ℕ) (x : A) → take i (set xs i x) ≡ take i xs
  take-set [] i x = refl
  take-set (y ∷ ys) zero x = refl
  take-set (y ∷ ys) (suc i) x = ap (◌∷◌ y) (take-set ys i x)

  pub drop-set : (xs : List A) (i : ℕ) (x : A) → drop (suc i) (set xs i x) ≡ drop (suc i) xs
  drop-set [] i x = refl
  drop-set (y ∷ ys) zero x = refl
  drop-set (y ∷ ys) (suc i) x = drop-set ys i x

  pub get_elem?-set_self :
      (xs : List A) (i : ℕ) (x : A) → i < length xs → get_elem? (set xs i x) i ≡ some x
  get_elem?-set_self [] i x h = absurd (omega arith)
  get_elem?-set_self (y ∷ ys) zero x h = refl
  get_elem?-set_self (y ∷ ys) (suc i) x h = get_elem?-set_self ys i x (omega arith)

  pub set-get_elem? : (xs : List A) (i : ℕ) (x : A) → get_elem? xs i ≡ some x → set xs i x ≡ xs
  set-get_elem? [] i x h = refl
  set-get_elem? (y ∷ ys) zero x h = ap (λ z. z ∷ ys) (sym (some-injective y x h))
  set-get_elem? (y ∷ ys) (suc i) x h = ap (◌∷◌ y) (set-get_elem? ys i x h)

module _ {ℓ κ} {A : Type ℓ} (P : A → Type κ) where
  pub All-append : (xs ys : List A) → All P xs → All P ys → All P (xs ++ ys)
  All-append [] ys h k = k
  All-append (x ∷ xs) ys h k = (h.0, All-append xs ys h.1 k)

  pub All-append_left : (xs ys : List A) → All P (xs ++ ys) → All P xs
  All-append_left [] ys h = tt
  All-append_left (x ∷ xs) ys h = (h.0, All-append_left xs ys h.1)

  pub All-append_right : (xs ys : List A) → All P (xs ++ ys) → All P ys
  All-append_right [] ys h = h
  All-append_right (x ∷ xs) ys h = All-append_right xs ys h.1

  pub All-take : (n : ℕ) (xs : List A) → All P xs → All P (take n xs)
  All-take zero xs h = tt
  All-take (suc n) [] h = tt
  All-take (suc n) (x ∷ xs) h = (h.0, All-take n xs h.1)

  pub All-drop : (n : ℕ) (xs : List A) → All P xs → All P (drop n xs)
  All-drop zero xs h = h
  All-drop (suc n) [] h = tt
  All-drop (suc n) (x ∷ xs) h = All-drop n xs h.1

  pub All-set : (xs : List A) (i : ℕ) (x : A) → P x → All P xs → All P (set xs i x)
  All-set [] i x p h = tt
  All-set (y ∷ ys) zero x p h = (p, h.1)
  All-set (y ∷ ys) (suc i) x p h = (h.0, All-set ys i x p h.1)

  pub All-get_elem? : (xs : List A) (i : ℕ) {x : A} → All P xs → get_elem? xs i ≡ some x → P x
  All-get_elem? [] i h e = cc
  All-get_elem? (y ∷ ys) zero {x} h e = subst P (some-injective y x e) h.0
  All-get_elem? (y ∷ ys) (suc i) h e = All-get_elem? ys i h.1 e
