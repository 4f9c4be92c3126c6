-- ===== src/Prelude/Ends.antt =====
-- Lists at and past their last slot.
use Prim.Native.Nat.{ℕ, zero, suc, ◌≤◌, ◌<◌}
use mathlib.Core.Path.{◌≡◌, refl, ap}
use mathlib.Core.List.{List, [], ◌∷◌}
use mathlib.Core.Option.{none}
use native.Mathlib.Omega.{arith}
use btree_monstrousity.Prelude.Lists.{take, length, get_elem?, set, drop}

module _ {ℓ} {A : Type ℓ} where
  pub get_elem?-none : (xs : List A) (i : ℕ) → get_elem? xs i ≡ none → length xs ≤ i
  get_elem?-none [] i e = omega arith
  get_elem?-none (x ∷ xs) zero e = cc
  get_elem?-none (x ∷ xs) (suc i) e = omega (arith, get_elem?-none xs i e)

  pub drop_beyond : (xs : List A) (i : ℕ) → length xs ≤ i → drop i xs ≡ []
  drop_beyond [] zero h = refl
  drop_beyond [] (suc i) h = refl
  drop_beyond (x ∷ xs) zero h = absurd (omega arith)
  drop_beyond (x ∷ xs) (suc i) h = drop_beyond xs i (omega arith)

  pub drop_at_set :
      (xs : List A) (i : ℕ) (x : A) → i < length xs → drop i (set xs i x) ≡ x ∷ drop (suc i) xs
  drop_at_set [] i x h = absurd (omega arith)
  drop_at_set (y ∷ ys) zero x h = refl
  drop_at_set (y ∷ ys) (suc i) x h = drop_at_set ys i x (omega arith)

  pub take_beyond : (xs : List A) (i : ℕ) → length xs ≤ i → take i xs ≡ xs
  take_beyond [] zero h = refl
  take_beyond [] (suc i) h = refl
  take_beyond (x ∷ xs) zero h = absurd (omega arith)
  take_beyond (x ∷ xs) (suc i) h = ap (◌∷◌ x) (take_beyond xs i (omega arith))
