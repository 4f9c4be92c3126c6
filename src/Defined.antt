-- ===== src/Defined.antt =====
-- A step of the source may panic, or read what is not initialised. `none` stands for both, so a
-- theorem that a call is `some` of a value says that neither happens.
use btree_monstrousity.Prelude.{Option, none, some, Bool, true, false}

abbrev pub Defined {ℓ} : Type ℓ → Type ℓ
Defined A = Option A

infixl 5 ◌>>=◌
abbrev pub ◌>>=◌ {ℓ κ} : {A : Type ℓ} {B : Type κ} → Defined A → (A → Defined B) → Defined B
none >>= f = none
some a >>= f = f a

-- `assert!`.
abbrev pub assert : Bool → Defined (Unit {0})
assert true = some tt
assert false = none
