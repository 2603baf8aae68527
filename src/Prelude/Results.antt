-- ===== src/Prelude/Results.antt =====
-- A Go call's `(value, error)`: a value, or an error of the component's own.
use mathlib.Core.Logic.{◌⊎◌, inl, inr}
use mathlib.Core.Bool.{Bool, true, false}
use mathlib.Core.Option.{Option, none, some}
use mathlib.Core.Path.{◌≡◌, refl}

pub data Result {ℓ κ} (E : Type ℓ) (A : Type κ) : Type (ℓ ⊔ κ) where
  ok : A → Result E A
  err : E → Result E A

infixl 5 ◌>>=◌
abbrev pub ◌>>=◌ {ℓ κ μ} :
    {E : Type ℓ} {A : Type κ} {B : Type μ} → Result E A → (A → Result E B) → Result E B
ok a >>= f = f a
err e >>= f = err e

abbrev pub is_ok {ℓ κ} : {E : Type ℓ} {A : Type κ} → Result E A → Bool
is_ok (ok a) = true
is_ok (err e) = false

-- An early return on a failed test.
abbrev pub require {ℓ} : {E : Type ℓ} → Bool → E → Result E (Unit {0})
require true e = ok tt
require false e = err e

-- The value that an option holds, or the given error.
abbrev pub or_fail {ℓ κ} : {E : Type ℓ} {A : Type κ} → Option A → E → Result E A
or_fail none e = err e
or_fail (some a) e = ok a

module _ {ℓ κ} {E : Type ℓ} {B : Type κ} where
  -- Inversions of a chain that ends in a value.
  pub or_fail_ok {μ} :
      {A : Type μ} (o : Option A) (e : E) (f : A → Result E B) {b : B}
      → (or_fail o e >>= f) ≡ ok b
      → (a : A) × (o ≡ some a) × (f a ≡ ok b)
  or_fail_ok none e f h = cc
  or_fail_ok (some a) e f h = (a, refl, h)

  pub require_ok :
      (t : Bool) (e : E) (f : Unit {0} → Result E B) {b : B}
      → (require t e >>= f) ≡ ok b
      → (t ≡ true) × (f tt ≡ ok b)
  require_ok true e f h = (refl, h)
  require_ok false e f h = cc

pub Result-cases {ℓ κ} :
    {E : Type ℓ}
    → {A : Type κ} → (r : Result E A) → ((a : A) × (r ≡ ok a)) ⊎ ((e : E) × (r ≡ err e))
Result-cases (ok a) = inl (a, refl)
Result-cases (err e) = inr (e, refl)
