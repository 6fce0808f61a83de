-- ===== src/Base/Running.antt =====
-- The outcome of running a piece of C code.
use mathlib.Core.Bool.{Bool, true, false}

-- `ok` is a normal end. `fault` is undefined behaviour: a dereference of NULL or of an
-- indeterminate pointer, a read of an indeterminate value, or a write past the end of an array.
-- `blocked` waits for input that has not come. `stopped` is a call of `exit`. `out_of_fuel` says
-- that the bound on a loop was too small.
pub data Outcome {ℓ} (A : Type ℓ) : Type ℓ where
  ok : A → Outcome A
  fault : Outcome A
  blocked : Outcome A
  stopped : Outcome A
  out_of_fuel : Outcome A

module _ {ℓ κ} {A : Type ℓ} {B : Type κ} where
  infixl 5 ◌>>=◌ ◌>>◌
  abbrev pub ◌>>=◌ : Outcome A → (A → Outcome B) → Outcome B
  ok a >>= f = f a
  fault >>= f = fault
  blocked >>= f = blocked
  stopped >>= f = stopped
  out_of_fuel >>= f = out_of_fuel

  abbrev pub ◌>>◌ : Outcome A → Outcome B → Outcome B
  m >> k = m >>= λ _. k

-- What a condition guards; if it fails the behaviour is undefined.
abbrev pub require : Bool → Outcome (Unit {0})
require true = ok tt
require false = fault

-- What holds of the result, if there is one.
abbrev pub AllOk {ℓ κ} : {A : Type ℓ} → (A → Type κ) → Outcome A → Type κ
AllOk P (ok a) = P a
AllOk P fault = Unit
AllOk P blocked = Unit
AllOk P stopped = Unit
AllOk P out_of_fuel = Unit

pub AllOk-bind {ℓ κ μ ν} :
    {A : Type ℓ} {B : Type κ} (P : A → Type μ) (Q : B → Type ν) (m : Outcome A) (f : A → Outcome B)
    → AllOk P m
    → ((a : A) → P a → AllOk Q (f a))
    → AllOk Q (m >>= f)
AllOk-bind P Q (ok a) f h k = k a h
AllOk-bind P Q fault f h k = tt
AllOk-bind P Q blocked f h k = tt
AllOk-bind P Q stopped f h k = tt
AllOk-bind P Q out_of_fuel f h k = tt

pub AllOk-after {ℓ κ ν} :
    {A : Type ℓ} {B : Type κ} (Q : B → Type ν) (m : Outcome A) (f : A → Outcome B)
    → ((a : A) → AllOk Q (f a))
    → AllOk Q (m >>= f)
AllOk-after Q (ok a) f k = k a
AllOk-after Q fault f k = tt
AllOk-after Q blocked f k = tt
AllOk-after Q stopped f k = tt
AllOk-after Q out_of_fuel f k = tt
