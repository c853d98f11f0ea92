-- ===== src/Prelude/Errors.antt =====
-- A handler that throws an `AppException`: the result is a value or the error's code.
use mathlib.Core.Bool.{Bool, true, false}

pub data Result {ℓ κ} (E : Type κ) (A : Type ℓ) : Type (ℓ ⊔ κ) where
  ok : A → Result E A
  err : E → Result E A

infixl 5 ◌>>=◌ ◌>>◌
abbrev pub ◌>>=◌ {ℓ κ ι} :
    {E : Type ι} {A : Type ℓ} {B : Type κ} → Result E A → (A → Result E B) → Result E B
ok a >>= f = f a
err e >>= f = err e

abbrev pub ◌>>◌ {κ ι} : {E : Type ι} {B : Type κ} → Result E (Unit {0}) → Result E B → Result E B
m >> k = m >>= λ _. k

-- `if (c) throw e;`
abbrev pub throw_if {ι} : {E : Type ι} → Bool → E → Result E (Unit {0})
throw_if true e = err e
throw_if false e = ok tt
