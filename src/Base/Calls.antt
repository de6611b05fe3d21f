-- ===== src/Base/Calls.antt =====
-- What a C++ call does: it returns, throws a standard exception, or has undefined behaviour.
use Prim.Native.String.{String}
use mathlib.Core.Bool.{Bool, true, false}

pub data Exception : Type 0 where
  invalid_argument : String → Exception
  runtime_error : String → Exception
  system_error : String → Exception
  other_exception : String → Exception

-- `std::exception::what`
unfoldable pub what : Exception → String
what (invalid_argument s) = s
what (runtime_error s) = s
what (system_error s) = s
what (other_exception s) = s

pub data Outcome {ℓ} (A : Type ℓ) : Type ℓ where
  ok : A → Outcome A
  throw : Exception → Outcome A
  undefined : Outcome A

-- The next call runs if this one returns; an exception leaves both.
infixl 5 ◌>>=◌ ◌>>◌
abbrev pub ◌>>=◌ {ℓ κ} : {R : Type ℓ} {S : Type κ} → Outcome R → (next : R → Outcome S) → Outcome S
ok value >>= next = next value
undefined >>= next = undefined
throw e >>= next = throw e

abbrev pub ◌>>◌ {ℓ} : {S : Type ℓ} → Outcome (Unit {0}) → (next : Outcome S) → Outcome S
call >> next = call >>= λ _. next

-- `if (b) throw e;`
abbrev pub throw_if : Bool → Exception → Outcome (Unit {0})
throw_if true e = throw e
throw_if false e = ok tt
