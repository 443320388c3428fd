-- ===== src/Failure.antt =====
-- relay/errors.py: what the broker refuses, and the result of a call that may refuse.
pub mod Method
use event_stream_broker.Prelude.{Bool, true, false, Option, none, some}

-- The error family, with the two built-in exceptions that a subscript can raise. The message of an
-- exception is text for a person and is left out.
pub data RelayError : Type 0 where
  invalid missing sealed fenced lagging : RelayError
  index_error key_error : RelayError

pub data Result {ℓ} (A : Type ℓ) : Type ℓ where
  ok : A → Result A
  err : RelayError → Result A

infixl 5 ◌>>=◌ ◌>>◌
abbrev pub ◌>>=◌ {ℓ κ} : {A : Type ℓ} {B : Type κ} → Result A → (A → Result B) → Result B
ok a >>= f = f a
err e >>= f = err e

abbrev pub ◌>>◌ {ℓ κ} : {A : Type ℓ} {B : Type κ} → Result A → Result B → Result B
m >> k = m >>= λ _. k

abbrev pub or_fail {ℓ} : {A : Type ℓ} → Option A → RelayError → Result A
or_fail none e = err e
or_fail (some a) e = ok a

-- `if c: raise e`
abbrev pub fail_if : Bool → RelayError → Result (Unit {0})
fail_if true e = err e
fail_if false e = ok tt
