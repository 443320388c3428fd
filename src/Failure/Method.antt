-- ===== src/Failure/Method.antt =====
-- A method that changes its object and may raise.
use event_stream_broker.Prelude.{Bool, true, false, Option, none, some}
use event_stream_broker.Failure.{RelayError, Result, ok, err}

-- A method of a class whose state is `S`. What it wrote before a raise stays written, so the state
-- comes back beside an error too.
abbrev pub Method {ℓ} : Type ℓ → Type ℓ → Type ℓ
Method S A = S → Result A × S

module _ {ℓ} {S A : Type ℓ} where
  abbrev pub pure : A → Method S A
  pure a s = (ok a, s)

  abbrev pub raise : RelayError → Method S A
  raise e s = (err e, s)

  abbrev pub gets : (S → A) → Method S A
  gets f s = (ok (f s), s)

  abbrev pub lift : Result A → Method S A
  lift r s = (r, s)

  abbrev pub or_raise : Option A → RelayError → Method S A
  or_raise none e = raise e
  or_raise (some a) e = pure a

abbrev pub continue {ℓ} : {S A B : Type ℓ} → Result A × S → (A → Method S B) → Result B × S
continue (ok a, s) f = f a s
continue (err e, s) f = (err e, s)

infixl 5 ◌>>=◌ ◌>>◌
abbrev pub ◌>>=◌ {ℓ} : {S A B : Type ℓ} → Method S A → (A → Method S B) → Method S B
◌>>=◌ m f s = continue (m s) f

abbrev pub ◌>>◌ {ℓ} : {S A B : Type ℓ} → Method S A → Method S B → Method S B
m >> k = m >>= λ _. k

-- `if c: raise e`
abbrev pub raise_if {ℓ} : {S : Type ℓ} → Bool → RelayError → Method S (Unit {ℓ})
raise_if true e s = (err e, s)
raise_if false e s = (ok tt, s)

abbrev pub modify {ℓ} : {S : Type ℓ} → (S → S) → Method S (Unit {ℓ})
modify f s = (ok tt, f s)
