-- ===== src/Encoding/RunLength.antt =====
-- relay/runlength.py: runs of equal values as the value and how often. The code only compares the
-- values, so they are of any type with a test for equality.
pub mod RoundTrip
use event_stream_broker.Prelude.{
  ℕ, zero, suc, ◌+◌, Bool, true, false, List, [], ◌∷◌, ◌++◌, Eq, ◌==◌, ltb, if◌then◌else◌,
}
use event_stream_broker.Failure.{Result, ok, err, invalid, ◌>>=◌}

module _ {ℓ} {A : Type ℓ} where
  -- `[value] * count`
  unfoldable pub replicate : ℕ → A → List A
  replicate zero x = []
  replicate (suc n) x = x ∷ replicate n x

  -- The loop of decode, with the values so far.
  unfoldable pub decode_loop : List (A × ℕ) → List A → Result (List A)
  unfolding replicate
  decode_loop [] out = ok out
  decode_loop ((x, count) ∷ runs) out =
      if ltb count 1 then err invalid else decode_loop runs (out ++ replicate count x)

  unfoldable pub decode : List (A × ℕ) → Result (List A)
  unfolding decode_loop
  decode runs = decode_loop runs []

module _ {ℓ} {A : Type ℓ} ⦃e : Eq A⦄ where
  -- The loop of encode over the values after the first, with the runs so far.
  unfoldable pub encode_loop : A → ℕ → List A → List (A × ℕ) → List (A × ℕ)
  encode_loop current count [] out = out ++ (current, count) ∷ []
  encode_loop current count (v ∷ vs) out =
      let same = encode_loop current (suc count) vs out in
      let other = encode_loop v 1 vs (out ++ (current, count) ∷ []) in
      if v == current then same else other

  unfoldable pub encode : List A → List (A × ℕ)
  unfolding encode_loop
  encode [] = []
  encode (v ∷ vs) = encode_loop v 1 vs []
