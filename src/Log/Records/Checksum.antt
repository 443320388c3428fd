-- ===== src/Log/Records/Checksum.antt =====
-- What the checksum of a record does and does not tell apart, for any digest.
use event_stream_broker.Prelude.{
  ◌≤◌, ◌<◌, ◌≡◌, refl, ap, sym, ◌∙◌, false, Option, none, some, List, [], ◌∷◌, ◌++◌, append_assoc,
  arith, length, bytes_eq, bytes_beq_iff,
}
use event_stream_broker.Failure.{ok}
use event_stream_broker.Log.Records.{
  Bytes, Text, Record, max_value_bytes, payload, unnamed_header, body_digest, make_record, verify,
}

module _ (digest : Bytes → Bytes) where
  made-fields :
      (value : Bytes) (key : Option Bytes) (headers : List (Text × Text)) {r : Record}
      → make_record digest value key headers ≡ ok r
      → (0 < length value)
        × (length value ≤ max_value_bytes)
        × (unnamed_header headers ≡ false)
        × (record {
          value = value;
          key = key;
          headers = headers;
          checksum = digest (payload value key headers);
        }
            ≡ r)
  unfolding make_record
  made-fields value key headers made = ground (arith, made)

  verify-intro : (r : Record) → r.checksum ≡ body_digest digest r → verify digest r ≡ ok tt
  unfolding verify
  verify-intro r same = rw ((bytes_beq_iff r.checksum (body_digest digest r)).1 same)

  verify-elim : (r : Record) → verify digest r ≡ ok tt → r.checksum ≡ body_digest digest r
  unfolding verify
  verify-elim r passed = ground (arith, passed, bytes_beq_iff r.checksum (body_digest digest r))

  -- A record that is constructed has a value within the bounds and only named headers, and it
  -- passes its own check.
  pub make_record-verify :
      (value : Bytes) (key : Option Bytes) (headers : List (Text × Text)) {r : Record}
      → make_record digest value key headers ≡ ok r
      → (0 < length r.value)
        × (length r.value ≤ max_value_bytes)
        × (unnamed_header r.headers ≡ false)
        × (verify digest r ≡ ok tt)
  unfolding body_digest
  make_record-verify value key headers {r} made =
      let (filled, fits, named, same) = made-fields value key headers made in
      rw (← same) (filled, fits, named, verify-intro _ refl)

  -- If no two payloads share a digest, a record that passes its check has the payload that it was
  -- constructed with, whatever was done to its fields since.
  pub verify-payload :
      ((p q : Bytes) → digest p ≡ digest q → p ≡ q)
      → (value : Bytes) (key : Option Bytes) (headers : List (Text × Text)) {r : Record}
      → make_record digest value key headers ≡ ok r
      → (altered : Record) → altered.checksum ≡ r.checksum
      → verify digest altered ≡ ok tt
      → payload altered.value altered.key altered.headers ≡ payload value key headers
  unfolding body_digest
  verify-payload injective value key headers made altered kept passed =
      let (_, _, _, same) = made-fields value key headers made in
      injective _ _ (sym (verify-elim altered passed) ∙ kept ∙ sym (ap Record.checksum same))

  -- The parts are joined with a bar and no lengths, so the check passes a record whose value was
  -- cut at a bar and whose key took over the rest: it has changed, and no digest can tell.
  pub verify-ambiguous :
      (a b : Bytes) {r : Record}
      → make_record digest (a ++ b'|' ∷ b) none [] ≡ ok r
      → verify digest (record r { value = a; key = some (b ++ b'|' ∷ []) }) ≡ ok tt
  unfolding body_digest payload
  verify-ambiguous a b made =
      let (_, _, _, same) = made-fields (a ++ b'|' ∷ b) none [] made in
      verify-intro _ (
        sym (ap Record.checksum same)
        ∙ ap digest (append_assoc a (b'|' ∷ b) (b'|' ∷ []))
        ∙ ap
            (λ h.
              body_digest digest
                (record { value = a; key = some (b ++ b'|' ∷ []); headers = h; checksum = [] }))
            (ap Record.headers same))
