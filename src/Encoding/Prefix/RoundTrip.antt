-- ===== src/Encoding/Prefix/RoundTrip.antt =====
-- The entries give the keys back.
use event_stream_broker.Prelude.{
  ℕ, ◌≤◌, ◌≡◌, ◌⊎◌, refl, ap, ◌∙◌, inl, inr, true, false, List, [], ◌∷◌, ◌++◌, arith, nat_beq,
  Bool-cases, take, drop, length, le→ltb, nat_beq_iff,
}
use event_stream_broker.Failure.{ok, err, invalid}
use event_stream_broker.Log.Records.{Text}
use event_stream_broker.Encoding.Prefix.{
  falls, shared_len, entries_from, encode, decode_from, decode,
}

shared_len-le : (a b : Text) → shared_len a b ≤ length a
unfolding shared_len
shared_len-le [] b = omega arith
shared_len-le (c ∷ a) [] = omega arith
shared_len-le (c ∷ a) (d ∷ b) = ground (arith, shared_len-le a b)

-- What is shared of the one, and the rest of the other, is the other.
shared_back : (a b : Text) → take (shared_len a b) a ++ drop (shared_len a b) b ≡ b
unfolding shared_len
shared_back [] b = refl
shared_back (c ∷ a) [] = refl
shared_back (c ∷ a) (d ∷ b) = elim (Bool-cases (nat_beq c d)) [
  | inl same ↦
      rw same (ap (λ l. c ∷ l) (shared_back a b) ∙ ap (λ x. x ∷ b) ((nat_beq_iff c d).0 same))
  | inr other ↦ rw other refl
]

decode_from-entries :
    (prev : Text) (keys : List Text) → decode_from prev (entries_from prev keys) ≡ ok keys
unfolding decode_from entries_from
decode_from-entries prev [] = refl
decode_from-entries prev (key ∷ keys) = rw (
  le→ltb (length prev) (shared_len prev key) (shared_len-le prev key),
  shared_back prev key,
  decode_from-entries key keys,
)

-- Keys are refused exactly if one is below the key before it; otherwise decoding gives the keys back.
pub decode-encode_keys :
    (key : Text) (keys : List Text)
    → ((falls key keys ≡ true) × (encode (key ∷ keys) ≡ err invalid))
      ⊎ ((falls key keys ≡ false)
          × (entries : List (ℕ × Text)) × (encode (key ∷ keys) ≡ ok entries)
          × (decode entries ≡ ok (key ∷ keys)))
unfolding encode decode decode_from
decode-encode_keys key keys = elim (Bool-cases (falls key keys)) [
  | inl down ↦ inl (down, rw down refl)
  | inr up ↦
      inr (up, (0, key) ∷ entries_from key keys, rw up refl, rw (decode_from-entries key keys) refl)
]
