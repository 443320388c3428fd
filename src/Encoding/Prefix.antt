-- ===== src/Encoding/Prefix.antt =====
-- relay/prefixcompression.py: sorted keys, each as what it shares with the key before it and the rest.
pub mod RoundTrip
use event_stream_broker.Prelude.{
  ℕ, zero, suc, Bool, true, false, List, [], ◌∷◌, ◌++◌, ltb, nat_beq, if◌then◌else◌, take, drop,
  length,
}
use event_stream_broker.Failure.{Result, ok, err, invalid, ◌>>=◌}
use event_stream_broker.Log.Records.{Text}

-- `a < b` on str: by code points, from the left.
unfoldable pub text_ltb : Text → Text → Bool
text_ltb a [] = false
text_ltb [] (d ∷ b) = true
text_ltb (c ∷ a) (d ∷ b) =
    let rest = text_ltb a b in if ltb c d then true else if nat_beq c d then rest else false

unfoldable pub shared_len : Text → Text → ℕ
shared_len [] b = 0
shared_len (c ∷ a) [] = 0
shared_len (c ∷ a) (d ∷ b) = let rest = suc (shared_len a b) in if nat_beq c d then rest else 0

-- The first loop of encode: whether a key is below the one before it.
unfoldable pub falls : Text → List Text → Bool
unfolding text_ltb
falls prev [] = false
falls prev (key ∷ keys) = if text_ltb key prev then true else falls key keys

-- The second loop, after a key.
unfoldable pub entries_from : Text → List Text → List (ℕ × Text)
unfolding shared_len
entries_from prev [] = []
entries_from prev (key ∷ keys) =
    let shared = shared_len prev key in (shared, drop shared key) ∷ entries_from key keys

unfoldable pub encode : List Text → Result (List (ℕ × Text))
unfolding falls entries_from
encode [] = ok []
encode (key ∷ keys) =
    if falls key keys then err invalid else ok ((0, drop 0 key) ∷ entries_from key keys)

-- The loop of decode, after a key.
unfoldable pub decode_from : Text → List (ℕ × Text) → Result (List Text)
decode_from prev [] = ok []
decode_from prev ((shared, suffix) ∷ entries) =
    let key = take shared prev ++ suffix in
    let rest = decode_from key entries >>= λ keys. ok (key ∷ keys) in
    if ltb (length prev) shared then err invalid else rest

unfoldable pub decode : List (ℕ × Text) → Result (List Text)
unfolding decode_from
decode entries = decode_from [] entries
