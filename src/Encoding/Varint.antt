-- ===== src/Encoding/Varint.antt =====
-- relay/varint.py: integers in groups of seven bits, small ones in few bytes.
pub mod RoundTrip
use Prim.Native.Nat.{bit_xor}
use event_stream_broker.Prelude.{
  ℕ, zero, suc, ◌+◌, ◌-◌, ◌*◌, ◌/◌, ◌%◌, ◌^◌, Bool, true, false, List, [], ◌∷◌, ltb, leb, nat_beq,
  if◌then◌else◌,
}
use event_stream_broker.Prelude.Int.{ℤ, pos, negsuc}
use event_stream_broker.Failure.{Result, ok, err, invalid}
use event_stream_broker.Log.Records.{Bytes}

abbrev pub max_bytes : ℕ
max_bytes = 10

-- `value << 1` if that is not negative, and else `(value << 1) ^ (value >> 63)`. For value = -(n + 1)
-- the parts are the complements of 2n + 1 and of n / 2^63, and the complements cancel under `^`.
unfoldable pub zigzag_encode : ℤ → ℕ
zigzag_encode (pos n) = n * 2
zigzag_encode (negsuc n) = bit_xor (suc (n * 2)) (n / 2 ^ 63)

-- `(value >> 1) ^ -(value & 1)`: `^ -1` is the complement.
unfoldable pub zigzag_decode : ℕ → ℤ
zigzag_decode z = if nat_beq (z % 2) 0 then pos (z / 2) else negsuc (z / 2)

-- The loop of encode_varint, on fuel. `n & 0x7F` is n % 128, and 0x80 is a bit above it.
unfoldable pub encode_loop : ℕ → ℕ → Bytes
encode_loop zero n = []
encode_loop (suc fuel) n =
    let more = (n % 128 + 128) ∷ encode_loop fuel (n / 128) in
    if nat_beq (n / 128) 0 then (n % 128) ∷ [] else more

-- A number falls with every round, so that it is fuel enough for itself.
unfoldable pub encode_varint : ℤ → Bytes
unfolding zigzag_encode encode_loop
encode_varint value = let n = zigzag_encode value in encode_loop (suc n) n

-- The loop of decode_varint over the bytes that are left. The result so far has no bit at `shift` or
-- above, so that `|=` adds the group.
unfoldable pub decode_loop : Bytes → ℕ → ℕ → ℕ → Result (ℤ × ℕ)
unfolding zigzag_decode
decode_loop [] i result shift = err invalid
decode_loop (byte ∷ bytes) i result shift =
    let result' = result + byte % 128 * 2 ^ shift in
    let more = decode_loop bytes (suc i) result' (shift + 7) in
    if leb max_bytes i
    then err invalid
    else if ltb byte 128
    then ok (zigzag_decode result', suc i)
    else more

unfoldable pub decode_varint : Bytes → Result (ℤ × ℕ)
unfolding decode_loop
decode_varint bytes = decode_loop bytes 0 0 0
