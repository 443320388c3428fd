-- ===== src/Encoding/Tests.antt =====
-- The theorems of the encodings on concrete inputs, and runs of the code.
use event_stream_broker.Prelude.{ℕ, ◌≡◌, ◌^◌, refl, List, [], ◌∷◌, ◌++◌, arith, length}
use event_stream_broker.Prelude.Int.{pos, negsuc}
use event_stream_broker.Failure.{ok, err, invalid}
use event_stream_broker.Log.Records.{Bytes, Text}
use event_stream_broker.Encoding.Framing.{FrameReader, carve, refused, feed, make_reader}
use event_stream_broker.Encoding.Framing.Chunks.{feed_each}
use event_stream_broker.Encoding.Framing.Wire.{feed_each-wires, feed-lost}
use event_stream_broker.Encoding.RunLength
use event_stream_broker.Encoding.Delta
use event_stream_broker.Encoding.Prefix
use event_stream_broker.Encoding.Varint.{encode_varint, decode_varint}
use event_stream_broker.Encoding.Varint.RoundTrip.{decode-encode_varint, decode-encode_wide}

abbrev two_payloads : List Bytes
two_payloads = (7 ∷ 8 ∷ []) ∷ (9 ∷ []) ∷ []

abbrev fresh : FrameReader
fresh = record { max_size = 4; buffer = [] }

-- The second chunk begins inside the first payload, the third inside the second length.
feed_each-wires_example :
    feed_each (0 ∷ 0 ∷ 0 ∷ 2 ∷ 7 ∷ []) ((8 ∷ 0 ∷ 0 ∷ []) ∷ (0 ∷ 1 ∷ 9 ∷ []) ∷ []) fresh
    ≡ (ok two_payloads, fresh)
feed_each-wires_example =
    feed_each-wires 4 two_payloads (0 ∷ 0 ∷ 0 ∷ 2 ∷ 7 ∷ [])
      ((8 ∷ 0 ∷ 0 ∷ []) ∷ (0 ∷ 1 ∷ 9 ∷ []) ∷ [])
      ((omega arith, omega arith), ((omega arith, omega arith), tt)) refl

-- A size of five, where four are allowed.
abbrev too_large : Bytes
too_large = 0 ∷ 0 ∷ 0 ∷ 5 ∷ 1 ∷ []

too_large-refused : carve 4 too_large ≡ refused
unfolding carve
too_large-refused = refl

feed-lost_example :
    feed (0 ∷ 0 ∷ 0 ∷ 1 ∷ 9 ∷ too_large) fresh
    ≡ (err invalid, record { max_size = 4; buffer = too_large })
feed-lost_example =
    feed-lost 4 ((9 ∷ []) ∷ []) too_large ((omega arith, omega arith), tt) too_large-refused

make_reader_runs : (make_reader 0 ≡ err invalid) × (make_reader 4 ≡ ok fresh)
unfolding make_reader
make_reader_runs = (refl, refl)

abbrev apple : Text
apple = 97 ∷ 112 ∷ 112 ∷ 108 ∷ 101 ∷ []

abbrev apply : Text
apply = 97 ∷ 112 ∷ 112 ∷ 108 ∷ 121 ∷ []

prefix_runs : Prefix.encode (apple ∷ apply ∷ []) ≡ ok ((0, apple) ∷ (4, 121 ∷ []) ∷ [])
unfolding Prefix.encode Prefix.falls Prefix.text_ltb Prefix.entries_from Prefix.shared_len
prefix_runs = refl

decode-encode_varint_example :
    decode_varint (encode_varint (negsuc 149) ++ 1 ∷ [])
    ≡ ok (negsuc 149, length (encode_varint (negsuc 149)))
decode-encode_varint_example = decode-encode_varint (negsuc 149) (1 ∷ []) (omega arith)

varint_runs : encode_varint (pos 150) ≡ 172 ∷ 2 ∷ []
unfolding encode_varint
varint_runs = refl

wide_runs : (k : ℕ) × (decode_varint (encode_varint (negsuc (2 ^ 63)) ++ []) ≡ ok (pos (2 ^ 63), k))
wide_runs = decode-encode_wide (2 ^ 63) [] (omega arith) (omega arith)

delta_runs : Delta.encode (pos 3 ∷ pos 2 ∷ []) ≡ err invalid
unfolding Delta.encode Delta.falls
delta_runs = refl

run_length_runs : RunLength.decode {A = ℕ} ((5, 2) ∷ (6, 1) ∷ []) ≡ ok (5 ∷ 5 ∷ 6 ∷ [])
unfolding RunLength.decode RunLength.decode_loop RunLength.replicate
run_length_runs = refl
