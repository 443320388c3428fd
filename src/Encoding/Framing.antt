-- ===== src/Encoding/Framing.antt =====
-- relay/framing.py: requests carved out of a stream of bytes.
pub mod Rounds
pub mod Chunks
pub mod Wire
use event_stream_broker.Prelude.{
  ℕ, zero, suc, ◌+◌, ◌*◌, ◌-◌, Bool, true, false, List, [], ◌∷◌, ◌++◌, ltb, leb, if◌then◌else◌,
  length, take, drop,
}
use event_stream_broker.Failure.{Result, ok, err, invalid}
use event_stream_broker.Failure.Method.{Method}
use event_stream_broker.Log.Records.{Bytes}

pub record FrameReader : Type 0 where
  pub max_size : ℕ
  pub buffer : Bytes

unfoldable pub make_reader : ℕ → Result FrameReader
make_reader max_size =
    if ltb max_size 1 then err invalid else ok (record { max_size = max_size; buffer = [] })

-- What one round of the loop finds at the start of the buffer. A frame comes with the bytes after it.
pub data Found : Type 0 where
  waiting : Found
  refused : Found
  frame : Bytes → Bytes → Found

-- `int.from_bytes(..., "big", signed=True)` where it is not negative; it is negative exactly where
-- the first byte is 128 or more.
abbrev pub big_endian : ℕ → ℕ → ℕ → ℕ → ℕ
big_endian a b c d = ((a * 256 + b) * 256 + c) * 256 + d

unfoldable pub carve_at : ℕ → ℕ → ℕ → Bytes → Found
carve_at max_size first size rest =
    if leb 128 first
    then refused
    else if ltb max_size size
    then refused
    else if ltb (length rest) size
    then waiting
    else frame (take size rest) (drop size rest)

unfoldable pub carve : ℕ → Bytes → Found
unfolding carve_at
carve max_size (a ∷ b ∷ c ∷ d ∷ rest) = carve_at max_size a (big_endian a b c d) rest
carve max_size [] = waiting
carve max_size (a ∷ []) = waiting
carve max_size (a ∷ b ∷ []) = waiting
carve max_size (a ∷ b ∷ c ∷ []) = waiting

-- A frame before those of the rounds that follow. A raise loses it.
abbrev pub before : {S : Type 0} → List Bytes → Result (List Bytes) × S → Result (List Bytes) × S
before fs (ok gs, b) = (ok (fs ++ gs), b)
before fs (err e, b) = (err e, b)

-- The loop of feed, on fuel: the frames, and the buffer that it leaves. Each round that goes on
-- takes four bytes at least.
unfoldable pub feed_loop : ℕ → ℕ → Bytes → Result (List Bytes) × Bytes
unfolding carve
feed_loop zero max_size buffer = (ok [], buffer)
feed_loop (suc fuel) max_size buffer = elim (carve max_size buffer) [
  | waiting ↦ (ok [], buffer)
  | refused ↦ (err invalid, buffer)
  | frame payload rest ↦ before (payload ∷ []) (feed_loop fuel max_size rest)
]

unfoldable pub feed : Bytes → Method FrameReader (List Bytes)
unfolding feed_loop
feed chunk r =
    let buffer = r.buffer ++ chunk in
    let (result, left) = feed_loop (suc (length buffer)) r.max_size buffer in
    (result, record r { buffer = left })
