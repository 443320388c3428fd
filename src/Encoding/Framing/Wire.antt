-- ===== src/Encoding/Framing/Wire.antt =====
-- Frames written on the wire come back, however the stream is cut.
use event_stream_broker.Prelude.{
  ℕ, ◌/◌, ◌%◌, ◌≤◌, ◌<◌, ◌≡◌, refl, ap, ◌∙◌, List, [], ◌∷◌, ◌++◌, arith, length, drop,
  length-append, append_assoc, All, take_all,
}
use event_stream_broker.Failure.{ok, err, invalid}
use event_stream_broker.Log.Records.{Bytes}
use event_stream_broker.Encoding.Framing.{
  FrameReader, refused, frame, carve, carve_at, big_endian, before, feed,
}
use event_stream_broker.Encoding.Framing.Rounds.{run, run_frame, loop_waiting, loop_refused}
use event_stream_broker.Encoding.Framing.Chunks.{feed_each, concat, feed_each-concat}

-- A payload as the protocol frames it: its length in four bytes, the highest first, and its bytes.
abbrev pub wire : Bytes → Bytes
wire p = let n = length p in (n / 16777216) ∷ (n / 65536 % 256) ∷ (n / 256 % 256) ∷ (n % 256) ∷ p

abbrev pub wires : List Bytes → Bytes
wires [] = []
wires (p ∷ ps) = wire p ++ wires ps

-- A length that the reader takes and that a signed field of four bytes can carry.
abbrev pub Fits : ℕ → Bytes → Type 0
Fits max_size p = (length p ≤ max_size) × (length p < 2147483648)

drop_all : (xs ys : Bytes) → drop (length xs) (xs ++ ys) ≡ ys
drop_all [] ys = refl
drop_all (x ∷ xs) ys = drop_all xs ys

carve-wire : (m : ℕ) (p more : Bytes) → Fits m p → carve m (wire p ++ more) ≡ frame p more
unfolding carve carve_at
carve-wire m p more h =
    let size : big_endian (length p / 16777216) (length p / 65536 % 256) (length p / 256 % 256)
          (length p % 256)
        ≡ length p =
      omega arith in
    rw size (ground (arith, h, length-append p more, take_all p more, drop_all p more))

run-wires : (m : ℕ) (ps : List Bytes) → All (Fits m) ps → run m (wires ps) ≡ (ok ps, [])
unfolding carve
run-wires m [] h = loop_waiting 0 m [] refl
run-wires m (p ∷ ps) h =
    run_frame m (wires (p ∷ ps)) (carve-wire m p (wires ps) h.0)
    ∙ ap (before (p ∷ [])) (run-wires m ps h.1)

-- Write frames that the reader takes one after another and cut their bytes into chunks anywhere: a
-- fresh reader that is fed the chunks gives exactly the frames, in order, and keeps nothing back.
pub feed_each-wires :
    (max_size : ℕ) (ps : List Bytes) (a : Bytes) (bs : List Bytes)
    → All (Fits max_size) ps
    → a ++ concat bs ≡ wires ps
    → let r : FrameReader = record { max_size = max_size; buffer = [] } in
      feed_each a bs r ≡ (ok ps, r)
unfolding feed
feed_each-wires max_size ps a bs fits cut =
    feed_each-concat a bs (record { max_size = max_size; buffer = [] })
      (rw cut (rw (run-wires max_size ps fits) refl))

run-lost :
    (m : ℕ) (ps : List Bytes) (bad : Bytes)
    → All (Fits m) ps
    → carve m bad ≡ refused
    → run m (wires ps ++ bad) ≡ (err invalid, bad)
run-lost m [] bad h wrong = loop_refused (length bad) m bad wrong
run-lost m (p ∷ ps) bad h wrong =
    ap (run m) (append_assoc (wire p) (wires ps) bad)
    ∙ run_frame m (wire p ++ (wires ps ++ bad)) (carve-wire m p (wires ps ++ bad) h.0)
    ∙ ap (before (p ∷ [])) (run-lost m ps bad h.1 wrong)

-- A refused frame fails its whole chunk: the frames that were complete before it in that chunk are
-- neither returned nor left in the buffer, which keeps the refused bytes alone.
pub feed-lost :
    (max_size : ℕ) (ps : List Bytes) (bad : Bytes)
    → All (Fits max_size) ps
    → carve max_size bad ≡ refused
    → feed (wires ps ++ bad) (record { max_size = max_size; buffer = [] })
      ≡ (err invalid, record { max_size = max_size; buffer = bad })
unfolding feed
feed-lost max_size ps bad fits wrong = rw (run-lost max_size ps bad fits wrong) refl
