-- ===== src/Log/SegmentLog.antt =====
-- relay/segmentlog.py, class SegmentLog: the chain of segments, of which only the last takes
-- appends. The list is the code's, so `segments[0]` and `segments[-1]` may fail on it.
pub mod Chain
pub mod View
pub mod Appends
pub mod Reads
pub mod Drops
use mathlib.Core.List.{head?}
use event_stream_broker.Prelude.{
  ℕ, ◌+◌, Bool, true, false, not, ◌&&◌, Option, none, some, List, [], ◌∷◌, ◌++◌, ltb, leb,
  if◌then◌else◌, length, get_last?, set_last, nat_beq,
}
use event_stream_broker.Failure.{
  Result, ok, err, missing, lagging, invalid, index_error, or_fail, fail_if, ◌>>=◌, ◌>>◌,
}
use event_stream_broker.Failure.Method.{Method}
use event_stream_broker.Log.Records
use event_stream_broker.Log.Records.{Record}
use event_stream_broker.Log.Segment
use event_stream_broker.Log.Segment.{Segment}

abbrev pub roll_at_bytes : ℕ
roll_at_bytes = 4096

pub record SegmentLog : Type 0 where
  pub segments : List Segment
  pub rolls : ℕ

abbrev pub open_segment : ℕ → Segment
open_segment base = record { base_offset = base; records = []; sealed = false }

-- `SegmentLog(segments, rolls)`, with its `__post_init__`
unfoldable pub make_log : List Segment → ℕ → SegmentLog
make_log [] rolls = record { segments = open_segment 0 ∷ []; rolls = rolls }
make_log (s ∷ segments) rolls = record { segments = s ∷ segments; rolls = rolls }

unfoldable pub active : SegmentLog → Result Segment
active log = or_fail (get_last? log.segments) index_error

-- The active segment is an object of the list, so the write shows there.
write_active : Record → Segment → Method SegmentLog ℕ
write_active r segment log =
    let (offset, segment') = Segment.append r segment in
    (offset, record log { segments = set_last log.segments segment' })

abbrev must_roll : Record → Segment → Bool
must_roll r segment =
    ltb roll_at_bytes (Segment.size_bytes segment + Records.size_bytes r)
    && not (nat_beq (length segment.records) 0)

abbrev roll : Segment → SegmentLog → SegmentLog
roll segment log = record {
  segments =
      set_last log.segments (record segment { sealed = true })
      ++ open_segment (Segment.next_offset segment) ∷ [];
  rolls = log.rolls + 1;
}

append_to : Record → Result Segment → Method SegmentLog ℕ
unfolding write_active
append_to r (err e) log = (err e, log)
append_to r (ok segment) log =
    if must_roll r segment
    then write_active r (open_segment (Segment.next_offset segment)) (roll segment log)
    else write_active r segment log

unfoldable pub append : Record → Method SegmentLog ℕ
unfolding append_to active
append r log = append_to r (active log) log

unfoldable pub first_offset : SegmentLog → Result ℕ
first_offset log = do oldest ← or_fail (head? log.segments) index_error; ok oldest.base_offset

unfoldable pub next_offset : SegmentLog → Result ℕ
unfolding active
next_offset log = do segment ← active log; ok (Segment.next_offset segment)

read_in : ℕ → List Segment → Result Record
read_in offset [] = err invalid
read_in offset (s ∷ rest) =
    if Segment.holds offset s then Segment.read offset s else read_in offset rest

unfoldable pub read : ℕ → SegmentLog → Result Record
unfolding first_offset next_offset read_in
read offset log = do
  first ← first_offset log
  fail_if (ltb offset first) lagging
  next ← next_offset log
  fail_if (leb next offset) missing
  read_in offset log.segments

-- The loop pops the oldest segment and counts.
drop_loop : ℕ → List Segment → ℕ → List Segment × ℕ
drop_loop offset [] dropped = ([], dropped)
drop_loop offset (s ∷ []) dropped = (s ∷ [], dropped)
drop_loop offset (s ∷ t ∷ rest) dropped =
    let more = drop_loop offset (t ∷ rest) (dropped + 1) in
    if s.sealed && leb (Segment.next_offset s) offset then more else (s ∷ t ∷ rest, dropped)

unfoldable pub drop_sealed_before : ℕ → SegmentLog → ℕ × SegmentLog
unfolding drop_loop
drop_sealed_before offset log =
    let (segments, dropped) = drop_loop offset log.segments 0 in
    (dropped, record log { segments = segments })
