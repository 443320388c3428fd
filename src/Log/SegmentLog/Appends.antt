-- ===== src/Log/SegmentLog/Appends.antt =====
-- Appending to the segment log, with the roll of a full segment, against the view.
use event_stream_broker.Prelude.{
  ◌≡◌, refl, ap, ◌∙◌, false, some, inl, inr, arith, get_last?, Bool-cases,
}
use event_stream_broker.Failure.{ok}
use event_stream_broker.Log.Records.{Record}
use event_stream_broker.Log.Segment
use event_stream_broker.Log.Segment.{Segment}
use event_stream_broker.Log.SegmentLog.{
  SegmentLog, append, append_to, write_active, active, must_roll, open_segment, roll,
}
use event_stream_broker.Log.SegmentLog.Chain.{IsChain-active, IsChain-grown, IsChain-rolled}
use event_stream_broker.Log.SegmentLog.View.{view, IsLog, view_append, view_end, View-eq}

write-refines :
    (r : Record) (a : Segment) (log : SegmentLog)
    → IsLog log
    → get_last? log.segments ≡ some a
    → a.sealed ≡ false
    → let (offset, log') = write_active r a log in
      IsLog log' × (offset ≡ ok (Segment.next_offset a)) × (view log' ≡ view_append r (view log))
unfolding write_active
write-refines r a log h last open_ =
    let (chain, same, begins) = IsChain-grown log.segments r h last in
    rw (Segment.append-open r a open_) (chain, refl, View-eq begins same)

append_to-refines :
    (r : Record) (a : Segment) (log : SegmentLog)
    → IsLog log
    → get_last? log.segments ≡ some a
    → a.sealed ≡ false
    → let (offset, log') = append_to r (ok a) log in
      IsLog log' × (offset ≡ ok (Segment.next_offset a)) × (view log' ≡ view_append r (view log))
unfolding append_to
append_to-refines r a log h last open_ = elim (Bool-cases (must_roll r a)) [
  | inl full ↦
      let (chain, same, begins, last') =
        IsChain-rolled log.segments h last (ground (arith, full)) in
      let (valid, offset, extended) =
        write-refines r (open_segment (Segment.next_offset a)) (roll a log) chain last' refl in
      rw full
        (valid, offset ∙ ap ok (omega arith), extended ∙ ap (view_append r) (View-eq begins same))
  | inr room ↦ rw room (write-refines r a log h last open_)
]

-- On a well-formed log an append never fails: it returns the next offset, keeps the log well
-- formed, whether or not the active segment rolls, and adds the record at the end of the view.
pub append-refines :
    (r : Record) (log : SegmentLog)
    → IsLog log
    → let (offset, log') = append r log in
      IsLog log' × (offset ≡ ok (view_end (view log))) × (view log' ≡ view_append r (view log))
unfolding append active
append-refines r log h =
    let (a, last, open_, ends) = IsChain-active log.segments h in
    let (valid, offset, extended) = append_to-refines r a log h last open_ in
    rw last (valid, offset ∙ ap ok ends, extended)
