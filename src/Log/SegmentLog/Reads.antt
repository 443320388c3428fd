-- ===== src/Log/SegmentLog/Reads.antt =====
-- Reading the segment log by offset, against the view.
use event_stream_broker.Prelude.{
  ℕ, ◌-◌, ◌≤◌, ◌<◌, ◌≡◌, refl, ap, true, false, List, [], ◌∷◌, inl, inr, arith, ltb, leb, ◌⊎◌,
  length, length-append, get_elem?, append-nil, Bool-cases, get_elem?-append_left,
  get_elem?-append_right, get_elem?_end,
}
use event_stream_broker.Failure.{ok, missing, lagging, index_error, or_fail, fail_if, ◌>>=◌, ◌>>◌}
use mathlib.Core.List.{head?}
use event_stream_broker.Log.Segment
use event_stream_broker.Log.Segment.{Segment}
use event_stream_broker.Log.SegmentLog.{
  SegmentLog, active, read, read_in, first_offset, next_offset,
}
use event_stream_broker.Log.SegmentLog.Chain.{IsChain, IsChain-active, entries, start, end}
use event_stream_broker.Log.SegmentLog.View.{view, IsLog, view_end, view_read}

-- `first_offset` and `next_offset` do not fail on a well-formed log.
head-start :
    (segments : List Segment)
    → IsChain segments
    → (or_fail (head? segments) index_error >>= λ s. ok s.base_offset) ≡ ok (start segments)
head-start [] h = elim h [ ]
head-start (s ∷ rest) h = refl

pub first_offset-refines : (log : SegmentLog) → IsLog log → first_offset log ≡ ok (view log).start
unfolding first_offset
first_offset-refines log h = head-start log.segments h

pub next_offset-refines :
    (log : SegmentLog) → IsLog log → next_offset log ≡ ok (view_end (view log))
unfolding next_offset active
next_offset-refines log h =
    let (a, last, open_, ends) = IsChain-active log.segments h in rw last (ap ok ends)

read_in-refines :
    (offset : ℕ) (segments : List Segment)
    → IsChain segments
    → start segments ≤ offset
    → offset < end segments
    → read_in offset segments
      ≡ or_fail (get_elem? (entries segments) (offset - start segments)) missing
unfolding read_in
read_in-refines offset [] h low high = elim h [ ]
read_in-refines offset (s ∷ []) h low high =
    let (r, at, held, found) = Segment.read-holds offset s low (rw append-nil at high) in
    rw (held, append-nil, at) found
read_in-refines offset (s ∷ t ∷ rest) h low high =
    elim (Bool-cases (ltb offset (Segment.next_offset s))) [
      | inl here ↦
          let inside : offset < Segment.next_offset s = ground (arith, here) in
          let (r, at, held, found) = Segment.read-holds offset s low inside in
          rw
            (
              held,
              get_elem?-append_left s.records (entries (t ∷ rest)) (offset - s.base_offset)
                  (omega arith),
              at,
            )
            found
      | inr later ↦
          let beyond : Segment.next_offset s ≤ offset = ground (arith, later) in
          let counted = length-append s.records (entries (t ∷ rest)) in
          let shift : offset - s.base_offset - length s.records ≡ offset - t.base_offset =
            omega (arith, h.2) in
          rw
            (
              Segment.not-holds_later offset s beyond,
              get_elem?-append_right s.records (entries (t ∷ rest)) (offset - s.base_offset)
                  (omega arith),
              shift,
            )
            (read_in-refines offset (t ∷ rest) h.3 (omega (arith, h.2))
              (omega (arith, h.2, counted)))
    ]

-- On a well-formed log a read returns the record at that offset of the view, `Lagging` below the
-- retained window and `Missing` past the end; the chain has no hole.
pub read-refines :
    (offset : ℕ) (log : SegmentLog) → IsLog log → read offset log ≡ view_read offset (view log)
unfolding read
read-refines offset log h =
    rw (first_offset-refines log h, next_offset-refines log h) (read_from (Bool-cases _))
  where
    read_from :
        (ltb offset (view log).start ≡ true) ⊎ (ltb offset (view log).start ≡ false)
        → (fail_if (ltb offset (view log).start) lagging
            >> (fail_if (leb (view_end (view log)) offset) missing >> read_in offset log.segments))
          ≡ view_read offset (view log)
    read_from (inl below) = rw below
    read_from (inr at_least) = elim (Bool-cases (leb (view_end (view log)) offset)) [
      | inl past ↦ ground (
        arith,
        at_least,
        past,
        get_elem?_end (view log).entries (offset - (view log).start) (ground (arith, past)),
      )
      | inr inside ↦
          rw (at_least, inside)
            (read_in-refines offset log.segments h (ground (arith, at_least))
              (ground (arith, inside)))
    ]
