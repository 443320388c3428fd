-- ===== src/Log/Partition/Watermark.antt =====
-- What the watermark of a partition promises.
use event_stream_broker.Prelude.{
  ℕ, ◌+◌, ◌-◌, ◌≤◌, ◌<◌, ◌≡◌, ap, ◌∙◌, ◌⊎◌, some, [], ◌∷◌, arith, ltb, leb, if◌then◌else◌,
  length-append, get_elem?, get_elem?-drop, get_elem?-append_left, length-drop,
  lt-length_of_get_elem?,
}
use event_stream_broker.Failure.{ok, err, missing, invalid}
use event_stream_broker.Log.Records.{Record}
use event_stream_broker.Log.SegmentLog
use event_stream_broker.Log.SegmentLog.View.{
  View, view, IsLog, view_append, view_end, view_read, view_drop,
}
use event_stream_broker.Log.SegmentLog.Appends.{append-refines}
use event_stream_broker.Log.SegmentLog.Reads.{read-refines, next_offset-refines}
use event_stream_broker.Log.SegmentLog.Drops.{drop-refines}
use event_stream_broker.Log.Partition.{Partition, append, advance_watermark, consume}

-- The log is well formed and the watermark does not pass its end.
pub record IsPartition (p : Partition) : Type 0 where
  pub valid : IsLog p.log
  pub within : p.high_watermark ≤ view_end (view p.log)

pub advance-cases :
    (to_offset : ℕ) (p : Partition)
    → IsPartition p
    → advance_watermark to_offset p ≡ (
        if ltb to_offset p.high_watermark
        then (err invalid, p)
        else if ltb (view_end (view p.log)) to_offset
        then (err invalid, p)
        else (ok tt, record p { high_watermark = to_offset }))
unfolding advance_watermark
advance-cases to_offset p h = rw (next_offset-refines p.log h.valid) (ground arith)

-- The watermark of a valid partition moves to the given offset exactly when that is neither
-- behind it nor past the end of the log; any other call is refused and changes nothing.
pub advance_watermark_lem :
    (to_offset : ℕ) (p : Partition)
    → IsPartition p
    → ((p.high_watermark ≤ to_offset)
        × (to_offset ≤ view_end (view p.log))
        × (advance_watermark to_offset p ≡ (ok tt, record p { high_watermark = to_offset })))
      ⊎ (((to_offset < p.high_watermark) ⊎ (view_end (view p.log) < to_offset))
          × (advance_watermark to_offset p ≡ (err invalid, p)))
advance_watermark_lem to_offset p h = rw (advance-cases to_offset p h) (ground arith)

pub append-IsPartition :
    (r : Record) (p : Partition)
    → IsPartition p
    → IsPartition (append r p).1 × (view (append r p).1.log ≡ view_append r (view p.log))
unfolding append
append-IsPartition r p h =
    let (valid, offset, grows) = append-refines r p.log h.valid in
    (
      record {
        valid = valid;
        within =
            omega (arith, h.within, ap view_end grows, length-append (view p.log).entries (r ∷ []));
      },
      grows,
    )

pub drop-IsPartition :
    (offset : ℕ) (p : Partition)
    → IsPartition p
    → IsPartition (record p { log = (SegmentLog.drop_sealed_before offset p.log).1 })
drop-IsPartition offset p h =
    let (n, small, valid, dropped, _, _, _) = drop-refines offset p.log h.valid in
    record {
      valid = valid;
      within =
          omega (arith, h.within, small, ap view_end dropped, length-drop n (view p.log).entries);
    }

pub advance-IsPartition :
    (to_offset : ℕ) (p : Partition) → IsPartition p → IsPartition (advance_watermark to_offset p).1
advance-IsPartition to_offset p h =
    rw (advance-cases to_offset p h) (ground (arith, h.valid, h.within))

pub advance-log :
    (to_offset : ℕ) (p : Partition)
    → IsPartition p
    → ((advance_watermark to_offset p).1.log ≡ p.log)
      × (p.high_watermark ≤ (advance_watermark to_offset p).1.high_watermark)
advance-log to_offset p h = rw (advance-cases to_offset p h) (ground arith)

-- On a valid partition a consumer reads below the watermark and nothing else: `Missing` from the
-- watermark on, and below it the record of the view.
pub consume-refines :
    (offset : ℕ) (p : Partition)
    → IsPartition p
    → consume offset p
      ≡ (if leb p.high_watermark offset then err missing else view_read offset (view p.log))
unfolding consume
consume-refines offset p h = rw (read-refines offset p.log h.valid) (ground arith)

-- What a successful read says about the view.
pub view_read-ok :
    (offset : ℕ) (v : View) {r : Record}
    → view_read offset v ≡ ok r
    → (v.start ≤ offset) × (get_elem? v.entries (offset - v.start) ≡ some r)
view_read-ok offset v e = ground arith

view_read-intro :
    (offset : ℕ) (v : View) {r : Record}
    → v.start ≤ offset
    → get_elem? v.entries (offset - v.start) ≡ some r
    → view_read offset v ≡ ok r
view_read-intro offset v low at = ground arith

pub view_read-append :
    (offset : ℕ) (v : View) (x : Record) {r : Record}
    → view_read offset v ≡ ok r
    → view_read offset (view_append x v) ≡ ok r
view_read-append offset v x e =
    let (low, at) = view_read-ok offset v e in
    let inside = lt-length_of_get_elem? v.entries (offset - v.start) at in
    view_read-intro offset (view_append x v) low
      (get_elem?-append_left v.entries (x ∷ []) (offset - v.start) inside ∙ at)

pub view_read-drop :
    (offset n : ℕ) (v : View) {r : Record}
    → v.start + n ≤ offset
    → view_read offset v ≡ ok r
    → view_read offset (view_drop n v) ≡ ok r
view_read-drop offset n v room e =
    let (low, at) = view_read-ok offset v e in
    let same : n + (offset - (v.start + n)) ≡ offset - v.start = omega arith in
    view_read-intro offset (view_drop n v) room
      (get_elem?-drop n v.entries (offset - (v.start + n)) ∙ ap (get_elem? v.entries) same ∙ at)

-- The read of a committed record, as what it needs of the partition.
pub consume-ok :
    (offset : ℕ) (p : Partition) {r : Record}
    → IsPartition p
    → consume offset p ≡ ok r
    → (offset < p.high_watermark) × (view_read offset (view p.log) ≡ ok r)
consume-ok offset p h e = ground (arith, consume-refines offset p h)

pub consume-intro :
    (offset : ℕ) (p : Partition) {r : Record}
    → IsPartition p
    → offset < p.high_watermark
    → view_read offset (view p.log) ≡ ok r
    → consume offset p ≡ ok r
consume-intro offset p h low e = ground (arith, consume-refines offset p h)
