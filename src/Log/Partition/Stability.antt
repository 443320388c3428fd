-- ===== src/Log/Partition/Stability.antt =====
-- A committed record keeps its place and its content whatever happens to the partition later.
use event_stream_broker.Prelude.{ℕ, ◌≤◌, ◌≡◌, ap, ◌∙◌, arith}
use event_stream_broker.Failure.{ok}
use event_stream_broker.Log.Records.{Record}
use event_stream_broker.Log.SegmentLog
use event_stream_broker.Log.SegmentLog.View.{View, view, view_read}
use event_stream_broker.Log.SegmentLog.Drops.{drop-refines}
use event_stream_broker.Log.Partition.{Partition, append, advance_watermark, consume}
use event_stream_broker.Log.Partition.Watermark.{
  IsPartition, append-IsPartition, drop-IsPartition, advance-IsPartition, advance-log,
  view_read-append, view_read-drop, view_read-ok, consume-ok, consume-intro,
}

-- What a partition goes through: an append, a watermark that is moved or refused, and the loss of
-- sealed segments below an offset that is at most `floor`.
pub data Step (floor : ℕ) : Partition → Partition → Type 0 where
  appends : (r : Record) (p : Partition) → Step floor p (append r p).1
  advances : (to_offset : ℕ) (p : Partition) → Step floor p (advance_watermark to_offset p).1
  drops :
      (offset : ℕ) (p : Partition)
      → offset ≤ floor
      → Step floor p (record p { log = (SegmentLog.drop_sealed_before offset p.log).1 })

pub data Reach (floor : ℕ) (p : Partition) : Partition → Type 0 where
  here : Reach floor p p
  next : {q r : Partition} → Reach floor p q → Step floor q r → Reach floor p r

abbrev Serves : ℕ → Record → Partition → Type 0
Serves offset r p = IsPartition p × (consume offset p ≡ ok r)

append-Serves :
    (offset : ℕ) (r x : Record) (p : Partition) → Serves offset r p → Serves offset r (append x p).1
unfolding append
append-Serves offset r x p (valid, served) =
    let (low, found) = consume-ok offset p valid served in
    let (valid', grows) = append-IsPartition x p valid in
    (
      valid',
      consume-intro offset (append x p).1 valid' low
          (ap (view_read offset) grows ∙ view_read-append offset (view p.log) x found),
    )

advance-Serves :
    (offset to_offset : ℕ) (r : Record) (p : Partition)
    → Serves offset r p
    → Serves offset r (advance_watermark to_offset p).1
advance-Serves offset to_offset r p (valid, served) =
    let (low, found) = consume-ok offset p valid served in
    let valid' = advance-IsPartition to_offset p valid in
    let (same, higher) = advance-log to_offset p valid in
    (
      valid',
      consume-intro offset (advance_watermark to_offset p).1 valid' (omega arith)
          (ap (λ l. view_read offset (view l)) same ∙ found),
    )

drop-Serves :
    (offset floor : ℕ) (r : Record) (p : Partition)
    → floor ≤ offset
    → Serves offset r p
    → Serves offset r (record p { log = (SegmentLog.drop_sealed_before floor p.log).1 })
drop-Serves offset floor r p room (valid, served) =
    let (low, found) = consume-ok offset p valid served in
    let (n, small, _, dropped, start', _, _) = drop-refines floor p.log valid.valid in
    let valid' = drop-IsPartition floor p valid in
    let (after_start, _) = view_read-ok offset (view p.log) found in
    let shifted = ap View.start dropped in
    (
      valid',
      consume-intro offset _ valid' low (
          ap (view_read offset) dropped
          ∙ view_read-drop offset n (view p.log) (omega (arith, shifted)) found),
    )

Step-Serves :
    {floor offset : ℕ} {r : Record} {p q : Partition}
    → floor ≤ offset
    → Step floor p q
    → Serves offset r p
    → Serves offset r q
Step-Serves room (appends x p) h = append-Serves _ _ x p h
Step-Serves room (advances to_offset p) h = advance-Serves _ to_offset _ p h
Step-Serves room (drops at p low) h = drop-Serves _ at _ p (omega arith) h

Reach-Serves :
    {floor offset : ℕ} {r : Record} {p q : Partition}
    → floor ≤ offset
    → Serves offset r p
    → Reach floor p q
    → Serves offset r q
Reach-Serves room h here = h
Reach-Serves room h (next path st) = Step-Serves room st (Reach-Serves room h path)

-- A record that a consumer can read at an offset stays readable there, unchanged, after any
-- sequence of appends, watermark moves (also refused ones) and drops of sealed segments below
-- floors that do not pass the offset.
pub consume-stable :
    {floor offset : ℕ} {r : Record} {p q : Partition}
    → IsPartition p
    → consume offset p ≡ ok r
    → floor ≤ offset
    → Reach floor p q
    → consume offset q ≡ ok r
consume-stable valid served room path = (Reach-Serves room (valid, served) path).1
