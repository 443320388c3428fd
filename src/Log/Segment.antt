-- ===== src/Log/Segment.antt =====
-- relay/segmentlog.py, class Segment: a contiguous range of offsets from its base.
use event_stream_broker.Prelude.{
  ℕ, ◌+◌, ◌-◌, Bool, true, false, ◌&&◌, List, [], ◌∷◌, ◌++◌, ltb, leb, if◌then◌else◌, length,
  get_elem?, ◌≡◌, arith, length-append, ◌≤◌, ◌<◌, some, get_elem?_inside,
}
use event_stream_broker.Failure.{RelayError, Result, ok, err, missing, index_error, or_fail}
use event_stream_broker.Failure.Method.{Method}
use event_stream_broker.Log.Records
use event_stream_broker.Log.Records.{Record}

pub record Segment : Type 0 where
  pub base_offset : ℕ
  pub records : List Record
  pub sealed : Bool

unfoldable pub total_bytes : List Record → ℕ
total_bytes [] = 0
total_bytes (r ∷ rs) = Records.size_bytes r + total_bytes rs

unfoldable pub size_bytes : Segment → ℕ
size_bytes s = total_bytes s.records

abbrev pub next_offset : Segment → ℕ
next_offset s = s.base_offset + length s.records

unfoldable pub append : Record → Method Segment ℕ
append r s = if s.sealed then (err RelayError.sealed, s) else (
  ok (s.base_offset + length (s.records ++ r ∷ []) - 1),
  record s { records = s.records ++ r ∷ [] },
)

pub append-open :
    (r : Record) (s : Segment)
    → s.sealed ≡ false
    → append r s ≡ (ok (next_offset s), record s { records = s.records ++ r ∷ [] })
unfolding append
append-open r s h = ground (arith, length-append s.records (r ∷ []))

unfoldable pub holds : ℕ → Segment → Bool
holds offset s = leb s.base_offset offset && ltb offset (next_offset s)

unfoldable pub read : ℕ → Segment → Result Record
unfolding holds
read offset s =
    if holds offset s
    then or_fail (get_elem? s.records (offset - s.base_offset)) index_error
    else err missing

-- A segment reads its own offsets.
pub read-holds :
    (offset : ℕ) (s : Segment)
    → s.base_offset ≤ offset
    → offset < next_offset s
    → (r : Record) × (get_elem? s.records (offset - s.base_offset) ≡ some r)
      × (holds offset s ≡ true)
      × (read offset s ≡ ok r)
unfolding read
read-holds offset s low high =
    let (r, at) = get_elem?_inside s.records (offset - s.base_offset) (omega arith) in
    (r, at, ground arith, ground (arith, at))

pub not-holds_later : (offset : ℕ) (s : Segment) → next_offset s ≤ offset → holds offset s ≡ false
unfolding holds
not-holds_later offset s later = ground arith
