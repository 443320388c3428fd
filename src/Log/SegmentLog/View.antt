-- ===== src/Log/SegmentLog/View.antt =====
-- The segment log against its contract: a numbered list of records that grows at one end and is
-- dropped from the other.
use event_stream_broker.Prelude.{
  ℕ, ◌+◌, ◌-◌, ◌≡◌, List, [], ◌∷◌, ◌++◌, ltb, if◌then◌else◌, length, get_elem?, drop,
}
use event_stream_broker.Failure.{Result, err, missing, lagging, or_fail}
use event_stream_broker.Log.Records.{Record}
use event_stream_broker.Log.SegmentLog.{SegmentLog}
use event_stream_broker.Log.SegmentLog.Chain.{IsChain, entries, start}

-- What a client sees of a log.
pub record View : Type 0 where
  pub start : ℕ
  pub entries : List Record

abbrev pub view : SegmentLog → View
view log = record { start = start log.segments; entries = entries log.segments }

abbrev pub IsLog : SegmentLog → Type 0
IsLog log = IsChain log.segments

-- The contract of each operation.
abbrev pub view_append : Record → View → View
view_append r v = record v { entries = v.entries ++ r ∷ [] }

abbrev pub view_end : View → ℕ
view_end v = v.start + length v.entries

abbrev pub view_read : ℕ → View → Result Record
view_read offset v =
    if ltb offset v.start
    then err lagging
    else or_fail (get_elem? v.entries (offset - v.start)) missing

abbrev pub view_drop : ℕ → View → View
view_drop n v = record { start = v.start + n; entries = drop n v.entries }

pub View-eq : {v w : View} → v.start ≡ w.start → v.entries ≡ w.entries → v ≡ w
View-eq p q = λ i. record { start = p i; entries = q i }
