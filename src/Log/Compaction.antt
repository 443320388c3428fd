-- ===== src/Log/Compaction.antt =====
-- relay/compaction.py: keep the latest value of each key, and a tombstone until every consumer has
-- seen it. Keys and values are bytes; a missing value is a tombstone.
pub mod Latest
pub mod Table
use event_stream_broker.Prelude.{
  ℕ, ◌+◌, ◌-◌, Bool, true, false, ◌&&◌, Option, none, some, List, [], ◌∷◌, ◌++◌, ltb, nat_beq,
  nat_eq, bytes_eq, if◌then◌else◌,
}
use event_stream_broker.Failure.{Result, ok, err, invalid}
use event_stream_broker.Failure.Method.{Method}
use event_stream_broker.Dict.{Dict, get, put}
use event_stream_broker.Log.Records.{Bytes}

pub record KeyedEntry : Type 0 where
  pub offset : ℕ
  pub key : Bytes
  pub value : Option Bytes

pub record Compactor : Type 0 where
  pub tombstone_retention_ticks : ℕ
  pub removed_superseded : ℕ
  pub tombstones_reaped : ℕ
  pub kept : List KeyedEntry

-- The first loop: the last offset of each key.
unfoldable pub last_offsets : List KeyedEntry → Dict Bytes ℕ → Dict Bytes ℕ
last_offsets [] last = last
last_offsets (e ∷ es) last = last_offsets es (put e.key e.offset last)

-- Every key was entered by the first loop, so the subscript finds it.
abbrev is_at : Option ℕ → ℕ → Bool
is_at none offset = false
is_at (some last) offset = nat_beq last offset

unfoldable pub is_latest : Dict Bytes ℕ → KeyedEntry → Bool
is_latest last e = is_at (get e.key last) e.offset

abbrev or_now : Option ℕ → ℕ → ℕ
or_now none now = now
or_now (some t) now = t

-- What the second loop is given.
pub record Setting : Type 0 where
  pub last : Dict Bytes ℕ
  pub retention : ℕ
  pub now : ℕ
  pub tombstone_ticks : Dict ℕ ℕ
  pub min_consumer_offset : ℕ

abbrev pub setting : List KeyedEntry → ℕ → Dict ℕ ℕ → ℕ → Compactor → Setting
setting es now tombstone_ticks min_consumer_offset c = record {
  last = last_offsets es [];
  retention = c.tombstone_retention_ticks;
  now = now;
  tombstone_ticks = tombstone_ticks;
  min_consumer_offset = min_consumer_offset;
}

-- `now - born > retention`: a tombstone born after `now` has no age.
unfoldable pub aged_out : Setting → KeyedEntry → Bool
aged_out g e = ltb g.retention (g.now - or_now (get e.offset g.tombstone_ticks) g.now)

unfoldable pub observed_by_all : Setting → KeyedEntry → Bool
observed_by_all g e = ltb e.offset g.min_consumer_offset

abbrev is_tombstone : Option Bytes → Bool
is_tombstone none = true
is_tombstone (some v) = false

pub data Verdict : Type 0 where
  superseded reaped retained : Verdict

unfoldable pub verdict : Setting → KeyedEntry → Verdict
verdict g e =
    if is_latest g.last e
    then (if is_tombstone e.value && observed_by_all g e && aged_out g e then reaped else retained)
    else superseded

abbrev tally : Verdict → KeyedEntry → Compactor → List KeyedEntry → Compactor × List KeyedEntry
tally superseded e c result = (record c { removed_superseded = c.removed_superseded + 1 }, result)
tally reaped e c result = (record c { tombstones_reaped = c.tombstones_reaped + 1 }, result)
tally retained e c result = (c, result ++ e ∷ [])

-- The second loop: the compactor's counters and the result so far.
unfoldable pub sift :
    Setting → List KeyedEntry → Compactor → List KeyedEntry → Compactor × List KeyedEntry
sift g [] c result = (c, result)
sift g (e ∷ es) c result =
    let (c', result') = tally (verdict g e) e c result in sift g es c' result'

unfoldable pub compact : List KeyedEntry → ℕ → Dict ℕ ℕ → ℕ → Method Compactor (List KeyedEntry)
compact [] now tombstone_ticks min_consumer_offset c = (err invalid, c)
compact (e ∷ es) now tombstone_ticks min_consumer_offset c =
    let (c', result) =
      sift (setting (e ∷ es) now tombstone_ticks min_consumer_offset c) (e ∷ es) c [] in
    (ok result, record c' { kept = result })
