-- ===== src/Log/Tests.antt =====
-- The theorems of the log on concrete inputs, and runs of the code.
use event_stream_broker.Prelude.{
  ℕ, ◌+◌, ◌≤◌, ◌≡◌, refl, true, false, Option, none, some, List, [], ◌∷◌, arith, length, bytes_beq,
  ◌≢◌, ◌++◌, keep, bytes_eq,
}
use event_stream_broker.Failure.{ok, err, invalid}
use event_stream_broker.Prelude.Sets.{mem}
use event_stream_broker.Dict.{Dict, get}
use event_stream_broker.Log.Records
use event_stream_broker.Log.Records.{
  Record, Bytes, max_value_bytes, make_record, verify, payload, unnamed_header,
}
use event_stream_broker.Log.Segment
use event_stream_broker.Log.Segment.{Segment}
use event_stream_broker.Log.SegmentLog
use event_stream_broker.Log.SegmentLog.{SegmentLog}
use event_stream_broker.Log.SegmentLog.View.{view, IsLog, view_append, view_drop}
use event_stream_broker.Log.SegmentLog.Appends.{append-refines}
use event_stream_broker.Log.SegmentLog.Reads.{read-refines}
use event_stream_broker.Log.Partition
use event_stream_broker.Log.Partition.{Partition}
use event_stream_broker.Log.Partition.Watermark.{IsPartition}
use event_stream_broker.Log.Partition.Stability.{here, next, appends, drops, consume-stable}
use event_stream_broker.Log.Topics
use event_stream_broker.Log.Topics.{Topic, key_slot}
use event_stream_broker.Log.Topics.Routing.{IsTopic, entries_of}
use event_stream_broker.Log.Topics.Order.{keyed, append_all, append_all-per_key}
use event_stream_broker.Log.Retention
use event_stream_broker.Log.Retention.{RetentionRun, chain_bytes}
use event_stream_broker.Log.Retention.Floor.{Justified, Reclaims, apply-drops}
use event_stream_broker.Log.Compaction.{KeyedEntry, Compactor, compact}
use event_stream_broker.Log.Compaction.Table.{table, compact-table}

abbrev plain : ℕ → Record
plain n = record { value = n ∷ []; key = none; headers = []; checksum = [] }

-- Offsets 7 and 8 in a sealed segment, 9 in the active one.
abbrev old : Segment
old = record { base_offset = 7; records = plain 1 ∷ plain 2 ∷ []; sealed = true }

abbrev young : Segment
young = record { base_offset = 9; records = plain 3 ∷ []; sealed = false }

abbrev two_segments : SegmentLog
two_segments = record { segments = old ∷ young ∷ []; rolls = 1 }

two_segments-IsLog : IsLog two_segments
two_segments-IsLog = (refl, omega arith, refl, refl)

append-refines_example :
    let (offset, log') = SegmentLog.append (plain 4) two_segments in
    IsLog log' × (offset ≡ ok 10) × (view log' ≡ view_append (plain 4) (view two_segments))
append-refines_example = append-refines (plain 4) two_segments two_segments-IsLog

read-refines_example : SegmentLog.read 8 two_segments ≡ ok (plain 2)
read-refines_example = read-refines 8 two_segments two_segments-IsLog

drop_runs :
    SegmentLog.drop_sealed_before 9 two_segments ≡ (1, record { segments = young ∷ []; rolls = 1 })
unfolding SegmentLog.drop_sealed_before
drop_runs = refl

abbrev partition : Partition
partition = record { number = 0; log = two_segments; high_watermark = 9 }

partition-IsPartition : IsPartition partition
partition-IsPartition = record { valid = two_segments-IsLog; within = omega arith }

consume_runs : Partition.consume 8 partition ≡ ok (plain 2)
unfolding Partition.consume SegmentLog.read Segment.holds Segment.read
consume_runs = refl

-- An append and a drop of the first segment below offset 8, which does not remove offset 8.
later : Partition
later = record grown { log = (SegmentLog.drop_sealed_before 8 grown.log).1 }
  where
    grown : Partition
    grown = (Partition.append (plain 4) partition).1

consume-stable_example : Partition.consume 8 later ≡ ok (plain 2)
unfolding later Partition.consume SegmentLog.read Segment.holds Segment.read
consume-stable_example =
    consume-stable {floor = 8} {offset = 8} partition-IsPartition refl (omega arith) (
      next (next here (appends (plain 4) partition))
        (drops 8 (Partition.append (plain 4) partition).1 (omega arith)))

abbrev fresh_run : RetentionRun
fresh_run = record {
  policy = record { max_age_ticks = some 5; max_bytes = none };
  reclaimed_segments = 0;
  reclaimed_bytes = 0;
}

-- The segment at 7 was last written at tick 2.
abbrev ticks : Dict ℕ ℕ
ticks = (7, 2) ∷ []

apply-drops_example :
    let (why, run', log') = Retention.apply two_segments ticks 20 9 fresh_run in
    (n : ℕ) × (n ≤ 3)
    × IsLog log'
    × (view log' ≡ view_drop n (view two_segments))
    × ((view log').start ≤ 9)
    × Reclaims ticks 20 9 fresh_run.policy two_segments.segments log'.segments
    × Justified ticks 20 9 fresh_run.policy why log'.segments
    × (run'.reclaimed_bytes + chain_bytes log'.segments ≡ 0 + chain_bytes two_segments.segments)
    × (run'.reclaimed_segments + length log'.segments ≡ 2)
apply-drops_example = apply-drops two_segments ticks 20 9 fresh_run two_segments-IsLog

retention_runs : Retention.apply two_segments ticks 20 9 fresh_run ≡ (
  none,
  record fresh_run { reclaimed_segments = 1; reclaimed_bytes = 2 },
  record { segments = young ∷ []; rolls = 1 },
)
unfolding Retention.apply Retention.condemned Segment.size_bytes Segment.total_bytes
    Records.size_bytes get
retention_runs = refl

abbrev entry : ℕ → ℕ → Option Bytes → KeyedEntry
entry offset key value = record { offset = offset; key = key ∷ []; value = value }

abbrev changes : List KeyedEntry
changes = entry 3 2 (some (5 ∷ [])) ∷ entry 4 1 none ∷ entry 6 2 (some (6 ∷ [])) ∷ []

abbrev compactor : Compactor
compactor = record {
  tombstone_retention_ticks = 10;
  removed_superseded = 0;
  tombstones_reaped = 0;
  kept = [];
}

compact-table_example :
    let (result, c') =
      compact (entry 2 1 (some (9 ∷ [])) ∷ changes) 50 ((4, 10) ∷ []) 5 compactor in
    (result ≡ ok c'.kept)
    × ((k : Bytes) → table c'.kept k ≡ table (entry 2 1 (some (9 ∷ [])) ∷ changes) k)
    × (c'.removed_superseded + c'.tombstones_reaped + length c'.kept ≡ 4)
compact-table_example =
    compact-table (entry 2 1 (some (9 ∷ []))) changes 50 ((4, 10) ∷ []) 5 compactor (omega arith)

-- The digest is not injective here; the bar is all that the ambiguity needs.
abbrev keep_all : Bytes → Bytes
keep_all p = p

abbrev barred : Record
barred = record {
  value = 1 ∷ b'|' ∷ 2 ∷ [];
  key = none;
  headers = [];
  checksum = 1 ∷ b'|' ∷ 2 ∷ b'|' ∷ [];
}

barred_made : make_record keep_all (1 ∷ b'|' ∷ 2 ∷ []) none [] ≡ ok barred
unfolding make_record payload unnamed_header
barred_made = refl

abbrev two_partitions : Topic
two_partitions = record {
  name = 116 ∷ [];
  partitions = partition ∷ partition ∷ [];
  round_robin_next = 0;
}

two_partitions-IsTopic : IsTopic two_partitions
two_partitions-IsTopic = record {
  inside = omega arith;
  valid = (partition-IsPartition, (partition-IsPartition, tt));
}

-- A record with the key `7 8 9`, whose slot is 3 % 2.
abbrev with_key : Record
with_key = record { value = 5 ∷ []; key = some (7 ∷ 8 ∷ 9 ∷ []); headers = []; checksum = [] }

append_all-per_key_example :
    let rs = with_key ∷ plain 1 ∷ [] in
    let k : Bytes = 7 ∷ 8 ∷ 9 ∷ [] in
    let t' = append_all (λ b. length b) rs two_partitions in
    let home = key_slot (λ b. length b) k 2 in
    IsTopic t'
    × (length t'.partitions ≡ 2)
    × (keep (keyed k) (entries_of home t')
        ≡ keep (keyed k) (entries_of home two_partitions) ++ keep (keyed k) rs)
    × ((j : ℕ)
        → home ≢ j
        → keep (keyed k) (entries_of j t') ≡ keep (keyed k) (entries_of j two_partitions))
append_all-per_key_example =
    append_all-per_key (λ b. length b) (7 ∷ 8 ∷ 9 ∷ []) (with_key ∷ plain 1 ∷ []) two_partitions
      two_partitions-IsTopic

route_runs :
    ((Topics.append (λ b. length b) with_key two_partitions).0 ≡ ok (1, 10))
    × ((Topics.append (λ b. length b) (plain 1) two_partitions).0 ≡ ok (0, 10))
unfolding Topics.append Partition.append SegmentLog.append Segment.size_bytes Segment.total_bytes
    Records.size_bytes Segment.append
route_runs = (refl, refl)

create_runs :
    ((Topics.create (47 ∷ []) 2 []).0 ≡ err invalid)
    × ((Topics.create (116 ∷ []) 0 []).0 ≡ err invalid)
    × (Topics.resize (116 ∷ []) 3 ((116 ∷ [], two_partitions) ∷ []) ≡ err invalid)
unfolding Topics.create Topics.resize get Records.is_blank mem bytes_beq
create_runs = (refl, refl, refl)
