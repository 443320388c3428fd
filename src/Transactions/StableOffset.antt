-- ===== src/Transactions/StableOffset.antt =====
-- relay/laststableoffset.py, relay/abortedindex.py and relay/isolation.py: how far a read-committed
-- consumer reads, and which of the records below that it drops.
pub mod Reads
use event_stream_broker.Prelude.{
  ℕ, ◌-◌, Bool, true, false, not, ◌&&◌, Option, none, some, List, [], ◌∷◌, ◌++◌, String, ltb, leb,
  min_all, nat_beq, string_eq, if◌then◌else◌, keep, length, ◌==◌,
}
use event_stream_broker.Failure.{Result, ok, err, invalid, missing, fail_if, ◌>>◌}
use event_stream_broker.Failure.Method.{Method}
use event_stream_broker.Dict.{Dict, get, put, remove, contains, values}

pub record LastStableOffset : Type 0 where
  pub high_watermark : ℕ
  pub open_transactions : Dict String ℕ

unfoldable pub begin : String → ℕ → Method LastStableOffset (Unit {0})
begin txn_id first_offset l =
    if ltb l.high_watermark first_offset
    then (err invalid, l)
    else (ok tt, record l { open_transactions = put txn_id first_offset l.open_transactions })

unfoldable pub resolve : String → Method LastStableOffset (Unit {0})
resolve txn_id l =
    if not (contains txn_id l.open_transactions)
    then (err missing, l)
    else (ok tt, record l { open_transactions = remove txn_id l.open_transactions })

unfoldable pub last_stable_offset : LastStableOffset → ℕ
last_stable_offset l = min_all l.high_watermark (values l.open_transactions)

unfoldable pub is_visible_to_read_committed : ℕ → LastStableOffset → Bool
is_visible_to_read_committed offset l = ltb offset (last_stable_offset l)

-- The last stable offset is at most the high watermark, so nothing is cut off here.
unfoldable pub withheld_gap : LastStableOffset → ℕ
withheld_gap l = l.high_watermark - last_stable_offset l

-- relay/abortedindex.py
pub record AbortedTxn : Type 0 where
  pub producer_id : ℕ
  pub first_offset : ℕ
  pub last_offset : ℕ

unfoldable pub covers : ℕ → AbortedTxn → Bool
covers offset e = leb e.first_offset offset && leb offset e.last_offset

abbrev pub AbortedIndex : Type 0
AbortedIndex = List AbortedTxn

unfoldable pub record_aborted : AbortedTxn → AbortedIndex → AbortedIndex
record_aborted txn entries = entries ++ txn ∷ []

unfoldable pub is_aborted : ℕ → ℕ → AbortedIndex → Bool
unfolding covers
is_aborted producer_id offset [] = false
is_aborted producer_id offset (e ∷ es) =
    if nat_beq e.producer_id producer_id && covers offset e
    then true
    else is_aborted producer_id offset es

unfoldable pub prune_below : ℕ → AbortedIndex → ℕ × AbortedIndex
prune_below log_start entries =
    let kept = keep (λ (e : AbortedTxn). leb log_start e.last_offset) entries in
    (length entries - length kept, kept)

-- relay/isolation.py
pub record PartitionOffsets : Type 0 where
  pub high_watermark : ℕ
  pub last_stable_offset : ℕ

unfoldable pub make_offsets : ℕ → ℕ → Result PartitionOffsets
make_offsets high_watermark last_stable = do
  fail_if (ltb high_watermark last_stable) invalid
  ok (record { high_watermark = high_watermark; last_stable_offset = last_stable })

unfoldable pub readable_ceiling : String → PartitionOffsets → Result ℕ
readable_ceiling level offsets =
    if level == "read-uncommitted"
    then ok offsets.high_watermark
    else if level == "read-committed"
    then ok offsets.last_stable_offset
    else err invalid
