-- ===== src/Log/Topics.antt =====
-- relay/topics.py: named streams over a number of partitions that never changes.
pub mod Routing
pub mod Order
use event_stream_broker.Prelude.{
  ℕ, zero, suc, ◌+◌, ◌%◌, Bool, true, false, ◌||◌, Option, none, some, List, [], ◌∷◌, ◌++◌, nat_beq,
  nat_eq, ltb, bytes_eq, if◌then◌else◌, length, get_elem?,
}
use event_stream_broker.Prelude.Sets.{mem}
use event_stream_broker.Failure.{Result, ok, err, invalid, missing, index_error, or_fail}
use event_stream_broker.Failure.Method.{Method}
use event_stream_broker.Dict.{Dict, get, put, contains}
use event_stream_broker.Log.Records.{Bytes, Text, Record, is_blank}
use event_stream_broker.Log.SegmentLog.{make_log}
use event_stream_broker.Log.Partition
use event_stream_broker.Log.Partition.{Partition}

pub record Topic : Type 0 where
  pub name : Text
  pub partitions : List Partition
  pub round_robin_next : ℕ

-- `xs[i] = x`, where there is such a place.
unfoldable pub set_elem : ℕ → Partition → List Partition → List Partition
set_elem i p [] = []
set_elem zero p (q ∷ qs) = p ∷ qs
set_elem (suc i) p (q ∷ qs) = q ∷ set_elem i p qs

-- The partition that is found is written back where it stands.
unfoldable pub append_at : ℕ → Record → Method Topic (ℕ × ℕ)
unfolding set_elem
append_at slot r t = elim (get_elem? t.partitions slot) [
  | none ↦ (err index_error, t)
  | some p ↦
      let (offset, p') = Partition.append r p in
      let t' = record t { partitions = set_elem slot p' t.partitions } in
      elim offset [ err e ↦ (err e, t') | ok n ↦ (ok (slot, n), t') ]
]

-- `slot_of` is the number that the first eight hexadecimal digits of a key's SHA-256 spell.
module _ (slot_of : Bytes → ℕ) where
  unfoldable pub key_slot : Bytes → ℕ → ℕ
  key_slot key partitions = slot_of key % partitions

  unfoldable pub route : Record → Topic → ℕ × Topic
  unfolding key_slot
  route r t = elim r.key [
    | some key ↦ (key_slot key (length t.partitions), t)
    | none ↦ (
      t.round_robin_next,
      record t { round_robin_next = (t.round_robin_next + 1) % length t.partitions },
    )
  ]

  unfoldable pub append : Record → Method Topic (ℕ × ℕ)
  unfolding route append_at
  append r t = let (slot, t') = route r t in append_at slot r t'

-- `range(n)` as new partitions, from a number on.
unfoldable pub new_partitions : ℕ → ℕ → List Partition
new_partitions from zero = []
new_partitions from (suc n) =
    record { number = from; log = make_log [] 0; high_watermark = 0 } ∷ new_partitions (from + 1) n

abbrev pub TopicRegistry : Type 0
TopicRegistry = Dict Text Topic

-- `/`
abbrev slash : ℕ
slash = 47

unfoldable pub create : Text → ℕ → Method TopicRegistry Topic
unfolding new_partitions
create name partition_count topics =
    let topic : Topic = record {
      name = name;
      partitions = new_partitions 0 partition_count;
      round_robin_next = 0;
    } in
    if is_blank name || mem slash name
    then (err invalid, topics)
    else if contains name topics
    then (err invalid, topics)
    else if ltb partition_count 1
    then (err invalid, topics)
    else (ok topic, put name topic topics)

unfoldable pub get_topic : Text → TopicRegistry → Result Topic
get_topic name topics = or_fail (get name topics) missing

unfoldable pub resize : Text → ℕ → TopicRegistry → Result (Unit {0})
unfolding get_topic
resize name new_count topics = elim (get_topic name topics) [
  | err e ↦ err e
  | ok topic ↦ err invalid
]
