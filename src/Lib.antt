-- ===== src/Lib.antt =====
-- A verification library for relay, an event streaming broker (relay/*.py).
--
-- The program is a set of small modules, each with the state of one part of a broker and the
-- methods that change it. A record is appended to the log of a partition (relay/segmentlog.py,
-- relay/partition.py), one of those of its topic (relay/topics.py); the watermark divides what is
-- promised from what is not; retention and compaction remove what is no longer wanted
-- (relay/retention.py, relay/compaction.py); consumer groups commit positions below the watermark
-- (relay/consumergroup.py); producers are told apart from their retries and their zombies
-- (relay/idempotent.py, relay/txncoordinator.py); and transactions decide what a read-committed
-- consumer sees (relay/transactions.py, relay/laststableoffset.py, relay/abortedindex.py,
-- relay/isolation.py). The replicas of a partition agree on what is committed, who leads, and where
-- a follower's log must be cut (relay/replication.py, relay/election.py, relay/leaderepochcache.py,
-- relay/recovery.py), and a quorum of nodes on its members, its leader, its entries and its commit
-- index (relay/membershipchange.py, relay/quorumvote.py, relay/logmatching.py,
-- relay/commitindex.py). Brokers join the cluster and are fenced (relay/cluster.py). Around this
-- core, requests are carved out of a stream of bytes (relay/framing.py), answered at once or parked
-- until their condition comes (relay/fetching.py, relay/purgatory.py), and allowed or denied
-- (relay/authz.py); the shape of a topic's records changes under rules (relay/schemas.py), and
-- numbers and keys are stored in fewer bytes (relay/varint.py, relay/runlength.py,
-- relay/deltaencoding.py, relay/prefixcompression.py). What is recent is kept in bounded structures
-- (relay/ringbuffer.py, relay/lrucache.py), and what nodes count and write apart is merged
-- (relay/gcounter.py, relay/vectorclock.py, relay/lwwregister.py).
--
-- Files:
--   Prelude       library names passed on, tests, lists, sets, sorting, integers
--   Failure       relay/errors.py: results, and methods that keep their writes when they raise
--   Dict          Python's dict in insertion order, with its laws
--   Log           Records, Segment, SegmentLog, Partition, Topics, Retention, Compaction
--   Groups        ConsumerGroup
--   Producers     Idempotent
--   Transactions  Transaction, Coordinator, StableOffset
--   Replication   InSync (relay/replication.py), EpochCache (relay/leaderepochcache.py), Truncation
--                 (relay/logtruncation.py, relay/epochfetch.py), Election (relay/election.py),
--                 Recovery (relay/recovery.py)
--   Consensus     CommitIndex (relay/commitindex.py), Membership (relay/membershipchange.py),
--                 Vote (relay/quorumvote.py), LogMatching (relay/logmatching.py)
--   Cluster       Brokers (relay/cluster.py)
--   Requests      Fetching, Purgatory
--   Access        Authorizer (relay/authz.py), Schemas
--   Structures    RingBuffer, LruCache
--   Clocks        Vector (what the next two share), GCounter, VectorClock, LwwRegister
--   Encoding      Framing, RunLength, Delta (relay/deltaencoding.py), Prefix
--                 (relay/prefixcompression.py), Varint
--
-- Conventions. A class is a record and a method a function of the same name from the state to the
-- result and the new state; a method that only reads returns its result. A raise is a value of
-- `RelayError` beside the state reached so far. Offsets, epochs, terms, ticks, sizes and counts are
-- natural numbers, as the callers use them; where the source has the sentinel -1 the field is an
-- integer or an option. Where the source subtracts ticks and compares with a limit that is not
-- negative, the difference stops at 0, which gives the same answer. Loops are recursions on the
-- list that they walk; only the reader of frames and the encoder of varints run on fuel, one more
-- than the length of the buffer and one more than the number, and each of their rounds takes off at
-- least one of it. A mutable object that stands in a list or a dict is written back where it
-- stands.
--
-- Not modelled: the text of messages and reports, SHA-256 (a parameter of the records and of the topics), and the
-- modules of relay that are not named here.
pub mod Prelude
pub mod Failure
pub mod Dict
pub mod Log
pub mod Groups
pub mod Producers
pub mod Transactions
pub mod Replication
pub mod Consensus
pub mod Cluster
pub mod Requests
pub mod Access
pub mod Encoding
pub mod Structures
pub mod Clocks
