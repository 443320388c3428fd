-- ===== src/Transactions/Coordinator.antt =====
-- relay/txncoordinator.py: who may begin and complete a transaction, and who is a zombie.
pub mod Epochs
pub mod Fencing
use event_stream_broker.Prelude.{
  ℕ, ◌+◌, Bool, true, false, not, Option, none, some, String, ltb, string_eq, if◌then◌else◌, List,
  [],
}
use event_stream_broker.Failure.{Result, ok, err, invalid, fenced}
use event_stream_broker.Failure.Method.{Method}
use event_stream_broker.Dict.{Dict, get, put}

pub record ProducerTxnState : Type 0 where
  pub transactional_id : String
  pub epoch : ℕ
  pub open_txn : Bool

pub record TransactionCoordinator : Type 0 where
  pub producers : Dict String ProducerTxnState
  pub zombies_fenced : ℕ

abbrev pub empty_coordinator : TransactionCoordinator
empty_coordinator = record { producers = []; zombies_fenced = 0 }

-- A producer's state is an object of the dictionary: writing it writes the entry.
abbrev write : String → ProducerTxnState → TransactionCoordinator → TransactionCoordinator
write id s c = record c { producers = put id s c.producers }

register_as : String → Option ProducerTxnState → Method TransactionCoordinator ℕ
register_as id none c =
    (ok 0, write id (record { transactional_id = id; epoch = 0; open_txn = false }) c)
register_as id (some held) c =
    (ok (held.epoch + 1), write id (record held { epoch = held.epoch + 1; open_txn = false }) c)

unfoldable pub register : String → Method TransactionCoordinator ℕ
unfolding register_as
register id c = register_as id (get id c.producers) c

live_as : Option ProducerTxnState → ℕ → Method TransactionCoordinator ProducerTxnState
live_as none epoch c = (err invalid, c)
live_as (some s) epoch c =
    if ltb epoch s.epoch
    then (err fenced, record c { zombies_fenced = c.zombies_fenced + 1 })
    else (ok s, c)

-- `_live`
unfoldable pub live : String → ℕ → Method TransactionCoordinator ProducerTxnState
unfolding live_as
live id epoch c = live_as (get id c.producers) epoch c

begin_with :
    String
    → Result ProducerTxnState × TransactionCoordinator
    → Result (Unit {0}) × TransactionCoordinator
begin_with id (err e, c) = (err e, c)
begin_with id (ok s, c) =
    if s.open_txn then (err invalid, c) else (ok tt, write id (record s { open_txn = true }) c)

unfoldable pub begin : String → ℕ → Method TransactionCoordinator (Unit {0})
unfolding begin_with
begin id epoch c = begin_with id (live id epoch c)

complete_with :
    String
    → Result ProducerTxnState × TransactionCoordinator
    → Result (Unit {0}) × TransactionCoordinator
complete_with id (err e, c) = (err e, c)
complete_with id (ok s, c) =
    if not s.open_txn then (err invalid, c) else (ok tt, write id (record s { open_txn = false }) c)

-- `commit` is in the answer only.
unfoldable pub complete : String → ℕ → Bool → Method TransactionCoordinator (Unit {0})
unfolding complete_with
complete id epoch commit c = complete_with id (live id epoch c)

timeout_of : String → Option ProducerTxnState → Method TransactionCoordinator ℕ
timeout_of id none c = (err invalid, c)
timeout_of id (some s) c =
    if not s.open_txn
    then (err invalid, c)
    else (ok (s.epoch + 1), write id (record s { open_txn = false; epoch = s.epoch + 1 }) c)

unfoldable pub timeout_abort : String → Method TransactionCoordinator ℕ
unfolding timeout_of
timeout_abort id c = timeout_of id (get id c.producers) c
