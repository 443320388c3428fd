-- ===== src/Transactions/Tests.antt =====
-- The theorems of the transactions on concrete inputs.
use event_stream_broker.Prelude.{
  ◌+◌, ◌<◌, ◌≡◌, refl, inl, ◌↔◌, true, [], ◌∷◌, arith, All, string_eq,
}
use event_stream_broker.Failure.{ok, err, fenced}
use event_stream_broker.Dict
use event_stream_broker.Transactions.Transaction
use event_stream_broker.Transactions.Transaction.{Transaction, State, active, committed, aborted}
use event_stream_broker.Transactions.Coordinator
use event_stream_broker.Transactions.Coordinator.{TransactionCoordinator, empty_coordinator}
use event_stream_broker.Transactions.Coordinator.Epochs
use event_stream_broker.Transactions.Coordinator.Fencing.{fenced_forever}
use event_stream_broker.Transactions.StableOffset
use event_stream_broker.Transactions.StableOffset.{
  LastStableOffset, AbortedTxn, is_visible_to_read_committed, last_stable_offset, make_offsets,
  readable_ceiling, PartitionOffsets, is_aborted, prune_below,
}
use event_stream_broker.Transactions.StableOffset.Reads.{visible_iff}

abbrev fresh : Transaction
fresh = Transaction.begin "t" 10 5

-- "p" registers twice, so epoch 0 is behind.
abbrev once : TransactionCoordinator
once = (Coordinator.register "p" empty_coordinator).1

twice : (Coordinator.register "p" once).0 ≡ ok 1
unfolding Coordinator.register Dict.get Dict.put
twice = refl

abbrev later : TransactionCoordinator
later = (Coordinator.begin "p" 1 (Coordinator.register "p" once).1).1

fenced_forever_example :
    (Coordinator.begin "p" 0 later
      ≡ (err fenced, record later { zombies_fenced = later.zombies_fenced + 1 }))
    × (Coordinator.complete "p" 0 true later
        ≡ (err fenced, record later { zombies_fenced = later.zombies_fenced + 1 }))
fenced_forever_example =
    fenced_forever "p" 0 1 true once (omega arith)
      (inl (twice, Epochs.next Epochs.here (Epochs.begins "p" 1 (Coordinator.register "p" once).1)))

began : (Coordinator.begin "p" 0 once).0 ≡ ok tt
unfolding Coordinator.register Coordinator.begin Coordinator.live Dict.get Dict.put
began = refl

abbrev log_state : LastStableOffset
log_state = record { high_watermark = 20; open_transactions = ("a", 12) ∷ ("b", 15) ∷ [] }

visible_iff_example :
    (is_visible_to_read_committed 11 log_state ≡ true)
    ↔ ((11 < 20) × All (λ m. 11 < m) (12 ∷ 15 ∷ []))
visible_iff_example = visible_iff 11 log_state

begins : (StableOffset.begin "c" 8 log_state).0 ≡ ok tt
unfolding StableOffset.begin
begins = refl
