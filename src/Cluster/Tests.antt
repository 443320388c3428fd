-- ===== src/Cluster/Tests.antt =====
-- The theorems of the cluster on concrete inputs, and runs of the code.
use event_stream_broker.Prelude.{◌≡◌, refl, true, false, List, [], ◌∷◌, string_eq}
use event_stream_broker.Failure.{err, invalid}
use event_stream_broker.Prelude.Sorting.{sorted}
use event_stream_broker.Dict.{get}
use event_stream_broker.Cluster.Brokers.{
  Broker, ClusterMembership, make_membership, heartbeat, fence_lapsed, live_brokers,
}
use event_stream_broker.Cluster.Brokers.Steps.{Call, registers, beats, fences, run}
use event_stream_broker.Cluster.Brokers.Fencing.{Fenced, out_until_registered}
use event_stream_broker.Cluster.Brokers.Epochs.{Follows, run-Follows}

abbrev quiet : Broker
quiet = record { broker_id = "b1"; rack = "r1"; last_heartbeat = 3; fenced = true }

abbrev well : Broker
well = record { broker_id = "b2"; rack = "r2"; last_heartbeat = 9; fenced = false }

abbrev two_brokers : ClusterMembership
two_brokers = record { fence_after = 5; brokers = ("b1", quiet) ∷ ("b2", well) ∷ []; epoch = 3 }

abbrev calls : List Call
calls = beats "b1" 10 ∷ registers "b3" "r1" 11 ∷ fences 12 ∷ []

quiet-Fenced : Fenced "b1" two_brokers
unfolding get
quiet-Fenced = (quiet, refl, refl)

out_until_registered_example :
    Fenced "b1" (run calls two_brokers)
    × (heartbeat "b1" 13 (run calls two_brokers) ≡ (err invalid, run calls two_brokers))
out_until_registered_example =
    out_until_registered "b1" calls two_brokers 13 (tt, (refl, (tt, tt))) quiet-Fenced

run-Follows_example : Follows two_brokers (run (beats "b2" 12 ∷ fences 13 ∷ []) two_brokers)
run-Follows_example = run-Follows (beats "b2" 12 ∷ fences 13 ∷ []) two_brokers

fence_lapsed_runs :
    ((fence_lapsed 15 two_brokers).0 ≡ "b2" ∷ []) × (live_brokers two_brokers ≡ "b2" ∷ [])
unfolding fence_lapsed live_brokers sorted
fence_lapsed_runs = (refl, refl)

make_membership_runs : make_membership 0 ≡ err invalid
unfolding make_membership
make_membership_runs = refl
