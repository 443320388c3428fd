-- ===== src/Replication/Tests.antt =====
-- Runs of the replication modules, and the theorems at concrete inputs.
use event_stream_broker.Prelude.{
  ◌+◌, ◌<◌, length, Mem, ◌↔◌, ℕ, ◌≤◌, ◌≡◌, refl, ap, min_all, ◌⊎◌, Bool, true, false, some, List,
  [], ◌∷◌, String, arith, min, All,
}
use event_stream_broker.Prelude.Sorting.{first, sorted}
use event_stream_broker.Failure.{ok, err, invalid, missing, fenced}
use event_stream_broker.Dict.{values}
use event_stream_broker.Replication.InSync.{
  ReplicaState, ReplicationSet, in_sync_followers, in_sync_count, committable_watermark,
  evict_laggards,
}
use event_stream_broker.Replication.InSync.Watermark.{holders, committable-held}
use event_stream_broker.Replication.EpochCache.{
  LeaderEpochCache, end_offset_for, is_forgotten, truncate_from, drop_below,
}
use event_stream_broker.Replication.EpochCache.Ends.{
  IsCache, Boundary, Ending, end_offset_for-Boundary,
}
use event_stream_broker.Replication.EpochCache.Cuts.{truncate_from-end, drop_below-forgets}
use event_stream_broker.Replication.Election.{
  Candidate, PartitionElector, elect, accept_from, max_end, stands_before,
}
use event_stream_broker.Replication.Election.Safety.{Elects, eligible, elect-Elects}
use event_stream_broker.Replication.Election.Fencing.{run, deposed_forever}
use event_stream_broker.Replication.Recovery.{EpochMarker, new_plan, recover}
use event_stream_broker.Replication.Recovery.Markers.{epoch_at}
use event_stream_broker.Replication.Recovery.Divergence.{recover-keeps}

-- A leader at 20 with a near follower, a slow one and one that is out of sync.
abbrev replicas : ReplicationSet
replicas = record {
  leader = "a";
  followers =
      ("b", record { name = "b"; fetched_offset = 18; in_sync = true })
      ∷ ("c", record { name = "c"; fetched_offset = 5; in_sync = true })
      ∷ ("d", record { name = "d"; fetched_offset = 1; in_sync = false })
      ∷ [];
  min_in_sync = 2;
  max_lag = 4;
  leader_end_offset = 20;
}

replicas_committable : committable_watermark replicas ≡ ok 5
unfolding committable_watermark min_all
replicas_committable = refl

replicas_evict : (evict_laggards replicas).0 ≡ "c" ∷ []
unfolding evict_laggards
replicas_evict = refl

committable-held_example :
    (committable_watermark replicas ≡ err invalid) × (in_sync_count replicas < 2)
    ⊎ (w : ℕ) × (committable_watermark replicas ≡ ok w)
      × (w ≤ 20)
      × All (λ (s : ReplicaState). w ≤ s.fetched_offset) (in_sync_followers replicas)
      × (2 ≤ in_sync_count replicas)
      × (2 ≤ 1 + length (holders w (values replicas.followers)))
      × ((n : ℕ)
          → n ≤ 20
          → All (λ (s : ReplicaState). n ≤ s.fetched_offset) (in_sync_followers replicas)
          → n ≤ w)
committable-held_example = committable-held replicas

abbrev cache : LeaderEpochCache
cache = record { log_end = 30; entries = (1, 0) ∷ (2, 10) ∷ (5, 20) ∷ [] }

cache-IsCache : IsCache cache
cache-IsCache = record {
  rising = (
    ((omega arith, omega arith), ((omega arith, omega arith), tt)),
    (((omega arith, omega arith), tt), (tt, tt)),
  );
  within = (omega arith, (omega arith, (omega arith, tt)));
}

cache_ends : end_offset_for 3 cache ≡ ok 20
unfolding end_offset_for
cache_ends = refl

end_offset_for-Boundary_example :
    (end_offset_for 2 cache ≡ err missing) × (is_forgotten 2 cache.entries ≡ true)
    ⊎ (x : ℕ) × (end_offset_for 2 cache ≡ ok x)
      × (x ≤ 30)
      × Boundary 2 x cache.entries
      × Ending 2 x 30 cache.entries
end_offset_for-Boundary_example = end_offset_for-Boundary 2 cache cache-IsCache

truncate_from-end_example :
    let c' = (truncate_from 15 cache).1 in
    IsCache c'
    × ((epoch : ℕ)
        → is_forgotten epoch c'.entries ≡ false
        → (x : ℕ) × (end_offset_for epoch cache ≡ ok x) × (end_offset_for epoch c' ≡ ok (min x 15)))
    × ((e : ℕ × ℕ) → Mem e c'.entries ↔ (Mem e cache.entries × (e.1 < 15)))
    × ((truncate_from 15 cache).0 + length c'.entries ≡ 3)
truncate_from-end_example = truncate_from-end 15 cache cache-IsCache

drop_below-forgets_example :
    (end_offset_for 2 cache ≡ ok 20) × (end_offset_for 2 (drop_below 15 cache).1 ≡ err missing)
drop_below-forgets_example =
    drop_below-forgets 15 ((1, 0) ∷ []) (2, 10) (5, 20) [] 30 cache-IsCache.rising (omega arith)
      (omega arith)

abbrev voter : String → ℕ → Bool → Candidate
voter name end in_sync = record { name = name; log_end_offset = end; in_sync = in_sync }

abbrev others : List Candidate
others = voter "b" 12 true ∷ voter "c" 12 true ∷ []

abbrev elector : PartitionElector
elector = record { epoch = 3; committed_offset = 10 }

elect_runs : elect (voter "a" 30 false ∷ others) false elector ≡ (
  ok (record { leader = "b"; epoch = 4; discarded = 18; unclean = false }),
  record elector { epoch = 4 },
)
unfolding elect first sorted max_end stands_before
elect_runs = refl

elect-Elects_example :
    Elects
      (eligible elector (voter "a" 30 false ∷ others))
      (voter "a" 30 false ∷ others)
      false
      elector
      (elect (voter "a" 30 false ∷ others) false elector)
elect-Elects_example = elect-Elects (voter "a" 30 false) others false elector

elect_won :
    (elect (voter "a" 30 false ∷ others) false elector).0
    ≡ ok (record { leader = "b"; epoch = 4; discarded = 18; unclean = false })
elect_won = ap (λ o. o.0) elect_runs

deposed_forever_example :
    let later =
      run
        ((others, true) ∷ ([], false) ∷ [])
        (elect (voter "a" 30 false ∷ others) false elector).1 in
    accept_from 3 later ≡ (err fenced, later)
deposed_forever_example =
    deposed_forever (voter "a" 30 false ∷ others) false elector elect_won
      ((others, true) ∷ ([], false) ∷ []) 3 (omega arith)

abbrev marker : ℕ → ℕ → EpochMarker
marker epoch start_offset = record { epoch = epoch; start_offset = start_offset }

abbrev mine : List EpochMarker
mine = marker 1 0 ∷ marker 2 10 ∷ marker 3 15 ∷ []

abbrev theirs : List EpochMarker
theirs = marker 1 0 ∷ marker 2 10 ∷ marker 4 40 ∷ []

recover-keeps_example :
    ((kept : ℕ) × ((recover theirs 50 (new_plan 30 mine)).truncated_to ≡ some kept) × (20 < kept))
    × (epoch_at 20 theirs ≡ some 2)
    × ((e : ℕ) × (epoch_at 20 mine ≡ some e) × (2 < e))
recover-keeps_example =
    recover-keeps (marker 1 0 ∷ []) (marker 2 10) (marker 3 15) (marker 4 40) [] [] 30 50 20
      (
        ((omega arith, omega arith), ((omega arith, omega arith), tt)),
        (((omega arith, omega arith), tt), (tt, tt)),
      )
      (
        ((omega arith, omega arith), ((omega arith, omega arith), tt)),
        (((omega arith, omega arith), tt), (tt, tt)),
      )
      ((λ e. omega (arith, e)), ((λ e. omega (arith, e)), ((λ e. omega (arith, e)), tt)))
      (omega arith) (omega arith) (omega arith) (omega arith)
