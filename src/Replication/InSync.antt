-- ===== src/Replication/InSync.antt =====
-- relay/replication.py: the in-sync set of a partition and the watermark that it allows.
pub mod Watermark
use event_stream_broker.Prelude.{
  ℕ, suc, ◌+◌, ◌-◌, Bool, true, false, ◌&&◌, List, [], ◌∷◌, String, ltb, if◌then◌else◌, keep,
  length, map, min_all,
}
use event_stream_broker.Failure.{Result, ok, err, invalid, fail_if, ◌>>◌}
use event_stream_broker.Dict.{Dict, values}

pub record ReplicaState : Type 0 where
  pub name : String
  pub fetched_offset : ℕ
  pub in_sync : Bool

pub record ReplicationSet : Type 0 where
  pub leader : String
  pub followers : Dict String ReplicaState
  pub min_in_sync : ℕ
  pub max_lag : ℕ
  pub leader_end_offset : ℕ

unfoldable pub make_set : String → Dict String ReplicaState → ℕ → ℕ → ℕ → Result ReplicationSet
make_set leader followers min_in_sync max_lag leader_end_offset = do
  fail_if (ltb min_in_sync 1) invalid
  ok (record {
    leader = leader;
    followers = followers;
    min_in_sync = min_in_sync;
    max_lag = max_lag;
    leader_end_offset = leader_end_offset;
  })

-- The followers that are in sync.
abbrev pub in_sync_followers : ReplicationSet → List ReplicaState
in_sync_followers r = keep (λ (s : ReplicaState). s.in_sync) (values r.followers)

-- The offsets after the leader's own, which stands first.
unfoldable pub in_sync_offsets : ReplicationSet → List ℕ
in_sync_offsets r = map (λ (s : ReplicaState). s.fetched_offset) (in_sync_followers r)

unfoldable pub in_sync_count : ReplicationSet → ℕ
in_sync_count r = 1 + length (in_sync_followers r)

-- `leader_end_offset - fetched_offset > max_lag`, without the subtraction, which can be negative
-- there.
unfoldable pub is_laggard : ℕ → ℕ → ReplicaState → Bool
is_laggard end max_lag s = s.in_sync && ltb (max_lag + s.fetched_offset) end

-- The loop of evict_laggards: who is evicted, and the followers after it.
unfoldable pub evict_loop :
    ℕ → ℕ → Dict String ReplicaState → List String × Dict String ReplicaState
unfolding is_laggard
evict_loop end max_lag [] = ([], [])
evict_loop end max_lag ((key, s) ∷ rest) =
    let (evicted, followers) = evict_loop end max_lag rest in
    if is_laggard end max_lag s
    then (s.name ∷ evicted, (key, record s { in_sync = false }) ∷ followers)
    else (evicted, (key, s) ∷ followers)

unfoldable pub evict_laggards : ReplicationSet → List String × ReplicationSet
unfolding evict_loop
evict_laggards r =
    let (evicted, followers) = evict_loop r.leader_end_offset r.max_lag r.followers in
    (evicted, record r { followers = followers })

unfoldable pub committable_watermark : ReplicationSet → Result ℕ
unfolding in_sync_count in_sync_offsets
committable_watermark r =
    if ltb (in_sync_count r) r.min_in_sync
    then err invalid
    else ok (min_all r.leader_end_offset (in_sync_offsets r))

-- The slowest replica so far, and after the followers that are left.
unfoldable pub slowest : String × ℕ → List ReplicaState → String × ℕ
slowest best [] = best
slowest best (s ∷ rest) =
    slowest (if s.in_sync && ltb s.fetched_offset best.1 then (s.name, s.fetched_offset) else best)
      rest

-- The parts of pace_report: the count, the pace-setter, its offset and its lag.
unfoldable pub pace_report : ReplicationSet → ℕ × String × ℕ × ℕ
unfolding slowest in_sync_count
pace_report r =
    let (slowest_name, slowest_offset) =
      slowest (r.leader, r.leader_end_offset) (values r.followers) in
    (in_sync_count r, slowest_name, slowest_offset, r.leader_end_offset - slowest_offset)
