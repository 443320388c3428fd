-- ===== src/Cluster/Brokers.antt =====
-- relay/cluster.py: brokers that register, send heartbeats, and are fenced when these lapse.
pub mod Steps
pub mod Fencing
pub mod Epochs
use event_stream_broker.Prelude.{
  ℕ, suc, ◌-◌, Bool, true, false, not, ◌&&◌, ◌||◌, Option, none, some, List, [], ◌∷◌, map, String,
  string_eq, str_ltb, ltb, if◌then◌else◌, keep,
}
use event_stream_broker.Prelude.Sorting.{sorted}
use event_stream_broker.Failure.{Result, ok, err, invalid, missing}
use event_stream_broker.Failure.Method.{Method}
use event_stream_broker.Dict.{Dict, get, put, values}

pub record Broker : Type 0 where
  pub broker_id : String
  pub rack : String
  pub last_heartbeat : ℕ
  pub fenced : Bool

pub record ClusterMembership : Type 0 where
  pub fence_after : ℕ
  pub brokers : Dict String Broker
  pub epoch : ℕ

unfoldable pub make_membership : ℕ → Result ClusterMembership
make_membership fence_after =
    if ltb fence_after 1
    then err invalid
    else ok (record { fence_after = fence_after; brokers = []; epoch = 0 })

unfoldable pub register : String → String → ℕ → ClusterMembership → ClusterMembership
register broker_id rack now c =
    let broker : Broker = record {
      broker_id = broker_id;
      rack = rack;
      last_heartbeat = now;
      fenced = false;
    } in
    record c { brokers = put broker_id broker c.brokers; epoch = suc c.epoch }

unfoldable pub heartbeat : String → ℕ → Method ClusterMembership (Unit {0})
heartbeat broker_id now c = elim (get broker_id c.brokers) [
  | none ↦ (err missing, c)
  | some broker ↦
      let alive = record broker { last_heartbeat = now } in
      if broker.fenced
      then (err invalid, c)
      else (ok tt, record c { brokers = put broker_id alive c.brokers })
]

-- The test of the loop of fence_lapsed.
unfoldable pub lapsed : ℕ → ℕ → Broker → Bool
lapsed fence_after now broker = not broker.fenced && ltb fence_after (now - broker.last_heartbeat)

-- The loop: each broker where it stands, and the ids that it fences.
unfoldable pub fence_loop : ℕ → ℕ → Dict String Broker → Dict String Broker × List String
unfolding lapsed
fence_loop fence_after now [] = ([], [])
fence_loop fence_after now ((key, broker) ∷ d) =
    let (d', ids) = fence_loop fence_after now d in
    if lapsed fence_after now broker
    then ((key, record broker { fenced = true }) ∷ d', broker.broker_id ∷ ids)
    else ((key, broker) ∷ d', ids)

abbrev pub bumped : List String → ℕ → ℕ
bumped [] epoch = epoch
bumped (x ∷ ids) epoch = suc epoch

unfoldable pub fence_lapsed : ℕ → ClusterMembership → List String × ClusterMembership
unfolding fence_loop
fence_lapsed now c =
    let (d, ids) = fence_loop c.fence_after now c.brokers in
    (sorted str_ltb ids, record c { brokers = d; epoch = bumped ids c.epoch })

unfoldable pub live_brokers : ClusterMembership → List String
live_brokers c =
    sorted str_ltb (map (λ b. b.broker_id) (keep (λ b. not b.fenced) (values c.brokers)))
