-- ===== src/Cluster/Brokers/Steps.antt =====
-- The calls that a cluster gets, and what a heartbeat and a sweep do to its brokers.
use event_stream_broker.Prelude.{
  ℕ, ◌≡◌, refl, ap, ◌∙◌, ◌⊎◌, inl, inr, true, false, none, some, List, [], ◌∷◌, String, string_eq,
  if◌then◌else◌, Bool-cases, Option-cases,
}
use event_stream_broker.Failure.{ok, err, invalid, missing}
use event_stream_broker.Dict.{Dict, get, put, map_values}
use event_stream_broker.Cluster.Brokers.{
  Broker, ClusterMembership, register, heartbeat, lapsed, fence_loop, fence_lapsed,
}

pub data Call : Type 0 where
  registers : String → String → ℕ → Call
  beats : String → ℕ → Call
  fences : ℕ → Call

abbrev pub answer : Call → ClusterMembership → ClusterMembership
answer (registers broker_id rack now) c = register broker_id rack now c
answer (beats broker_id now) c = (heartbeat broker_id now c).1
answer (fences now) c = (fence_lapsed now c).1

abbrev pub run : List Call → ClusterMembership → ClusterMembership
run [] c = c
run (call ∷ calls) c = run calls (answer call c)

heartbeat-none :
    (b : String) (now : ℕ) (c : ClusterMembership)
    → get b c.brokers ≡ none
    → heartbeat b now c ≡ (err missing, c)
unfolding heartbeat
heartbeat-none b now c e = rw (e, heartbeat) refl

pub heartbeat-some :
    (b : String) (now : ℕ) (c : ClusterMembership) {broker : Broker}
    → get b c.brokers ≡ some broker
    → heartbeat b now c ≡ (
        if broker.fenced then (err invalid, c) else (
          ok tt,
          record c { brokers = put b (record broker { last_heartbeat = now }) c.brokers },
        ))
unfolding heartbeat
heartbeat-some b now c e = rw (e, heartbeat) refl

-- A broker as fence_lapsed leaves it.
abbrev pub mark : ℕ → ℕ → Broker → Broker
mark k now b = if lapsed k now b then record b { fenced = true } else b

pub fence_loop-map :
    (k now : ℕ) (d : Dict String Broker) → (fence_loop k now d).0 ≡ map_values (mark k now) d
unfolding fence_loop
fence_loop-map k now [] = refl
fence_loop-map k now ((i, b) ∷ d) = elim (Bool-cases (lapsed k now b)) [
  | inl yes_ ↦ rw yes_ (ap (λ l. (i, record b { fenced = true }) ∷ l) (fence_loop-map k now d))
  | inr no_ ↦ rw no_ (ap (λ l. (i, b) ∷ l) (fence_loop-map k now d))
]

pub fence_loop-nil :
    (k now : ℕ) (d : Dict String Broker) → (fence_loop k now d).1 ≡ [] → (fence_loop k now d).0 ≡ d
unfolding fence_loop
fence_loop-nil k now [] e = refl
fence_loop-nil k now ((i, b) ∷ d) e = elim (Bool-cases (lapsed k now b)) [
  | inl yes_ ↦ absurd (cc (rw yes_ at e))
  | inr no_ ↦ rw no_ (ap (λ l. (i, b) ∷ l) (fence_loop-nil k now d (rw no_ at e)))
]

-- A heartbeat changes nothing, or only when a broker that is not fenced was last heard.
pub heartbeat-outcome :
    (i : String) (now : ℕ) (c : ClusterMembership)
    → ((heartbeat i now c).1 ≡ c)
      ⊎ ((b : Broker) × (get i c.brokers ≡ some b)
          × (b.fenced ≡ false)
          × ((heartbeat i now c).1
              ≡ record c { brokers = put i (record b { last_heartbeat = now }) c.brokers }))
heartbeat-outcome i now c = elim (Option-cases (get i c.brokers)) [
  | inl absent ↦ inl (rw (heartbeat-none i now c absent) refl)
  | inr (b, there) ↦ elim (Bool-cases b.fenced) [
    | inl gone ↦ inl (ap (λ o. o.1) (heartbeat-some i now c there) ∙ rw gone refl)
    | inr here_ ↦
        inr (b, there, here_, ap (λ o. o.1) (heartbeat-some i now c there) ∙ rw here_ refl)
  ]
]
