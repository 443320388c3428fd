-- ===== src/Cluster/Brokers/Fencing.antt =====
-- A fenced broker is out until it registers anew.
use event_stream_broker.Prelude.{
  ℕ, ◌≡◌, refl, sym, ap, ◌∙◌, subst, inl, inr, true, false, some, List, [], ◌∷◌, String, string_eq,
  ◌==◌, ==_iff, arith, Bool-cases, All,
}
use event_stream_broker.Failure.{err, invalid}
use event_stream_broker.Dict.{get, get-map_values-some, get-put_ne}
use event_stream_broker.Cluster.Brokers.{
  Broker, ClusterMembership, register, heartbeat, lapsed, fence_lapsed,
}
use event_stream_broker.Cluster.Brokers.Steps.{
  Call, registers, beats, fences, answer, run, heartbeat-some, heartbeat-outcome, mark,
  fence_loop-map,
}

-- Fenced brokers.
abbrev pub Fenced : String → ClusterMembership → Type 0
Fenced j c = (b : Broker) × (get j c.brokers ≡ some b) × (b.fenced ≡ true)

-- Every call but a registration of the broker itself.
abbrev pub Other : String → Call → Type 0
Other j (registers i rack now) = (i == j) ≡ false
Other j (beats i now) = Unit
Other j (fences now) = Unit

mark-fenced : (k now : ℕ) (b : Broker) → b.fenced ≡ true → (mark k now b).fenced ≡ true
unfolding lapsed
mark-fenced k now b h = ground (arith, h)

answer-Fenced :
    (j : String) (call : Call) (c : ClusterMembership)
    → Other j call
    → Fenced j c
    → Fenced j (answer call c)
unfolding register fence_lapsed
answer-Fenced j (registers i rack now) c other (b, at, out) =
    (b, get-put_ne i j _ c.brokers other ∙ at, out)
answer-Fenced j (fences now) c other (b, at, out) = (
  mark c.fence_after now b,
  ap (get j) (fence_loop-map c.fence_after now c.brokers)
      ∙ get-map_values-some (mark c.fence_after now) j c.brokers at,
  mark-fenced c.fence_after now b out,
)
answer-Fenced j (beats i now) c other (b, at, out) = elim (heartbeat-outcome i now c) [
  | inl same ↦ subst (Fenced j) (sym same) (b, at, out)
  | inr (w, there, here_, is) ↦ elim (Bool-cases (i == j)) [
    | inl itself ↦
        let key : i ≡ j = (==_iff i j).0 itself in
        absurd (cc (ap (λ n. get n c.brokers) key, there, at, here_, out))
    | inr apart ↦ subst (Fenced j) (sym is) (b, get-put_ne i j _ c.brokers apart ∙ at, out)
  ]
]

run-Fenced :
    (j : String) (calls : List Call) (c : ClusterMembership)
    → All (Other j) calls
    → Fenced j c
    → Fenced j (run calls c)
run-Fenced j [] c other h = h
run-Fenced j (call ∷ calls) c other h =
    run-Fenced j calls (answer call c) other.1 (answer-Fenced j call c other.0 h)

-- A broker that is fenced stays so, and its heartbeats are refused and change nothing, whatever calls
-- come, until it registers anew.
pub out_until_registered :
    (j : String) (calls : List Call) (c : ClusterMembership) (now : ℕ)
    → All (Other j) calls
    → Fenced j c
    → Fenced j (run calls c) × (heartbeat j now (run calls c) ≡ (err invalid, run calls c))
out_until_registered j calls c now other h =
    let (b, at, out) = run-Fenced j calls c other h in
    ((b, at, out), heartbeat-some j now (run calls c) at ∙ rw out refl)
