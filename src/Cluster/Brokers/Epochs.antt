-- ===== src/Cluster/Brokers/Epochs.antt =====
-- The epoch tells a stale view of the cluster.
use event_stream_broker.Prelude.{
  ℕ, suc, ◌≤◌, ◌≡◌, refl, sym, ap, ◌∙◌, subst, ◌⊎◌, inl, inr, Bool, false, not, Option, none, some,
  List, [], ◌∷◌, String, string_eq, ◌==◌, ==_iff, arith, Bool-cases,
}
use event_stream_broker.Dict.{get, put, get-map_values-some, get-put_self, get-put_ne}
use event_stream_broker.Cluster.Brokers.{
  Broker, ClusterMembership, register, fence_loop, bumped, fence_lapsed,
}
use event_stream_broker.Cluster.Brokers.Steps.{
  Call, registers, beats, fences, answer, run, heartbeat-outcome, mark, fence_loop-map,
  fence_loop-nil,
}

-- Whether a broker is in the cluster and not fenced.
abbrev up : Option Broker → Bool
up none = false
up (some b) = not b.fenced

unfoldable pub is_live : String → ClusterMembership → Bool
unfolding up
is_live j c = up (get j c.brokers)

-- The epoch does not fall, and stays only where the live brokers stay.
abbrev pub Follows : ClusterMembership → ClusterMembership → Type 0
Follows c c' =
    (c.epoch ≤ c'.epoch) × (c'.epoch ≡ c.epoch → (j : String) → is_live j c' ≡ is_live j c)

Follows-self : (c : ClusterMembership) → Follows c c
Follows-self c = (omega arith, λ e j. refl)

Follows-trans : (a b c : ClusterMembership) → Follows a b → Follows b c → Follows a c
Follows-trans a b c (low, same) (low', same') =
    (omega arith, λ e j. same' (omega (arith, e)) j ∙ same (omega (arith, e)) j)

beat-live :
    (i j : String) (b b' : Broker) (c : ClusterMembership)
    → get i c.brokers ≡ some b
    → b'.fenced ≡ b.fenced
    → is_live j (record c { brokers = put i b' c.brokers }) ≡ is_live j c
unfolding is_live
beat-live i j b b' c there same = elim (Bool-cases (i == j)) [
  | inl itself ↦
      let key : i ≡ j = (==_iff i j).0 itself in
      subst (λ k. up (get k (put i b' c.brokers)) ≡ up (get k c.brokers)) key
        (ap up (get-put_self i b' c.brokers) ∙ ap not same ∙ sym (ap up there))
  | inr apart ↦ ap up (get-put_ne i j b' c.brokers apart)
]

bumped-cases : (ids : List String) (epoch : ℕ) → (ids ≡ []) ⊎ (bumped ids epoch ≡ suc epoch)
bumped-cases [] epoch = inl refl
bumped-cases (x ∷ ids) epoch = inr refl

answer-Follows : (call : Call) (c : ClusterMembership) → Follows c (answer call c)
unfolding register fence_lapsed is_live
answer-Follows (registers i rack now) c = (omega arith, λ e. absurd (omega (arith, e)))
answer-Follows (beats i now) c = elim (heartbeat-outcome i now c) [
  | inl same ↦ subst (Follows c) (sym same) (Follows-self c)
  | inr (b, there, here_, is) ↦
      subst (Follows c) (sym is)
        (omega arith, λ e j. beat-live i j b (record b { last_heartbeat = now }) c there refl)
]
answer-Follows (fences now) c =
    let ids = (fence_loop c.fence_after now c.brokers).1 in
    elim (bumped-cases ids c.epoch) [
      | inl none_ ↦
          let still : bumped ids c.epoch ≡ c.epoch = ap (λ l. bumped l c.epoch) none_ in
          (
            omega (arith, still),
            λ e j. ap (λ d. up (get j d)) (fence_loop-nil c.fence_after now c.brokers none_),
          )
      | inr more ↦ (omega (arith, more), λ e. absurd (omega (arith, more, e)))
    ]

-- Whatever calls come, the epoch does not fall, and where it is the same before and after, the
-- same brokers are live before and after: only a view of an earlier epoch can be stale.
pub run-Follows : (calls : List Call) (c : ClusterMembership) → Follows c (run calls c)
run-Follows [] c = Follows-self c
run-Follows (call ∷ calls) c =
    Follows-trans c (answer call c) (run calls (answer call c)) (answer-Follows call c)
      (run-Follows calls (answer call c))

-- A sweep fences exactly the brokers that have been silent for longer than the limit and are not
-- fenced yet, and changes no other broker.
pub fence_lapsed-mark :
    (now : ℕ) (c : ClusterMembership) (j : String) {b : Broker}
    → get j c.brokers ≡ some b
    → get j (fence_lapsed now c).1.brokers ≡ some (mark c.fence_after now b)
unfolding fence_lapsed
fence_lapsed-mark now c j at =
    ap (get j) (fence_loop-map c.fence_after now c.brokers)
    ∙ get-map_values-some (mark c.fence_after now) j c.brokers at
