-- ===== src/Transactions/Coordinator/Epochs.antt =====
-- What the calls on the coordinator do to the epochs.
use event_stream_broker.Prelude.{
  ℕ, ◌+◌, ◌≤◌, ◌<◌, ◌≡◌, refl, sym, ap, ◌∙◌, subst, inl, inr, Bool, none, some, String, arith, ltb,
  string_eq, if◌then◌else◌, Bool-cases, Option-cases, ◌==◌, ==_iff,
}
use mathlib.Core.Option.{some-injective}
use event_stream_broker.Failure.{ok, err, invalid, fenced}
use event_stream_broker.Dict.{get, put, get-put_self, get-put_ne}
use event_stream_broker.Transactions.Coordinator.{
  ProducerTxnState, TransactionCoordinator, register, live, begin, complete, timeout_abort,
}

-- A call on the coordinator, whatever its result.
pub data Step : TransactionCoordinator → TransactionCoordinator → Type 0 where
  registers : (id : String) (c : TransactionCoordinator) → Step c (register id c).1
  begins : (id : String) (epoch : ℕ) (c : TransactionCoordinator) → Step c (begin id epoch c).1
  completes :
      (id : String) (epoch : ℕ) (commit : Bool) (c : TransactionCoordinator)
      → Step c (complete id epoch commit c).1
  times_out : (id : String) (c : TransactionCoordinator) → Step c (timeout_abort id c).1

pub data Reach (c : TransactionCoordinator) : TransactionCoordinator → Type 0 where
  here : Reach c c
  next : {d e : TransactionCoordinator} → Reach c d → Step d e → Reach c e

-- The epoch that a producer has is above `e`.
pub record Past (id : String) (e : ℕ) (c : TransactionCoordinator) : Type 0 where
  pub state : ProducerTxnState
  pub found : get id c.producers ≡ some state
  pub above : e < state.epoch

-- What a call may do to the entries: nothing, or raise the epoch of one or leave it as it is.
data Writes (c d : TransactionCoordinator) : Type 0 where
  same : d.producers ≡ c.producers → Writes c d
  adds :
      (id : String) (s : ProducerTxnState)
      → get id c.producers ≡ none
      → d.producers ≡ put id s c.producers
      → Writes c d
  raises :
      (id : String) (s t : ProducerTxnState)
      → get id c.producers ≡ some s
      → s.epoch ≤ t.epoch
      → d.producers ≡ put id t c.producers
      → Writes c d

put-Past :
    (id k : String) (e : ℕ) (t : ProducerTxnState) (c d : TransactionCoordinator)
    → ((s : ProducerTxnState) → get k c.producers ≡ some s → s.epoch ≤ t.epoch)
    → d.producers ≡ put k t c.producers
    → Past id e c
    → Past id e d
put-Past id k e t c d grows writes h = elim (Bool-cases (k == id)) [
  | inr other ↦ record {
    state = h.state;
    found = ap (get id) writes ∙ get-put_ne k id t c.producers other ∙ h.found;
    above = h.above;
  }
  | inl same_id ↦
      let e_id : k ≡ id = (==_iff k id).0 same_id in
      record {
        state = t;
        found =
            ap (get id) writes
            ∙ subst (λ j. get j (put k t c.producers) ≡ some t) e_id (get-put_self k t c.producers);
        above = omega (arith, h.above, grows h.state (ap (λ j. get j c.producers) e_id ∙ h.found));
      }
]

Writes-Past :
    (id : String) (e : ℕ) {c d : TransactionCoordinator} → Writes c d → Past id e c → Past id e d
Writes-Past id e (same eq) h = record {
  state = h.state;
  found = ap (get id) eq ∙ h.found;
  above = h.above;
}
Writes-Past id e {c} {d} (adds k s absent writes) h =
    put-Past id k e s c d (λ t at. cc (absent, at)) writes h
Writes-Past id e {c} {d} (raises k s t at grows writes) h =
    put-Past id k e t c d
      (λ s' at'.
        subst (λ (x : ProducerTxnState). x.epoch ≤ t.epoch) (some-injective s s' (sym at ∙ at'))
          grows)
      writes h

register-Writes : (id : String) (c : TransactionCoordinator) → Writes c (register id c).1
unfolding register
register-Writes id c = elim (Option-cases (get id c.producers)) [
  | inl absent ↦ rw absent (adds id _ absent refl)
  | inr (s, at) ↦ rw at (raises id s _ at (omega arith) refl)
]

timeout-Writes : (id : String) (c : TransactionCoordinator) → Writes c (timeout_abort id c).1
unfolding timeout_abort
timeout-Writes id c = elim (Option-cases (get id c.producers)) [
  | inl absent ↦ rw absent (same refl)
  | inr (s, at) ↦ elim (Bool-cases s.open_txn) [
    | inl opened ↦ simp (at, opened) (raises id s _ at (omega arith) refl)
    | inr closed ↦ simp (at, closed) (same refl)
  ]
]

-- What `_live` answers for a producer that is registered.
pub live-some :
    (id : String) (epoch : ℕ) (s : ProducerTxnState) (c : TransactionCoordinator)
    → get id c.producers ≡ some s
    → live id epoch c ≡ (
        if ltb epoch s.epoch
        then (err fenced, record c { zombies_fenced = c.zombies_fenced + 1 })
        else (ok s, c))
unfolding live
live-some id epoch s c at = rw at

pub live-none :
    (id : String) (epoch : ℕ) (c : TransactionCoordinator)
    → get id c.producers ≡ none
    → live id epoch c ≡ (err invalid, c)
unfolding live
live-none id epoch c at = rw at

begin-Writes :
    (id : String) (epoch : ℕ) (c : TransactionCoordinator) → Writes c (begin id epoch c).1
unfolding begin
begin-Writes id epoch c = elim (Option-cases (get id c.producers)) [
  | inl absent ↦ rw (live-none id epoch c absent) (same refl)
  | inr (s, at) ↦ rw (live-some id epoch s c at) (elim (Bool-cases (ltb epoch s.epoch)) [
    | inl behind ↦ rw behind (same refl)
    | inr current ↦ elim (Bool-cases s.open_txn) [
      | inl opened ↦ simp (current, opened) (same refl)
      | inr closed ↦ simp (current, closed) (raises id s _ at (omega arith) refl)
    ]
  ])
]

complete-Writes :
    (id : String) (epoch : ℕ) (commit : Bool) (c : TransactionCoordinator)
    → Writes c (complete id epoch commit c).1
unfolding complete
complete-Writes id epoch commit c = elim (Option-cases (get id c.producers)) [
  | inl absent ↦ rw (live-none id epoch c absent) (same refl)
  | inr (s, at) ↦ rw (live-some id epoch s c at) (elim (Bool-cases (ltb epoch s.epoch)) [
    | inl behind ↦ rw behind (same refl)
    | inr current ↦ elim (Bool-cases s.open_txn) [
      | inl opened ↦ simp (current, opened) (raises id s _ at (omega arith) refl)
      | inr closed ↦ simp (current, closed) (same refl)
    ]
  ])
]

Step-Writes : {c d : TransactionCoordinator} → Step c d → Writes c d
Step-Writes (registers id c) = register-Writes id c
Step-Writes (begins id epoch c) = begin-Writes id epoch c
Step-Writes (completes id epoch commit c) = complete-Writes id epoch commit c
Step-Writes (times_out id c) = timeout-Writes id c

pub Reach-Past :
    {id : String} {e : ℕ} {c d : TransactionCoordinator} → Past id e c → Reach c d → Past id e d
Reach-Past h here = h
Reach-Past {id} {e} h (next path st) = Writes-Past id e (Step-Writes st) (Reach-Past h path)
