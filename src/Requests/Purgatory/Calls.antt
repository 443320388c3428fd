-- ===== src/Requests/Purgatory/Calls.antt =====
-- No request is lost, and none is answered twice.
use event_stream_broker.Prelude.{
  ℕ, ◌+◌, ◌≡◌, refl, sym, subst, inl, inr, false, List, [], ◌∷◌, ◌++◌, String, string_eq, arith,
  ltb, leb, if◌then◌else◌, length, All, All-append, Bool-cases, Option-cases,
}
use event_stream_broker.Prelude.Sets.{Distinct}
use event_stream_broker.Dict.{keys, values, get, get-put-some}
use event_stream_broker.Dict.Weights.{total, total-put_new, total-put_old, Distinct-put, All-values}
use event_stream_broker.Requests.Purgatory.{
  DelayedRequest, Purgatory, unset, sweep_at, sweep_each, park, parked, on_progress, on_tick,
  pending, empty_purgatory,
}
use event_stream_broker.Requests.Purgatory.Reaping.{
  Requests, open_, open-append, sweep_at-open, sweep_each-open, reap-open, reap_each-open,
}
use event_stream_broker.Requests.Purgatory.Settling.{Waits, sweep_each-keys, sweep_at-Distinct}
use event_stream_broker.Requests.Purgatory.Deadlines.{
  IsPurgatory, empty-IsPurgatory, on_tick-clears, on_progress-clears,
}

pending-open : (d : Requests) → All (All Waits) (values d) → total length d ≡ total open_ d
unfolding total
pending-open [] h = refl
pending-open ((key, rs) ∷ d) h = omega (arith, all_open rs h.0, pending-open d h.1)
  where
    all_open : (ss : List DelayedRequest) → All Waits ss → length ss ≡ open_ ss
    all_open [] k = refl
    all_open (r ∷ ss) k = ground (arith, k.0, all_open ss k.1)

pub data Call : Type 0 where
  parks : String → String → ℕ → ℕ → Call
  progresses : String → ℕ → Call
  ticks : ℕ → Call

abbrev pub answer : Call → Purgatory → Purgatory
answer (parks key name threshold deadline) p = (park key name threshold deadline p).1
answer (progresses key value) p = (on_progress key value p).1
answer (ticks now) p = (on_tick now p).1

abbrev pub run : List Call → Purgatory → Purgatory
run [] p = p
run (c ∷ cs) p = run cs (answer c p)

-- The requests that a call parks.
abbrev pub taken : Call → ℕ
taken (parks key name threshold deadline) = if ltb deadline 1 then 0 else 1
taken (progresses key value) = 0
taken (ticks now) = 0

abbrev pub all_taken : List Call → ℕ
all_taken [] = 0
all_taken (c ∷ cs) = taken c + all_taken cs

accounted : Purgatory → ℕ
accounted p = p.completed_by_event + p.completed_by_timeout + total open_ p.requests

park-cases :
    (key name : String) (threshold deadline : ℕ) (p : Purgatory)
    → (park key name threshold deadline p).1
      ≡ (if ltb deadline 1 then p else parked key name threshold deadline p)
unfolding park
park-cases key name threshold deadline p = ground arith

parked-IsPurgatory :
    (key name : String) (threshold deadline : ℕ) (p : Purgatory)
    → IsPurgatory p
    → IsPurgatory (parked key name threshold deadline p)
unfolding parked
parked-IsPurgatory key name threshold deadline p h = record {
  distinct = Distinct-put key _ p.requests h.distinct;
  waits = λ j rs at. elim (get-put-some key j _ p.requests at) [
    | inl (_, is) ↦ subst (All Waits) is (elim (Option-cases (get key p.requests)) [
      | inl absent ↦ rw absent (refl, tt)
      | inr (ss, there) ↦ rw there (All-append Waits ss _ (h.waits key ss there) (refl, tt))
    ])
    | inr (other, old) ↦ h.waits j rs old
  ];
}

parked-accounted :
    (key name : String) (threshold deadline : ℕ) (p : Purgatory)
    → accounted (parked key name threshold deadline p) ≡ accounted p + 1
unfolding accounted parked
parked-accounted key name threshold deadline p =
    let new : DelayedRequest = record {
      request_id = name;
      threshold = threshold;
      deadline = deadline;
      completed = false;
      outcome = unset;
    } in
    elim (Option-cases (get key p.requests)) [
      | inl absent ↦ rw absent (omega (arith, total-put_new open_ key (new ∷ []) p.requests absent))
      | inr (rs, there) ↦ rw there (
          omega (
            arith,
            total-put_old open_ key (rs ++ new ∷ []) rs p.requests there,
            open-append rs (new ∷ []),
          ))
    ]

answer-accounted :
    (c : Call) (p : Purgatory)
    → IsPurgatory p
    → IsPurgatory (answer c p) × (accounted (answer c p) ≡ accounted p + taken c)
unfolding accounted on_tick on_progress park
answer-accounted (parks key name threshold deadline) p h =
    rw (park-cases key name threshold deadline p) (elim (Bool-cases (ltb deadline 1)) [
      | inl never ↦ rw never (h, omega arith)
      | inr some_ ↦ rw some_ (
        parked-IsPurgatory key name threshold deadline p h,
        parked-accounted key name threshold deadline p,
      )
    ])
answer-accounted (progresses key value) p h =
    let due = λ (r : DelayedRequest). leb r.threshold value in
    let d = (sweep_at key due p.requests).0 in
    (
      (on_progress-clears key value p h).0,
      omega (
        arith,
        sweep_at-open key due p.requests,
        reap-open key d (sweep_at-Distinct key due p.requests h.distinct),
      ),
    )
answer-accounted (ticks now) p h =
    let due = λ (r : DelayedRequest). leb r.deadline now in
    let d = (sweep_each due p.requests).0 in
    let same : Distinct (keys d) =
      subst Distinct (sym (sweep_each-keys due p.requests)) h.distinct in
    (
      (on_tick-clears now p h).0,
      omega (arith, sweep_each-open due p.requests, (reap_each-open (keys d) d same).0),
    )

run-accounted :
    (cs : List Call) (p : Purgatory)
    → IsPurgatory p
    → IsPurgatory (run cs p) × (accounted (run cs p) ≡ accounted p + all_taken cs)
unfolding accounted
run-accounted [] p h = (h, omega arith)
run-accounted (c ∷ cs) p h =
    let (valid, one) = answer-accounted c p h in
    let (still, rest) = run-accounted cs (answer c p) valid in (still, omega (arith, one, rest))

-- Whatever calls a new purgatory gets, every request that was parked is counted exactly once, as
-- completed by an event, completed by a timeout, or pending.
pub run-Conserves :
    (cs : List Call)
    → let p = run cs empty_purgatory in
      IsPurgatory p × (p.completed_by_event + p.completed_by_timeout + pending p ≡ all_taken cs)
unfolding accounted pending empty_purgatory total
run-Conserves cs =
    let (valid, sum_) = run-accounted cs empty_purgatory empty-IsPurgatory in
    let d = (run cs empty_purgatory).requests in
    (
      valid,
      omega (arith, sum_, pending-open d (All-values (All Waits) d valid.distinct valid.waits)),
    )
