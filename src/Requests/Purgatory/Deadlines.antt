-- ===== src/Requests/Purgatory/Deadlines.antt =====
-- No request outlives its deadline, or waits on for what has come.
use event_stream_broker.Prelude.{
  ℕ, ◌<◌, ◌≡◌, sym, ◌∙◌, subst, inl, inr, false, some, List, String, string_eq, ◌==◌, ==_self,
  arith, leb, All, All-mono,
}
use event_stream_broker.Prelude.Sets.{Distinct}
use event_stream_broker.Dict.{keys, values, get, All-values-get}
use event_stream_broker.Dict.Weights.{All-values, get-mem}
use event_stream_broker.Requests.Purgatory.{
  DelayedRequest, Purgatory, sweep_at, sweep_each, reap_each, on_progress, on_tick, empty_purgatory,
}
use event_stream_broker.Requests.Purgatory.Reaping.{reap-Distinct, reap_each-open, get-reap}
use event_stream_broker.Requests.Purgatory.Settling.{
  Everywhere, Waits, Spared, sweep_each-Spared, sweep_each-keys, waiting-All, reap_each-Everywhere,
  sweep_at-Spared, sweep_at-other, sweep_at-Distinct,
}

-- The keys are distinct, and nothing that is completed is kept.
pub record IsPurgatory (p : Purgatory) : Type 0 where
  pub distinct : Distinct (keys p.requests)
  pub waits : Everywhere Waits p.requests

pub empty-IsPurgatory : IsPurgatory empty_purgatory
unfolding empty_purgatory get
empty-IsPurgatory = record { distinct = tt; waits = λ j rs at. cc }

on_tick-left :
    (now : ℕ) (p : Purgatory)
    → Everywhere (λ r. Spared (λ r. leb r.deadline now) r × Waits r) (on_tick now p).1.requests
unfolding on_tick
on_tick-left now p =
    let due = λ (r : DelayedRequest). leb r.deadline now in
    let d = (sweep_each due p.requests).0 in
    reap_each-Everywhere (Spared due) (keys d) d
      (λ j rs at. All-values-get (All (Spared due)) j d (sweep_each-Spared due p.requests) at)
      (λ j rs out at. absurd (cc (out, get-mem j rs d at)))

-- After a tick, no request that waits has reached its deadline, and the purgatory is as valid as
-- it was before.
pub on_tick-clears :
    (now : ℕ) (p : Purgatory)
    → IsPurgatory p
    → IsPurgatory (on_tick now p).1
      × All (All (λ r. now < r.deadline)) (values (on_tick now p).1.requests)
unfolding on_tick
on_tick-clears now p h =
    let due = λ (r : DelayedRequest). leb r.deadline now in
    let d = (sweep_each due p.requests).0 in
    let same : Distinct (keys d) =
      subst Distinct (sym (sweep_each-keys due p.requests)) h.distinct in
    let distinct = (reap_each-open (keys d) d same).1 in
    let left = on_tick-left now p in
    (
      record { distinct = distinct; waits = λ j rs at. All-mono rs (λ r k. k.1) (left j rs at) },
      All-values (All (λ r. now < r.deadline)) (reap_each (keys d) d) distinct
          (λ j rs at. All-mono rs (λ r k. ground (arith, k.0 k.1)) (left j rs at)),
    )

-- After progress on a key, no request that waits under it has reached its threshold, and the lists
-- under all other keys are as they were.
pub on_progress-clears :
    (key : String) (value : ℕ) (p : Purgatory)
    → IsPurgatory p
    → let d = (on_progress key value p).1.requests in
      IsPurgatory (on_progress key value p).1
      × ((rs : List DelayedRequest) → get key d ≡ some rs → All (λ r. value < r.threshold) rs)
      × ((j : String) (rs : List DelayedRequest)
          → (key == j) ≡ false
          → get j d ≡ some rs
          → get j p.requests ≡ some rs)
unfolding on_progress
on_progress-clears key value p h =
    let due = λ (r : DelayedRequest). leb r.threshold value in
    let d = (sweep_at key due p.requests).0 in
    let swept = waiting-All (Spared due) d key (sweep_at-Spared key due p.requests) in
    let still =
      λ (j : String) (other : (key == j) ≡ false). sweep_at-other key j due p.requests other in
    (
      record {
        distinct = reap-Distinct key d (sweep_at-Distinct key due p.requests h.distinct);
        waits = λ j rs at. elim (get-reap key j d at) [
          | inl (_, is) ↦ subst (All Waits) (sym is) (All-mono _ (λ r k. k.1) swept)
          | inr (other, old) ↦ h.waits j rs (sym (still j other) ∙ old)
        ];
      },
      (λ rs at. elim (get-reap key key d at) [
        | inl (_, is) ↦
            subst (All (λ r. value < r.threshold)) (sym is)
              (All-mono _ (λ r k. ground (arith, k.0 k.1)) swept)
        | inr (other, old) ↦ absurd (cc (==_self key, other))
      ]),
      (λ j rs other at. elim (get-reap key j d at) [
        | inl (same, is) ↦ absurd (cc (same, other))
        | inr (_, old) ↦ sym (still j other) ∙ old
      ]),
    )
