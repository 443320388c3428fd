-- ===== src/Producers/Idempotent/Retries.antt =====
-- A retry is answered with the offset of the first write, until its session is opened anew.
use event_stream_broker.Prelude.{
  ℕ, ◌+◌, ◌≤◌, ◌≡◌, refl, ap, ◌∙◌, inl, inr, true, false, some, String, arith, ltb, nat_eq,
  string_eq,
}
use event_stream_broker.Prelude.Int.{pos}
use event_stream_broker.Failure.{Result, ok}
use event_stream_broker.Dict.{get, put, get-put_self}
use event_stream_broker.Producers.Idempotent.{
  ProducerSession, IdempotencyGate, new_session, open_session, Answer, duplicate, accepted,
  answer_retry, accept, admit,
}
use event_stream_broker.Producers.Idempotent.Sessions.{
  count, IsSession, IsGate, Admits, admit-cases, admit-Admits,
}
use event_stream_broker.Producers.Idempotent.Kept.{
  grown, grown-IsSession, new_session-IsSession, put-IsGate, same-IsGate, same-Holds, Reach, Kept,
  Reach-Kept,
}

Admits-accepted :
    (p : String) (s : ProducerSession) (epoch sequence offset : ℕ) (g g' : IdempotencyGate)
    (r : Result Answer)
    → IsSession s
    → r ≡ ok (accepted sequence offset)
    → Admits p s epoch sequence offset g (r, g')
    → (s.epoch ≤ epoch)
      × (g'.sessions ≡ put p (grown s offset) g.sessions)
      × (sequence ≡ count s.last_sequence)
Admits-accepted p s epoch sequence offset g g' r valid took (inl h) = cc
Admits-accepted p s epoch sequence offset g g' r valid took (inr (inl h)) = cc (h.2.2)
Admits-accepted p s epoch sequence offset g g' r valid took (inr (inr (inl h))) = cc
Admits-accepted p s epoch sequence offset g g' r valid took (inr (inr (inr h))) = (
  h.0,
  ap IdempotencyGate.sessions h.3
      ∙ ap
          (λ m.
            put p
              (record s {
                last_sequence = pos m;
                accepted_offsets = put m offset s.accepted_offsets;
              })
              g.sessions)
          h.1,
  h.1,
)

retry-Holds :
    (p : String) (e epoch sequence o offset : ℕ) (g : IdempotencyGate)
    → Kept p e sequence o g
    → e ≤ epoch
    → admit p epoch sequence offset g
      ≡ (ok (duplicate sequence o), record g { duplicates_absorbed = g.duplicates_absorbed + 1 })
unfolding answer_retry
retry-Holds p e epoch sequence o offset g (valid, h) current =
    let t = h.session in
    let valid_t = valid.session p t h.found in
    let on_time : ltb epoch t.epoch ≡ false = ground (arith, h.since, current) in
    let old : ltb sequence (count t.last_sequence) ≡ true =
      ground (arith, h.at, valid_t.unseen sequence) in
    rw (admit-cases p t epoch sequence offset g valid_t h.found) (rw (on_time, old, h.at))

-- Exactly once: when a record is accepted at an offset, every later retry of its sequence number,
-- at the session's epoch or above, is answered with that offset and not appended again, whatever
-- calls come between, as long as the producer's own session is not opened anew.
pub retry_once :
    {h : IdempotencyGate} (p : String) (s : ProducerSession)
    (epoch sequence offset epoch' offset' : ℕ) (g : IdempotencyGate)
    → IsGate g
    → get p g.sessions ≡ some s
    → (admit p epoch sequence offset g).0 ≡ ok (accepted sequence offset)
    → Reach p (admit p epoch sequence offset g).1 h
    → s.epoch ≤ epoch'
    → admit p epoch' sequence offset' h ≡ (
      ok (duplicate sequence offset),
      record h { duplicates_absorbed = h.duplicates_absorbed + 1 },
    )
retry_once {h} p s epoch sequence offset epoch' offset' g valid at took path current =
    let g' = (admit p epoch sequence offset g).1 in
    let k : IdempotencyGate = record g { sessions = put p (grown s offset) g.sessions } in
    let valid_s = valid.session p s at in
    let (_, more, last) =
      Admits-accepted p s epoch sequence offset g g' _ valid_s took
        (admit-Admits p s epoch sequence offset g valid_s at) in
    let kept : Kept p s.epoch sequence offset g' = (
      same-IsGate k g' more
          (put-IsGate p (grown s offset) g valid (grown-IsSession s offset valid_s)),
      same-Holds k g' more (record {
        session = grown s offset;
        found = get-put_self p (grown s offset) g.sessions;
        since = refl;
        at =
            ap (λ q. get q (grown s offset).accepted_offsets) last
            ∙ get-put_self (count s.last_sequence) offset s.accepted_offsets;
      }),
    ) in
    retry-Holds p s.epoch epoch' sequence offset offset' h (Reach-Kept kept path) current

open-current :
    (p : String) (s : ProducerSession) (epoch : ℕ) (g : IdempotencyGate)
    → get p g.sessions ≡ some s
    → s.epoch ≤ epoch
    → ((open_session p epoch g).0 ≡ ok (new_session p epoch))
      × (get p (open_session p epoch g).1.sessions ≡ some (new_session p epoch))
unfolding open_session
open-current p s epoch g at current =
    let on_time : ltb epoch s.epoch ≡ false = ground (arith, current) in
    rw at (rw on_time (refl, get-put_self p (new_session p epoch) g.sessions))

-- Opening a session again at the epoch it has, or above, is accepted and forgets what was written:
-- the first sequence number is then accepted once more, at a new offset, and not as a duplicate.
pub reopen_forgets :
    (p : String) (s : ProducerSession) (epoch offset : ℕ) (g : IdempotencyGate)
    → get p g.sessions ≡ some s
    → s.epoch ≤ epoch
    → ((open_session p epoch g).0 ≡ ok (new_session p epoch))
      × ((admit p epoch 0 offset (open_session p epoch g).1).0 ≡ ok (accepted 0 offset))
unfolding accept
reopen_forgets p s epoch offset g at current =
    let g' = (open_session p epoch g).1 in
    let (opened, found) = open-current p s epoch g at current in
    let never_behind : ltb epoch epoch ≡ false = ground arith in
    (
      opened,
      rw
          (admit-cases p (new_session p epoch) epoch 0 offset g' (new_session-IsSession p epoch)
            found)
          (rw never_behind),
    )
