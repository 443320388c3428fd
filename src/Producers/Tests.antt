-- ===== src/Producers/Tests.antt =====
-- The theorems of the producers' sessions on concrete inputs.
use event_stream_broker.Prelude.{◌+◌, ◌≡◌, refl, some, [], arith, nat_eq, string_eq}
use event_stream_broker.Failure.{ok}
use event_stream_broker.Dict.{get, put}
use event_stream_broker.Producers.Idempotent.{
  IdempotencyGate, empty_gate, new_session, open_session, duplicate, accepted, admit,
}
use event_stream_broker.Producers.Idempotent.Sessions.{IsGate}
use event_stream_broker.Producers.Idempotent.Retries.{retry_once, reopen_forgets}
use event_stream_broker.Producers.Idempotent.Kept.{
  here, next, opens, put-IsGate, new_session-IsSession,
}

abbrev gate : IdempotencyGate
gate = record { sessions = put "a" (new_session "a" 2) []; duplicates_absorbed = 0 }

empty_gate-IsGate : IsGate empty_gate
unfolding get
empty_gate-IsGate = record { session = λ p s at. cc }

gate-IsGate : IsGate gate
gate-IsGate =
    put-IsGate "a" (new_session "a" 2) empty_gate empty_gate-IsGate (new_session-IsSession "a" 2)

found : get "a" gate.sessions ≡ some (new_session "a" 2)
unfolding get put
found = refl

abbrev after : IdempotencyGate
after = (open_session "b" 1 (admit "a" 2 0 70 gate).1).1

took : (admit "a" 2 0 70 gate).0 ≡ ok (accepted 0 70)
unfolding admit get put
took = refl

retry_once_example :
    admit "a" 3 0 99 after
    ≡ (ok (duplicate 0 70), record after { duplicates_absorbed = after.duplicates_absorbed + 1 })
retry_once_example =
    retry_once {h = after} "a" (new_session "a" 2) 2 0 70 3 99 gate gate-IsGate found took
      (next here (opens "b" 1 (admit "a" 2 0 70 gate).1 refl)) (omega arith)

reopen_forgets_example :
    ((open_session "a" 2 gate).0 ≡ ok (new_session "a" 2))
    × ((admit "a" 2 0 80 (open_session "a" 2 gate).1).0 ≡ ok (accepted 0 80))
reopen_forgets_example = reopen_forgets "a" (new_session "a" 2) 2 80 gate found (omega arith)
