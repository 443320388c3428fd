-- ===== src/Producers/Idempotent.antt =====
-- relay/idempotent.py: a session for each producer, with the sequence numbers that were accepted
-- and the offsets they went to. Sequence numbers and epochs that a producer sends are natural;
-- `last_sequence` begins at -1.
pub mod Sessions
pub mod Kept
pub mod Retries
use event_stream_broker.Prelude.{
  ℕ, zero, suc, ◌+◌, Bool, true, false, not, Option, none, some, List, [], ◌∷◌, String, ltb, nat_eq,
  string_eq, if◌then◌else◌, nat_beq,
}
use event_stream_broker.Prelude.Int.{ℤ, pos, negsuc, leb_ℤ}
use event_stream_broker.Failure.{Result, ok, err, invalid, fenced}
use event_stream_broker.Failure.Method.{Method}
use event_stream_broker.Dict.{Dict, get, put}

pub record ProducerSession : Type 0 where
  pub producer_id : String
  pub epoch : ℕ
  pub last_sequence : ℤ
  pub accepted_offsets : Dict ℕ ℕ

pub record IdempotencyGate : Type 0 where
  pub sessions : Dict String ProducerSession
  pub duplicates_absorbed : ℕ

abbrev pub empty_gate : IdempotencyGate
empty_gate = record { sessions = []; duplicates_absorbed = 0 }

abbrev pub new_session : String → ℕ → ProducerSession
new_session producer_id epoch = record {
  producer_id = producer_id;
  epoch = epoch;
  last_sequence = negsuc 0;
  accepted_offsets = [];
}

abbrev behind : ℕ → Option ProducerSession → Bool
behind epoch none = false
behind epoch (some held) = ltb epoch held.epoch

unfoldable pub open_session : String → ℕ → Method IdempotencyGate ProducerSession
open_session producer_id epoch gate =
    if behind epoch (get producer_id gate.sessions) then (err fenced, gate) else (
      ok (new_session producer_id epoch),
      record gate { sessions = put producer_id (new_session producer_id epoch) gate.sessions },
    )

-- The answers of `admit`: both name the sequence number and the offset it stands at.
pub data Answer : Type 0 where
  duplicate accepted : ℕ → ℕ → Answer

-- `last_sequence + 1`
abbrev pub expected : ℤ → ℤ
expected (pos n) = pos (suc n)
expected (negsuc zero) = pos 0
expected (negsuc (suc n)) = negsuc n

abbrev is_at : ℕ → ℤ → Bool
is_at sequence (pos n) = nat_beq sequence n
is_at sequence (negsuc n) = false

-- A sequence number at or below the last one is a retry, or a bug of the producer.
pub answer_retry : ℕ → Option ℕ → Method IdempotencyGate Answer
answer_retry sequence none gate = (err invalid, gate)
answer_retry sequence (some offset) gate = (
  ok (duplicate sequence offset),
  record gate { duplicates_absorbed = gate.duplicates_absorbed + 1 },
)

pub accept : String → ProducerSession → ℕ → ℕ → Method IdempotencyGate Answer
accept producer_id session sequence assign_offset gate = (
  ok (accepted sequence assign_offset),
  record gate {
    sessions =
        put producer_id
          (record session {
            last_sequence = pos sequence;
            accepted_offsets = put sequence assign_offset session.accepted_offsets;
          })
          gate.sessions;
  },
)

admit_in : String → Option ProducerSession → ℕ → ℕ → ℕ → Method IdempotencyGate Answer
unfolding answer_retry accept
admit_in producer_id none epoch sequence assign_offset gate = (err invalid, gate)
admit_in producer_id (some session) epoch sequence assign_offset gate =
    if ltb epoch session.epoch
    then (err fenced, gate)
    else if leb_ℤ (pos sequence) session.last_sequence
    then answer_retry sequence (get sequence session.accepted_offsets) gate
    else if not (is_at sequence (expected session.last_sequence))
    then (err invalid, gate)
    else accept producer_id session sequence assign_offset gate

unfoldable pub admit : String → ℕ → ℕ → ℕ → Method IdempotencyGate Answer
unfolding admit_in
admit producer_id epoch sequence assign_offset gate =
    admit_in producer_id (get producer_id gate.sessions) epoch sequence assign_offset gate
