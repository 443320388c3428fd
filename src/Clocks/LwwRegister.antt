-- ===== src/Clocks/LwwRegister.antt =====
-- relay/lwwregister.py: one value, and the write with the highest rank wins.
pub mod Merging
use event_stream_broker.Prelude.{
  ℕ, Bool, true, false, not, ◌&&◌, ◌||◌, String, string_eq, ◌==◌, ltb, nat_beq, if◌then◌else◌,
}
use event_stream_broker.Failure.{Result, ok, err, invalid}
use event_stream_broker.Failure.Method.{Method}

pub record LwwRegister : Type 0 where
  pub value : String
  pub timestamp : ℕ
  pub node_id : ℕ

unfoldable pub empty_register : LwwRegister
empty_register = record { value = ""; timestamp = 0; node_id = 0 }

unfoldable pub write : String → ℕ → ℕ → Method LwwRegister (Unit {0})
write value timestamp node_id r =
    if ltb timestamp r.timestamp
    then (err invalid, r)
    else (ok tt, record { value = value; timestamp = timestamp; node_id = node_id })

-- `(self.timestamp, self.node_id) < (other.timestamp, other.node_id)`
unfoldable pub outranks : LwwRegister → LwwRegister → Bool
outranks r other =
    ltb r.timestamp other.timestamp
    || nat_beq r.timestamp other.timestamp && ltb r.node_id other.node_id

unfoldable pub merge : LwwRegister → LwwRegister → Bool × LwwRegister
unfolding outranks
merge other r = if outranks r other then (true, other) else (false, r)

unfoldable pub would_drop_concurrent : LwwRegister → LwwRegister → Bool
would_drop_concurrent other r =
    nat_beq r.timestamp other.timestamp
    && not (r.value == other.value)
    && not (nat_beq r.node_id other.node_id)
