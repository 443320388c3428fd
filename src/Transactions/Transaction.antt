-- ===== src/Transactions/Transaction.antt =====
-- relay/transactions.py: the transaction's state machine and the records that are visible.
pub mod Verdicts
pub mod Visible
use event_stream_broker.Prelude.{
  ℕ, ◌-◌, Bool, true, false, not, ◌&&◌, Option, none, some, List, [], ◌∷◌, ◌++◌, String, ltb,
  nat_beq, if◌then◌else◌, keep, map,
}
use event_stream_broker.Failure.{Result, ok, err, invalid}
use event_stream_broker.Failure.Method.{Method, continue, ◌>>=◌, ◌>>◌}

pub data State : Type 0 where
  active committing committed aborting aborted : State

-- `target in ALLOWED[state]`; `active` is the source's OPEN.
unfoldable pub allowed : State → State → Bool
allowed active committing = true
allowed active aborting = true
allowed committing committed = true
allowed aborting aborted = true
allowed _ _ = false

pub record Transaction : Type 0 where
  pub txn_id : String
  pub opened_at : ℕ
  pub timeout : ℕ
  pub state : State
  pub partitions_touched : List ℕ
  pub records : List (ℕ × ℕ)

unfoldable pub begin : String → ℕ → ℕ → Transaction
begin txn_id opened_at timeout = record {
  txn_id = txn_id;
  opened_at = opened_at;
  timeout = timeout;
  state = active;
  partitions_touched = [];
  records = [];
}

unfoldable pub is_active : State → Bool
is_active active = true
is_active _ = false

unfoldable pub contains : ℕ → List ℕ → Bool
contains n [] = false
contains n (m ∷ ms) = if nat_beq m n then true else contains n ms

-- `partitions_touched.add(partition)`
unfoldable pub add : ℕ → List ℕ → List ℕ
add n ms = if contains n ms then ms else ms ++ n ∷ []

unfoldable pub append : ℕ → ℕ → Method Transaction (Unit {0})
append partition offset t = if not (is_active t.state) then (err invalid, t) else (
  ok tt,
  record t {
    partitions_touched = add partition t.partitions_touched;
    records = t.records ++ (partition, offset) ∷ [];
  },
)

unfoldable pub transition : State → Method Transaction (Unit {0})
unfolding allowed
transition target t =
    if not (allowed t.state target) then (err invalid, t) else (ok tt, record t { state = target })

unfoldable pub commit : Method Transaction (Unit {0})
commit t = (transition committing >> transition committed) t

unfoldable pub abort : Method Transaction (Unit {0})
abort t = (transition aborting >> transition aborted) t

-- Whether the transaction was aborted. `now - opened_at > timeout` fails before `opened_at`.
unfoldable pub force_abort_if_expired : ℕ → Method Transaction Bool
unfolding is_active
force_abort_if_expired now t =
    if is_active t.state && ltb t.timeout (now - t.opened_at)
    then continue (abort t) (λ _ u. (ok true, u))
    else (ok false, t)

unfoldable pub is_committed : State → Bool
is_committed committed = true
is_committed _ = false

unfoldable pub visible_to_read_committed : List (ℕ × ℕ × State) → List (ℕ × ℕ)
visible_to_read_committed records = map (λ r. (r.0, r.1)) (keep (λ r. is_committed r.2) records)
