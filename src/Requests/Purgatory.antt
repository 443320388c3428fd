-- ===== src/Requests/Purgatory.antt =====
-- relay/purgatory.py: requests parked until their condition comes, or their deadline.
pub mod Reaping
pub mod Settling
pub mod Deadlines
pub mod Calls
use event_stream_broker.Prelude.{
  ℕ, ◌+◌, Bool, true, false, not, ◌&&◌, Option, none, some, List, [], ◌∷◌, ◌++◌, String, string_eq,
  str_ltb, ltb, leb, if◌then◌else◌, keep, length,
}
use event_stream_broker.Prelude.Sorting.{sorted}
use event_stream_broker.Failure.{Result, ok, err, invalid}
use event_stream_broker.Failure.Method
use event_stream_broker.Failure.Method.{Method, raise_if, modify}
use event_stream_broker.Dict.{Dict, keys, get, put, remove}
use event_stream_broker.Dict.Weights.{total}

pub data Outcome : Type 0 where
  unset satisfied timeout : Outcome

pub record DelayedRequest : Type 0 where
  pub request_id : String
  pub threshold : ℕ
  pub deadline : ℕ
  pub completed : Bool
  pub outcome : Outcome

pub record Purgatory : Type 0 where
  pub requests : Dict String (List DelayedRequest)
  pub completed_by_event : ℕ
  pub completed_by_timeout : ℕ

unfoldable pub empty_purgatory : Purgatory
empty_purgatory = record { requests = []; completed_by_event = 0; completed_by_timeout = 0 }

-- `self.requests.get(key, [])`
abbrev pub or_empty : {A : Type 0} → Option (List A) → List A
or_empty none = []
or_empty (some rs) = rs

parked : String → String → ℕ → ℕ → Purgatory → Purgatory
parked key request_id threshold deadline p =
    let request : DelayedRequest = record {
      request_id = request_id;
      threshold = threshold;
      deadline = deadline;
      completed = false;
      outcome = unset;
    } in
    record p { requests = put key (or_empty (get key p.requests) ++ request ∷ []) p.requests }

unfoldable pub park : String → String → ℕ → ℕ → Method Purgatory (Unit {0})
unfolding parked
park key request_id threshold deadline =
    Method.◌>>◌ (raise_if (ltb deadline 1) invalid)
      (modify (parked key request_id threshold deadline))

-- The loop over a list of requests: each that waits and is due is completed where it stands.
unfoldable pub sweep :
    (DelayedRequest → Bool) → Outcome → List DelayedRequest → List DelayedRequest × List String
sweep due how [] = ([], [])
sweep due how (r ∷ rs) =
    let (rs', names) = sweep due how rs in
    if not r.completed && due r
    then (record r { completed = true; outcome = how } ∷ rs', r.request_id ∷ names)
    else (r ∷ rs', names)

abbrev pub is_empty : {A : Type 0} → List A → Bool
is_empty [] = true
is_empty (x ∷ xs) = false

unfoldable pub reap : String → Dict String (List DelayedRequest) → Dict String (List DelayedRequest)
reap key d =
    let waiting = keep (λ r. not r.completed) (or_empty (get key d)) in
    let d' = put key waiting d in if is_empty waiting then remove key d' else d'

-- A list that is swept is the one under the key, if there is one.
unfoldable pub sweep_at :
    String
    → (DelayedRequest → Bool)
    → Dict String (List DelayedRequest)
    → Dict String (List DelayedRequest) × List String
unfolding sweep
sweep_at key due d = elim (get key d) [
  | none ↦ (d, [])
  | some rs ↦ let (rs', names) = sweep due satisfied rs in (put key rs' d, names)
]

unfoldable pub on_progress : String → ℕ → Purgatory → List String × Purgatory
unfolding sweep_at reap
on_progress key value p =
    let (d, names) = sweep_at key (λ r. leb r.threshold value) p.requests in
    (
      sorted str_ltb names,
      record p { requests = reap key d; completed_by_event = p.completed_by_event + length names },
    )

unfoldable pub sweep_each :
    (DelayedRequest → Bool)
    → Dict String (List DelayedRequest)
    → Dict String (List DelayedRequest) × List String
unfolding sweep
sweep_each due [] = ([], [])
sweep_each due ((key, rs) ∷ d) =
    let (rs', names) = sweep due timeout rs in
    let (d', more) = sweep_each due d in ((key, rs') ∷ d', names ++ more)

unfoldable pub reap_each :
    List String → Dict String (List DelayedRequest) → Dict String (List DelayedRequest)
unfolding reap
reap_each [] d = d
reap_each (key ∷ ks) d = reap_each ks (reap key d)

unfoldable pub on_tick : ℕ → Purgatory → List String × Purgatory
unfolding sweep_each reap_each
on_tick now p =
    let (d, names) = sweep_each (λ r. leb r.deadline now) p.requests in
    (
      sorted str_ltb names,
      record p {
        requests = reap_each (keys d) d;
        completed_by_timeout = p.completed_by_timeout + length names;
      },
    )

unfoldable pub pending : Purgatory → ℕ
unfolding total
pending p = total length p.requests
