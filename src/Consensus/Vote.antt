-- ===== src/Consensus/Vote.antt =====
-- relay/quorumvote.py: the votes of an election, one for each voter and term.
pub mod Majority
use event_stream_broker.Prelude.{
  ℕ, ◌+◌, ◌/◌, Bool, true, false, Option, none, some, List, [], ◌∷◌, ◌++◌, String, string_eq, ltb,
  leb, nat_beq, if◌then◌else◌, length,
}
use event_stream_broker.Prelude.Sets.{mem}
use event_stream_broker.Failure.{Result, ok, err, invalid, fenced}
use event_stream_broker.Failure.Method.{Method}
use event_stream_broker.Dict.{Dict, get, put}

pub record LogEnd : Type 0 where
  pub last_term : ℕ
  pub end_ : ℕ

unfoldable pub at_least_as_current_as : LogEnd → LogEnd → Bool
at_least_as_current_as log other =
    if nat_beq log.last_term other.last_term
    then leb other.end_ log.end_
    else ltb other.last_term log.last_term

pub record Election : Type 0 where
  pub term : ℕ
  pub voters : ℕ
  pub granted : List String
  pub voted_terms : Dict String ℕ

unfoldable pub make_election : ℕ → ℕ → Result Election
make_election term voters =
    if ltb voters 1
    then err invalid
    else ok (record { term = term; voters = voters; granted = []; voted_terms = [] })

unfoldable pub majority : Election → ℕ
majority e = e.voters / 2 + 1

-- `granted.add(voter)`
unfoldable pub add : String → List String → List String
unfolding mem
add voter granted = if mem voter granted then granted else granted ++ voter ∷ []

-- `voted_terms.get(voter) == term`
unfoldable pub has_voted : String → Election → Bool
has_voted voter e = elim (get voter e.voted_terms) [ none ↦ false | some t ↦ nat_beq t e.term ]

unfoldable pub request_vote : String → LogEnd → LogEnd → Method Election Bool
unfolding has_voted at_least_as_current_as add
request_vote voter candidate_log voter_log e =
    let e' = record e { voted_terms = put voter e.term e.voted_terms } in
    if has_voted voter e
    then (err fenced, e)
    else if at_least_as_current_as candidate_log voter_log
    then (ok true, record e' { granted = add voter e'.granted })
    else (ok false, e')

unfoldable pub won : Election → Bool
unfolding majority
won e = leb (majority e) (length e.granted)
