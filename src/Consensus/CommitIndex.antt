-- ===== src/Consensus/CommitIndex.antt =====
-- relay/commitindex.py: how far a leader of a term may commit.
pub mod Terms
use event_stream_broker.Prelude.{
  ℕ, ◌+◌, ◌/◌, Bool, true, false, not, Option, none, some, ltb, nat_beq, nat_eq, max, if◌then◌else◌,
}
use event_stream_broker.Failure.{Result, ok, err, invalid}
use event_stream_broker.Failure.Method.{Method}
use event_stream_broker.Dict.{Dict, get}

pub record CommitIndex : Type 0 where
  pub current_term : ℕ
  pub entry_terms : Dict ℕ ℕ
  pub voters : ℕ
  pub commit_index : ℕ

unfoldable pub majority : CommitIndex → ℕ
majority c = c.voters / 2 + 1

-- The checks of try_advance after the look-up of the entry's term, in the source's order.
unfoldable pub advance_at : ℕ → ℕ → Option ℕ → Method CommitIndex (Unit {0})
unfolding majority
advance_at index replica_count none c = (err invalid, c)
advance_at index replica_count (some entry_term) c =
    if ltb replica_count (majority c)
    then (err invalid, c)
    else if ltb entry_term c.current_term
    then (err invalid, c)
    else (ok tt, record c { commit_index = max c.commit_index index })

unfoldable pub try_advance : ℕ → ℕ → Method CommitIndex (Unit {0})
unfolding advance_at
try_advance index replica_count c = advance_at index replica_count (get index c.entry_terms) c

-- `self.entry_terms.get(index) == self.current_term`
unfoldable pub is_current : Option ℕ → ℕ → Bool
is_current none term = false
is_current (some entry_term) term = nat_beq entry_term term

unfoldable pub commit_prior_via_current : ℕ → ℕ → Method CommitIndex (Unit {0})
unfolding is_current
commit_prior_via_current prior_index current_index c =
    if not (is_current (get current_index c.entry_terms) c.current_term)
    then (err invalid, c)
    else if ltb current_index prior_index
    then (err invalid, c)
    else (ok tt, record c { commit_index = max c.commit_index current_index })
