-- ===== src/Replication/Election.antt =====
-- relay/election.py: who leads a partition after its leader died, and the epoch that fences the old
-- one.
pub mod Safety
pub mod Fencing
use event_stream_broker.Prelude.{
  ℕ, suc, ◌-◌, Bool, true, false, not, ◌&&◌, ◌||◌, List, [], ◌∷◌, String, str_ltb, ltb, leb,
  nat_beq, max, if◌then◌else◌, keep,
}
use event_stream_broker.Prelude.Sorting.{sorted, first}
use event_stream_broker.Failure.{Result, ok, err, invalid, fenced}
use event_stream_broker.Failure.Method.{Method}

pub record Candidate : Type 0 where
  pub name : String
  pub log_end_offset : ℕ
  pub in_sync : Bool

-- `discarded` is the number in the note of the result: the records beyond the new leader.
pub record ElectionResult : Type 0 where
  pub leader : String
  pub epoch : ℕ
  pub discarded : ℕ
  pub unclean : Bool

pub record PartitionElector : Type 0 where
  pub epoch : ℕ
  pub committed_offset : ℕ

-- The order of the key `(-log_end_offset, name)`.
unfoldable pub stands_before : Candidate → Candidate → Bool
stands_before a b =
    ltb b.log_end_offset a.log_end_offset
    || nat_beq a.log_end_offset b.log_end_offset && str_ltb a.name b.name

unfoldable pub is_eligible : ℕ → Candidate → Bool
is_eligible committed c = c.in_sync && leb committed c.log_end_offset

-- `max(c.log_end_offset for c in candidates)`
unfoldable pub max_end : List Candidate → ℕ
max_end [] = 0
max_end (c ∷ cs) = max c.log_end_offset (max_end cs)

-- The first of the eligible, sorted, takes a new epoch. `c` is any candidate and serves only to write
-- `[0]` of a list that has elements.
unfoldable pub crown :
    Candidate → List Candidate → Bool → ℕ → Method PartitionElector ElectionResult
crown c eligible unclean highest e =
    let winner = first c (sorted stands_before eligible) in
    (
      ok (record {
        leader = winner.name;
        epoch = suc e.epoch;
        discarded = highest - winner.log_end_offset;
        unclean = unclean;
      }),
      record e { epoch = suc e.epoch },
    )

-- The election once it is known who is eligible, which may be nobody.
unfoldable pub elect_from :
    List Candidate → Candidate → List Candidate → Bool → Method PartitionElector ElectionResult
elect_from (w ∷ ws) c cs allow_unclean e = crown c (w ∷ ws) false (max_end (c ∷ cs)) e
elect_from [] c cs allow_unclean e =
    if not allow_unclean
    then (err invalid, e)
    else crown c (sorted stands_before (c ∷ cs)) true (max_end (c ∷ cs)) e

unfoldable pub elect : List Candidate → Bool → Method PartitionElector ElectionResult
unfolding is_eligible elect_from crown
elect [] allow_unclean e = (err invalid, e)
elect (c ∷ cs) allow_unclean e =
    elect_from (keep (is_eligible e.committed_offset) (c ∷ cs)) c cs allow_unclean e

unfoldable pub accept_from : ℕ → Method PartitionElector (Unit {0})
accept_from epoch e = if ltb epoch e.epoch then (err fenced, e) else (ok tt, e)
