-- ===== src/Consensus/Tests.antt =====
-- The consensus modules at concrete inputs.
use event_stream_broker.Prelude.{
  ◌≤◌, some, ◌≡◌, refl, [], ◌∷◌, arith, nat_eq, if◌then◌else◌, ℕ, true, List, String, string_eq,
  sym, ◌∙◌, none, ◌⊎◌, All, zero, suc,
}
use event_stream_broker.Failure.{ok, err, invalid, fenced}
use event_stream_broker.Dict.{get, put, Dict}
use event_stream_broker.Prelude.Sets.{mem, Distinct, Within}
use event_stream_broker.Consensus.Vote.{LogEnd, Election, at_least_as_current_as, request_vote, won}
use event_stream_broker.Consensus.Vote.Majority.{ask_all, won-covers}
use event_stream_broker.Consensus.CommitIndex.{CommitIndex, try_advance, commit_prior_via_current}
use event_stream_broker.Consensus.CommitIndex.Terms.{
  here, next, advances, carries, Committed, Reach-Committed,
}
use event_stream_broker.Consensus.Membership.{Membership, change_to}
use event_stream_broker.Consensus.Membership.Overlap.{IsMajority, change_to-overlap}
use mathlib.Core.Option.{some-injective}
use event_stream_broker.Consensus.LogMatching.{FollowerLog, append, is_term, up_to, update}
use event_stream_broker.Consensus.LogMatching.Agreement.{LogMatching, Matches, Sent, append-Matches}

-- Entries 1 and 2 of an earlier term, entry 3 of the current one.
abbrev leader : CommitIndex
leader = record {
  current_term = 4;
  entry_terms = (1, 2) ∷ (2, 2) ∷ (3, 4) ∷ [];
  voters = 5;
  commit_index = 0;
}

-- The figure-8 commit is refused, the current entry carries it.
prior_refused : try_advance 2 3 leader ≡ (err invalid, leader)
unfolding try_advance get
prior_refused = refl

Reach-Committed_example :
    Committed leader (commit_prior_via_current 2 3 (try_advance 2 3 leader).1).1
Reach-Committed_example =
    Reach-Committed
      (next (next (here leader) (advances 2 3 leader)) (carries 2 3 (try_advance 2 3 leader).1))

abbrev three : Membership
three = record { voters = "a" ∷ "b" ∷ "c" ∷ [] }

-- Two new voters at once are refused, one is taken.
change_refused : change_to ("a" ∷ "b" ∷ "c" ∷ "d" ∷ "e" ∷ []) three ≡ (err invalid, three)
unfolding change_to mem
change_refused = refl

change_taken :
    change_to ("a" ∷ "b" ∷ "c" ∷ "d" ∷ []) three
    ≡ (ok tt, record { voters = "a" ∷ "b" ∷ "c" ∷ "d" ∷ [] })
unfolding change_to mem
change_taken = refl

old-IsMajority : IsMajority ("a" ∷ "b" ∷ []) three.voters
unfolding mem
old-IsMajority = record {
  distinct = (refl, (refl, tt));
  within = (refl, (refl, tt));
  enough = omega arith;
}

new-IsMajority :
    IsMajority ("b" ∷ "c" ∷ "d" ∷ []) (change_to ("a" ∷ "b" ∷ "c" ∷ "d" ∷ []) three).1.voters
unfolding mem change_to
new-IsMajority = record {
  distinct = (refl, (refl, (refl, tt)));
  within = (refl, (refl, (refl, tt)));
  enough = omega arith;
}

change_to-overlap_example :
    (x : String) × (mem x ("a" ∷ "b" ∷ []) ≡ true) × (mem x ("b" ∷ "c" ∷ "d" ∷ []) ≡ true)
change_to-overlap_example =
    change_to-overlap ("a" ∷ "b" ∷ "c" ∷ "d" ∷ []) three ("a" ∷ "b" ∷ []) ("b" ∷ "c" ∷ "d" ∷ [])
      old-IsMajority new-IsMajority

abbrev follower : FollowerLog
follower = record { entries = (1, 1) ∷ (2, 1) ∷ (3, 2) ∷ [] }

abbrev leader_log : Dict ℕ ℕ
leader_log = (1, 1) ∷ (2, 1) ∷ (3, 3) ∷ (4, 3) ∷ []

abbrev batch : Dict ℕ ℕ
batch = (3, 3) ∷ (4, 3) ∷ []

append_runs : append 2 1 batch follower ≡ (ok tt, record { entries = leader_log })
unfolding append get is_term up_to update put
append_runs = refl

past_end : (i : ℕ) → 4 ≤ i → get i follower.entries ≡ none
unfolding get
past_end i high = ground (arith, high)

agree_low : (j : ℕ) → j ≤ 2 → get j follower.entries ≡ get j leader_log
unfolding get
agree_low zero low = refl
agree_low (suc zero) low = refl
agree_low (suc (suc zero)) low = refl
agree_low (suc (suc (suc j))) low = absurd (omega (arith, low))

-- The two logs agree up to index 2 and part at index 3.
follower-LogMatching : LogMatching follower.entries leader_log
unfolding get
follower-LogMatching zero t mine theirs j low = cc
follower-LogMatching (suc zero) t mine theirs j low = agree_low j (omega (arith, low))
follower-LogMatching (suc (suc zero)) t mine theirs j low = agree_low j low
follower-LogMatching (suc (suc (suc zero))) t mine theirs j low =
    absurd (omega (arith, some-injective 2 3 (mine ∙ sym theirs)))
follower-LogMatching (suc (suc (suc (suc i)))) t mine theirs j low =
    let absent = past_end (suc (suc (suc (suc i)))) (omega arith) in absurd (cc (sym absent ∙ mine))

bottom_empty : get 0 follower.entries ≡ none
unfolding get
bottom_empty = refl

second_sent : get 2 leader_log ≡ some 1
unfolding get
second_sent = refl

batch-Sent : Sent leader_log batch
unfolding get
batch-Sent = (refl, (refl, tt))

append-Matches_example :
    let (result, f') = append 2 1 batch follower in
    ((result ≡ err invalid) × (f' ≡ follower))
    ⊎ ((result ≡ ok tt)
        × Matches f'.entries leader_log
        × All (λ (e : ℕ × ℕ). get e.0 f'.entries ≡ some e.1) batch)
append-Matches_example =
    append-Matches 2 1 batch leader_log follower follower-LogMatching bottom_empty
      (λ _. second_sent) batch-Sent

abbrev ahead : LogEnd
ahead = record { last_term = 3; end_ = 7 }

-- Node c is a term ahead of the candidate.
abbrev ends : String → LogEnd
ends v =
    if mem v ("c" ∷ [])
    then record { last_term = 4; end_ = 1 }
    else record { last_term = 3; end_ = 5 }

abbrev trio : List String
trio = "a" ∷ "b" ∷ "c" ∷ []

abbrev pair : List String
pair = "b" ∷ "c" ∷ []

trio_asked : Within trio trio × Within pair trio × Distinct pair
unfolding mem
trio_asked = ((refl, (refl, (refl, tt))), (refl, (refl, tt)), (refl, (refl, tt)))

two_of_three :
    won (ask_all ahead ends trio (record { term = 4; voters = 3; granted = []; voted_terms = [] }))
    ≡ true
unfolding won ask_all request_vote mem get put
two_of_three = refl

won-covers_example :
    (v : String) × (mem v pair ≡ true) × (at_least_as_current_as ahead (ends v) ≡ true)
won-covers_example =
    won-covers ahead ends 4 trio trio pair trio_asked.0 trio_asked.2 trio_asked.1 (omega arith)
      two_of_three

second_vote :
    let e : Election = record { term = 4; voters = 3; granted = []; voted_terms = ("a", 4) ∷ [] } in
    (request_vote "a" ahead ahead e).0 ≡ err fenced
unfolding request_vote get
second_vote = refl
