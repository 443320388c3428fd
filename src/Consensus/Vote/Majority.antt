-- ===== src/Consensus/Vote/Majority.antt =====
-- Who wins has a log that ends no earlier than that of one voter in any majority.
use event_stream_broker.Prelude.{
  ◌==◌, ==_iff, ℕ, ◌+◌, ◌*◌, ◌/◌, ◌≤◌, ◌<◌, ◌≡◌, refl, sym, ◌∙◌, ◌⊎◌, inl, inr, true, false, List,
  [], ◌∷◌, ◌++◌, String, string_eq, arith, if◌then◌else◌, Bool-cases, length, length-append, All,
  All-append,
}
use event_stream_broker.Prelude.Sets.{
  mem, mem-All, Distinct, Within, Distinct-append, length-Within, meet,
}
use event_stream_broker.Dict.{put}
use event_stream_broker.Consensus.Vote.{
  LogEnd, at_least_as_current_as, Election, majority, add, has_voted, request_vote, won,
}

apart_from :
    (v : String) (xs : List String) → mem v xs ≡ false → All (λ x. mem x (v ∷ []) ≡ false) xs
unfolding mem
apart_from v [] h = tt
apart_from v (x ∷ xs) h = elim (Bool-cases (x == v)) [
  | inl same ↦ absurd (cc (rw same at h))
  | inr other ↦ (alone (Bool-cases (v == x)) other, apart_from v xs (rw other at h))
]
  where
    alone :
        ((v == x) ≡ true) ⊎ ((v == x) ≡ false)
        → (x == v) ≡ false
        → (if v == x then true else false) ≡ false
    alone (inl same) other = absurd (cc ((==_iff x v).1 (sym ((==_iff v x).0 same)), other))
    alone (inr apart) other = rw apart refl

module _ (candidate : LogEnd) (log_of : String → LogEnd) where
  -- The election after the voters have been asked, each with its own log.
  unfoldable pub ask_all : List String → Election → Election
  ask_all [] e = e
  ask_all (v ∷ vs) e = ask_all vs (request_vote v candidate (log_of v) e).1

  -- Each vote is of a voter, and for a log that is at least as current as the voter's own.
  pub record IsElection (vs : List String) (e : Election) : Type 0 where
    pub once : Distinct e.granted
    pub voting : Within e.granted vs
    pub covered : All (λ v. at_least_as_current_as candidate (log_of v) ≡ true) e.granted

  grant :
      (vs : List String) (v : String) (e : Election)
      → mem v vs ≡ true
      → at_least_as_current_as candidate (log_of v) ≡ true
      → IsElection vs e
      → IsElection vs
          (record e { voted_terms = put v e.term e.voted_terms; granted = add v e.granted })
  unfolding add mem
  grant vs v e voter fit h = elim (Bool-cases (mem v e.granted)) [
    | inl old ↦ rw old (record { once = h.once; voting = h.voting; covered = h.covered })
    | inr new ↦ rw new (record {
      once = Distinct-append e.granted (v ∷ []) h.once (refl, tt) (apart_from v e.granted new);
      voting = All-append (λ x. mem x vs ≡ true) e.granted (v ∷ []) h.voting (voter, tt);
      covered =
          All-append (λ x. at_least_as_current_as candidate (log_of x) ≡ true) e.granted (v ∷ [])
            h.covered (fit, tt);
    })
  ]

  request_vote-IsElection :
      (vs : List String) (v : String) (e : Election)
      → mem v vs ≡ true
      → IsElection vs e
      → IsElection vs (request_vote v candidate (log_of v) e).1
  unfolding request_vote
  request_vote-IsElection vs v e voter h = elim (Bool-cases (has_voted v e)) [
    | inl twice ↦ rw twice h
    | inr first_ ↦ elim (Bool-cases (at_least_as_current_as candidate (log_of v))) [
      | inl fit ↦ rw (first_, fit) (grant vs v e voter fit h)
      | inr behind ↦
          rw (first_, behind) (record { once = h.once; voting = h.voting; covered = h.covered })
    ]
  ]

  ask_all-IsElection :
      (vs asked : List String) (e : Election)
      → Within asked vs
      → IsElection vs e
      → IsElection vs (ask_all asked e)
  unfolding ask_all
  ask_all-IsElection vs [] e k h = h
  ask_all-IsElection vs (v ∷ asked) e k h =
      ask_all-IsElection vs asked (request_vote v candidate (log_of v) e).1 k.1
        (request_vote-IsElection vs v e k.0 h)

  request_vote-voters :
      (v : String) (e : Election) → (request_vote v candidate (log_of v) e).1.voters ≡ e.voters
  unfolding request_vote
  request_vote-voters v e = ground arith

  ask_all-voters : (asked : List String) (e : Election) → (ask_all asked e).voters ≡ e.voters
  unfolding ask_all
  ask_all-voters [] e = refl
  ask_all-voters (v ∷ asked) e =
      ask_all-voters asked (request_vote v candidate (log_of v) e).1 ∙ request_vote-voters v e

  -- Ask any of the voters for their votes, in any order and as often as one likes. If the
  -- candidate wins, then in every majority of the voters there is one whose log ends no later
  -- than the candidate's: its last term is lower, or the same with a length that is no greater.
  pub won-covers :
      (term : ℕ) (vs asked qs : List String)
      → Within asked vs
      → Distinct qs
      → Within qs vs
      → length vs < length qs * 2
      → let start : Election = record {
        term = term;
        voters = length vs;
        granted = [];
        voted_terms = [];
      } in
        won (ask_all asked start) ≡ true
        → (v : String) × (mem v qs ≡ true) × (at_least_as_current_as candidate (log_of v) ≡ true)
  unfolding won majority
  won-covers term vs asked qs voting once voters most victory =
      let start : Election = record {
        term = term;
        voters = length vs;
        granted = [];
        voted_terms = [];
      } in
      let e = ask_all asked start in
      let h =
        ask_all-IsElection vs asked start voting
          (record { once = tt; voting = tt; covered = tt }) in
      let enough : length vs / 2 + 1 ≤ length e.granted =
        ground (arith, victory, ask_all-voters asked start) in
      elim (meet e.granted qs) [
        | inl (v, here_, there) ↦ (
          v,
          there,
          mem-All (λ x. at_least_as_current_as candidate (log_of x) ≡ true) v e.granted here_
              h.covered,
        )
        | inr apart ↦
            let all = e.granted ++ qs in
            let small =
              length-Within all vs (Distinct-append e.granted qs h.once once apart)
                (All-append (λ x. mem x vs ≡ true) e.granted qs h.voting voters) in
            absurd (omega (arith, small, length-append e.granted qs, enough, most))
      ]
