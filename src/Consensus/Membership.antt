-- ===== src/Consensus/Membership.antt =====
-- relay/membershipchange.py: one voter at a time.
pub mod Overlap
use event_stream_broker.Prelude.{
  ℕ, ◌+◌, ◌-◌, ◌/◌, Bool, true, false, not, List, [], ◌∷◌, String, ltb, nat_beq, string_eq, keep,
  length, if◌then◌else◌,
}
use event_stream_broker.Prelude.Sets.{mem}
use event_stream_broker.Failure.{Result, ok, err, invalid}
use event_stream_broker.Failure.Method.{Method}

-- A set of names, without repetitions.
pub record Membership : Type 0 where
  pub voters : List String

unfoldable pub make_membership : List String → Result Membership
make_membership [] = err invalid
make_membership (v ∷ vs) = ok (record { voters = v ∷ vs })

abbrev pub majority_of : List String → ℕ
majority_of vs = length vs / 2 + 1

unfoldable pub majority : Membership → ℕ
majority m = majority_of m.voters

-- The members of the one set that are not in the other.
abbrev pub minus : List String → List String → List String
minus vs ws = keep (λ v. not (mem v ws)) vs

-- `len(voters.symmetric_difference(proposed))`
unfoldable pub difference : List String → List String → ℕ
difference vs ws = length (minus vs ws) + length (minus ws vs)

unfoldable pub change_to : List String → Method Membership (Unit {0})
unfolding difference
change_to [] m = (err invalid, m)
change_to (w ∷ ws) m =
    if nat_beq (difference m.voters (w ∷ ws)) 0
    then (ok tt, m)
    else if ltb 1 (difference m.voters (w ∷ ws))
    then (err invalid, m)
    else (ok tt, record { voters = w ∷ ws })

unfoldable pub failures_tolerated : Membership → ℕ
unfolding majority
failures_tolerated m = length m.voters - majority m
