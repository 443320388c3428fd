-- ===== src/Consensus/LogMatching.antt =====
-- relay/logmatching.py: a follower appends only where its log agrees with the leader's.
pub mod Agreement
use event_stream_broker.Prelude.{
  ℕ, Bool, true, false, not, ◌&&◌, Option, none, some, List, [], ◌∷◌, ltb, leb, nat_beq, nat_eq,
  keep, if◌then◌else◌,
}
use event_stream_broker.Prelude.Sorting.{sorted}
use event_stream_broker.Failure.{Result, ok, err, invalid}
use event_stream_broker.Failure.Method.{Method}
use event_stream_broker.Dict.{Dict, get, put, keys}

-- The term of each index.
pub record FollowerLog : Type 0 where
  pub entries : Dict ℕ ℕ

-- `entries.get(index) == term`
unfoldable pub is_term : Option ℕ → ℕ → Bool
is_term none term = false
is_term (some have) term = nat_beq have term

-- `d.update(new)`
unfoldable pub update : Dict ℕ ℕ → Dict ℕ ℕ → Dict ℕ ℕ
update [] d = d
update ((i, t) ∷ new) d = update new (put i t d)

-- The entries up to an index.
unfoldable pub up_to : ℕ → Dict ℕ ℕ → Dict ℕ ℕ
up_to index d = keep (λ (e : ℕ × ℕ). leb e.0 index) d

unfoldable pub append : ℕ → ℕ → Dict ℕ ℕ → Method FollowerLog (Unit {0})
append prev_index prev_term new f =
    if ltb 0 prev_index && not (is_term (get prev_index f.entries) prev_term)
    then (err invalid, f)
    else (ok tt, record { entries = update new (up_to prev_index f.entries) })

-- The loop of agreement_point over the leader's indices in order, so that each has a term there.
-- `point` is the index before.
unfoldable pub agree_loop : Dict ℕ ℕ → Dict ℕ ℕ → List ℕ → ℕ → ℕ
unfolding is_term
agree_loop entries leader [] point = point
agree_loop entries leader (i ∷ is) point =
    let rest = agree_loop entries leader is i in
    elim (get i leader) [
      | none ↦ point
      | some t ↦ if is_term (get i entries) t then rest else point
    ]

unfoldable pub agreement_point : Dict ℕ ℕ → FollowerLog → ℕ
unfolding agree_loop
agreement_point leader f = agree_loop f.entries leader (sorted ltb (keys leader)) 0
