-- ===== src/Groups/ConsumerGroup.antt =====
-- relay/consumergroup.py: committed positions under a delivery contract, and the registry of groups.
pub mod Commits
use event_stream_broker.Prelude.{
  ℕ, ◌+◌, ◌-◌, Bool, true, false, not, ◌||◌, Option, none, some, List, [], ◌∷◌, ◌++◌, String, ltb,
  min, nat_eq, string_eq, ◌==◌, if◌then◌else◌,
}
use event_stream_broker.Failure.{Result, ok, err, missing, invalid, or_fail, fail_if, ◌>>◌}
use event_stream_broker.Failure.Method
use event_stream_broker.Failure.Method.{Method, lift, modify}
use event_stream_broker.Dict.{Dict, get, put, contains}
use event_stream_broker.Log.Partition
use event_stream_broker.Log.Partition.{Partition}

-- A line of the skip log: `skipped` records between `held` and `offset - 1`.
pub record Skip : Type 0 where
  pub partition : ℕ
  pub skipped : ℕ
  pub held : ℕ
  pub offset : ℕ

pub record ConsumerGroup : Type 0 where
  pub name : String
  pub contract : String
  pub committed : Dict ℕ ℕ
  pub skips_logged : List Skip

is_contract : String → Bool
is_contract c = (c == "at-least-once") || (c == "at-most-once")

-- `ConsumerGroup(name, contract)`, with its `__post_init__`
unfoldable pub make_group : String → String → Result ConsumerGroup
unfolding is_contract
make_group name contract = do
  fail_if (not (is_contract contract)) invalid
  ok (record { name = name; contract = contract; committed = []; skips_logged = [] })

abbrev or_zero : Option ℕ → ℕ
or_zero none = 0
or_zero (some n) = n

unfoldable pub position : ℕ → ConsumerGroup → ℕ
position number g = or_zero (get number g.committed)

-- The line that a commit logs if it jumps over records.
logged : ℕ → ℕ → ℕ → List Skip
logged number held offset =
    let jumped = offset - held in
    if ltb 1 jumped
    then record { partition = number; skipped = jumped - 1; held = held; offset = offset } ∷ []
    else []

commit_checks : Partition → ℕ → ℕ → Result (Unit {0})
commit_checks p offset held = do
  fail_if (ltb offset held) invalid
  fail_if (ltb p.high_watermark offset) invalid

unfoldable pub commit : Partition → ℕ → Method ConsumerGroup (Unit {0})
unfolding commit_checks logged
commit p offset g =
    let held = position p.number g in
    (Method.◌>>=◌ (lift (commit_checks p offset held)) λ _. modify λ (h : ConsumerGroup). record h {
      committed = put p.number offset h.committed;
      skips_logged = h.skips_logged ++ logged p.number held offset;
    })
      g

unfoldable pub lag : Partition → ConsumerGroup → Result ℕ
lag p g = Partition.lag_of (min (position p.number g) p.high_watermark) p

abbrev pub GroupRegistry : Type 0
GroupRegistry = Dict String ConsumerGroup

unfoldable pub register : String → String → Method GroupRegistry ConsumerGroup
register name contract groups =
    if contains name groups then (err invalid, groups) else elim (make_group name contract) [
      | ok group ↦ (ok group, put name group groups)
      | err e ↦ (err e, groups)
    ]

unfoldable pub get_group : String → GroupRegistry → Result ConsumerGroup
get_group name groups = or_fail (get name groups) missing
