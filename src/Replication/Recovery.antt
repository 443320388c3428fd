-- ===== src/Replication/Recovery.antt =====
-- relay/recovery.py: how a restarted broker cuts its log to its leader's before it serves.
pub mod Markers
pub mod Divergence
use event_stream_broker.Prelude.{
  ℕ, ◌-◌, Bool, true, false, not, ◌&&◌, Option, none, some, List, [], ◌∷◌, ltb, nat_beq, nat_eq,
  min, if◌then◌else◌,
}
use event_stream_broker.Prelude.Sorting.{sorted}
use event_stream_broker.Dict.{Dict, get, put}

pub record EpochMarker : Type 0 where
  pub epoch : ℕ
  pub start_offset : ℕ

-- `truncated_to` is `none` where it is -1 there: before a recovery.
pub record RecoveryPlan : Type 0 where
  pub local_end : ℕ
  pub local_epochs : List EpochMarker
  pub truncated_to : Option ℕ
  pub discarded : ℕ
  pub index_rebuilt : Bool

unfoldable pub new_plan : ℕ → List EpochMarker → RecoveryPlan
new_plan local_end local_epochs = record {
  local_end = local_end;
  local_epochs = local_epochs;
  truncated_to = none;
  discarded = 0;
  index_rebuilt = false;
}

-- `sorted(markers, key=lambda m: m.epoch)`
abbrev pub by_epoch : List EpochMarker → List EpochMarker
by_epoch = sorted (λ (m n : EpochMarker). ltb m.epoch n.epoch)

-- The dictionary of the leader's starts, after the markers so far.
unfoldable pub leader_by_epoch : Dict ℕ ℕ → List EpochMarker → Dict ℕ ℕ
leader_by_epoch d [] = d
leader_by_epoch d (m ∷ ms) = leader_by_epoch (put m.epoch m.start_offset d) ms

-- The start of the marker that comes next, or the local end.
unfoldable pub next_or_end : List EpochMarker → ℕ → ℕ
next_or_end [] local_end = local_end
next_or_end (m ∷ ms) local_end = m.start_offset

unfoldable pub epoch_end : ℕ → List EpochMarker → ℕ → ℕ
unfolding next_or_end
epoch_end epoch [] local_end = 0
epoch_end epoch (m ∷ ms) local_end =
    if nat_beq m.epoch epoch then next_or_end ms local_end else epoch_end epoch ms local_end

-- Whether the leader has this epoch with this start.
unfoldable pub agrees : Option ℕ → ℕ → Bool
agrees none start = false
agrees (some leader_start) start = nat_beq leader_start start

-- The loop of diverge_point over the local markers.
unfoldable pub walk : Dict ℕ ℕ → List EpochMarker → ℕ → List EpochMarker → ℕ → ℕ
unfolding agrees epoch_end
walk starts ordered local_end [] agree_offset = agree_offset
walk starts ordered local_end (m ∷ ms) agree_offset =
    if not (agrees (get m.epoch starts) m.start_offset)
    then agree_offset
    else walk starts ordered local_end ms (epoch_end m.epoch ordered local_end)

unfoldable pub diverge_point : List EpochMarker → RecoveryPlan → ℕ
unfolding walk leader_by_epoch
diverge_point leader_epochs p =
    walk (leader_by_epoch [] leader_epochs) (by_epoch leader_epochs) p.local_end
      (by_epoch p.local_epochs) 0

unfoldable pub recover : List EpochMarker → ℕ → RecoveryPlan → RecoveryPlan
unfolding diverge_point
recover leader_epochs leader_end p =
    let safe = min (min (diverge_point leader_epochs p) leader_end) p.local_end in
    record p { truncated_to = some safe; discarded = p.local_end - safe; index_rebuilt = true }

-- `truncated_to >= 0`
unfoldable pub is_set : Option ℕ → Bool
is_set none = false
is_set (some n) = true

unfoldable pub may_serve : RecoveryPlan → Bool
unfolding is_set
may_serve p = is_set p.truncated_to && p.index_rebuilt
