-- ===== src/Log/Retention.antt =====
-- relay/retention.py: what the retention run drops, by age and by size, and never above the
-- committed floor.
pub mod Floor
use event_stream_broker.Prelude.{
  ℕ, ◌+◌, ◌-◌, Bool, true, false, not, ◌&&◌, ◌||◌, Option, none, some, List, [], ◌∷◌, ltb,
  if◌then◌else◌, nat_eq,
}
use event_stream_broker.Failure.{Result, ok, err, invalid, fail_if, ◌>>◌}
use event_stream_broker.Dict.{Dict, get}
use event_stream_broker.Log.Segment
use event_stream_broker.Log.Segment.{Segment}
use event_stream_broker.Log.SegmentLog.{SegmentLog}

pub record RetentionPolicy : Type 0 where
  pub max_age_ticks : Option ℕ
  pub max_bytes : Option ℕ

abbrev is_none : Option ℕ → Bool
is_none none = true
is_none (some n) = false

abbrev is_zero : Option ℕ → Bool
is_zero none = false
is_zero (some n) = ltb n 1

-- `RetentionPolicy(max_age_ticks, max_bytes)`, with its `__post_init__`
unfoldable pub make_policy : Option ℕ → Option ℕ → Result RetentionPolicy
make_policy age bytes = do
  fail_if (is_none age && is_none bytes) invalid
  fail_if (is_zero age) invalid
  fail_if (is_zero bytes) invalid
  ok (record { max_age_ticks = age; max_bytes = bytes })

pub record RetentionRun : Type 0 where
  pub policy : RetentionPolicy
  pub reclaimed_segments : ℕ
  pub reclaimed_bytes : ℕ

-- Why the loop stopped, as the report says it.
pub data Spared : Type 0 where
  still_active above_floor within_limits : Spared

-- `now - last > limit`: a tick after `now` gives no age.
abbrev older : ℕ → ℕ → Option ℕ → Bool
older last now none = false
older last now (some limit) = ltb limit (now - last)

unfoldable pub age_condemns : RetentionPolicy → ℕ → ℕ → Bool
age_condemns policy last now = older last now policy.max_age_ticks

abbrev over : ℕ → Option ℕ → Bool
over total none = false
over total (some limit) = ltb limit total

unfoldable pub chain_bytes : List Segment → ℕ
chain_bytes [] = 0
chain_bytes (s ∷ rest) = Segment.size_bytes s + chain_bytes rest

abbrev or_now : Option ℕ → ℕ → ℕ
or_now none now = now
or_now (some t) now = t

-- Whether the oldest of the given segments is too old, or the segments too large together.
unfoldable pub condemned : RetentionPolicy → Dict ℕ ℕ → ℕ → Segment → List Segment → Bool
unfolding age_condemns chain_bytes
condemned policy last_tick now oldest segments =
    age_condemns policy (or_now (get oldest.base_offset last_tick) now) now
    || over (chain_bytes segments) policy.max_bytes

abbrev reclaim : Segment → RetentionRun → RetentionRun
reclaim s run = record run {
  reclaimed_segments = run.reclaimed_segments + 1;
  reclaimed_bytes = run.reclaimed_bytes + Segment.size_bytes s;
}

-- The loop over the chain, with the reason for which it stopped.
unfoldable pub retain :
    Dict ℕ ℕ → ℕ → ℕ → List Segment → RetentionRun → Option Spared × RetentionRun × List Segment
retain last_tick now floor [] run = (none, run, [])
retain last_tick now floor (s ∷ []) run = (none, run, s ∷ [])
retain last_tick now floor (s ∷ t ∷ rest) run =
    let more = retain last_tick now floor (t ∷ rest) (reclaim s run) in
    if not s.sealed
    then (some still_active, run, s ∷ t ∷ rest)
    else if ltb floor (Segment.next_offset s)
    then (some above_floor, run, s ∷ t ∷ rest)
    else if not (condemned run.policy last_tick now s (s ∷ t ∷ rest))
    then (some within_limits, run, s ∷ t ∷ rest)
    else more

unfoldable pub apply :
    SegmentLog → Dict ℕ ℕ → ℕ → ℕ → RetentionRun → Option Spared × RetentionRun × SegmentLog
unfolding retain
apply log last_tick now floor run =
    let (why, run', segments) = retain last_tick now floor log.segments run in
    (why, run', record log { segments = segments })
