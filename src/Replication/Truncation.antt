-- ===== src/Replication/Truncation.antt =====
-- relay/logtruncation.py and relay/epochfetch.py: how far a follower cuts its log back, and the
-- guard that lets it append again.
pub mod Floor
use event_stream_broker.Prelude.{
  ℕ, ◌-◌, Bool, true, false, not, ◌||◌, Option, none, some, ltb, leb, nat_beq, if◌then◌else◌,
}
use event_stream_broker.Failure.{Result, ok, err, invalid, fail_if, ◌>>◌}
use event_stream_broker.Failure.Method.{Method}

pub record LogTruncation : Type 0 where
  pub log_start : ℕ
  pub high_watermark : ℕ
  pub log_end : ℕ

unfoldable pub make_truncation : ℕ → ℕ → ℕ → Result LogTruncation
make_truncation start high end = do
  fail_if (ltb high start || ltb end high) invalid
  ok (record { log_start = start; high_watermark = high; log_end = end })

-- The number of records dropped.
unfoldable pub truncate_to : ℕ → Method LogTruncation ℕ
truncate_to target t =
    if ltb target t.high_watermark
    then (err invalid, t)
    else if ltb target t.log_start
    then (err invalid, t)
    else if leb t.log_end target
    then (ok 0, t)
    else (ok (t.log_end - target), record t { log_end = target })

unfoldable pub uncommitted_tail : LogTruncation → ℕ
uncommitted_tail t = t.log_end - t.high_watermark

-- relay/epochfetch.py: the offset up to which the follower's log is the leader's.
unfoldable pub truncation_point : ℕ → ℕ → ℕ
truncation_point follower_end leader_epoch_end =
    if leb follower_end leader_epoch_end then follower_end else leader_epoch_end

-- The offset past which the log diverges, while it does.
pub record DivergenceGuard : Type 0 where
  pub diverged_past : Option ℕ

unfoldable pub require_truncation : ℕ → ℕ → Method DivergenceGuard (Unit {0})
require_truncation follower_end leader_epoch_end g =
    if ltb leader_epoch_end follower_end
    then (err invalid, record { diverged_past = some leader_epoch_end })
    else (ok tt, g)

unfoldable pub resolve_at : ℕ → Option ℕ → Method DivergenceGuard (Unit {0})
resolve_at truncated_to none g = (ok tt, g)
resolve_at truncated_to (some past) g =
    if not (nat_beq truncated_to past)
    then (err invalid, g)
    else (ok tt, record { diverged_past = none })

unfoldable pub resolve : ℕ → Method DivergenceGuard (Unit {0})
unfolding resolve_at
resolve truncated_to g = resolve_at truncated_to g.diverged_past g
