-- ===== src/Log/Partition.antt =====
-- relay/partition.py: a partition is a log with a watermark, and consumers stay below it.
pub mod Watermark
pub mod Stability
use event_stream_broker.Prelude.{ℕ, ◌-◌, ltb, leb}
use event_stream_broker.Prelude.Int.{ℤ, sub_ℕ}
use event_stream_broker.Failure.{Result, ok, missing, invalid, fail_if, ◌>>=◌, ◌>>◌}
use event_stream_broker.Failure.Method
use event_stream_broker.Failure.Method.{Method, raise_if, lift, modify}
use event_stream_broker.Log.Records.{Record}
use event_stream_broker.Log.SegmentLog
use event_stream_broker.Log.SegmentLog.{SegmentLog}

pub record Partition : Type 0 where
  pub number : ℕ
  pub log : SegmentLog
  pub high_watermark : ℕ

unfoldable pub append : Record → Method Partition ℕ
append r p = let (offset, log') = SegmentLog.append r p.log in (offset, record p { log = log' })

-- The checks of `advance_watermark`.
watermark_checks : ℕ → Partition → Result (Unit {0})
watermark_checks to_offset p = do
  fail_if (ltb to_offset p.high_watermark) invalid
  next ← SegmentLog.next_offset p.log
  fail_if (ltb next to_offset) invalid

unfoldable pub advance_watermark : ℕ → Method Partition (Unit {0})
unfolding watermark_checks
advance_watermark to_offset p =
    (Method.◌>>=◌ (lift (watermark_checks to_offset p))
        λ _. modify (λ (q : Partition). record q { high_watermark = to_offset }))
      p

unfoldable pub consume : ℕ → Partition → Result Record
consume offset p = do fail_if (leb p.high_watermark offset) missing; SegmentLog.read offset p.log

-- The count that `honesty_interval` reports.
unfoldable pub uncommitted : Partition → Result ℤ
uncommitted p = do next ← SegmentLog.next_offset p.log; ok (sub_ℕ next p.high_watermark)

unfoldable pub lag_of : ℕ → Partition → Result ℕ
lag_of committed_offset p = do
  fail_if (ltb p.high_watermark committed_offset) invalid
  ok (p.high_watermark - committed_offset)
