-- ===== src/Replication/Truncation/Floor.antt =====
-- A truncation stays at or above the high watermark, and a diverged follower appends only after it.
use event_stream_broker.Prelude.{
  ℕ, ◌-◌, ◌≤◌, ◌<◌, ◌≡◌, refl, ◌⊎◌, inl, inr, true, false, none, arith, ltb, leb, nat_beq, min,
  Bool-cases, if◌then◌else◌,
}
use event_stream_broker.Failure.{ok, err, invalid}
use event_stream_broker.Replication.Truncation.{
  LogTruncation, truncate_to, truncation_point, DivergenceGuard, require_truncation, resolve,
  resolve_at,
}

-- start <= high watermark <= end
abbrev pub IsOrdered : LogTruncation → Type 0
IsOrdered t = (t.log_start ≤ t.high_watermark) × (t.high_watermark ≤ t.log_end)

-- Where log start, watermark and end are in order, a target below the watermark is refused and
-- changes nothing. Any other target is taken: the log ends at it, or where it ended before if that is
-- earlier, the count is what was dropped, and the three stay in order.
pub truncate_to_lem :
    (target : ℕ) (t : LogTruncation)
    → IsOrdered t
    → let t' : LogTruncation = record t { log_end = min t.log_end target } in
      (truncate_to target t ≡ (
        if ltb target t.high_watermark
        then (err invalid, t)
        else (ok (t.log_end - min t.log_end target), t')))
      × IsOrdered (truncate_to target t).1
unfolding truncate_to
truncate_to_lem target t h = (ground (arith, h), ground (arith, h))

-- A follower whose log ends within the leader's epoch may append and has nothing to cut. Any other is
-- refused until it is cut to the truncation point and to no other offset, and it then may append.
pub guard-truncation_point :
    (follower_end leader_end to : ℕ) (g : DivergenceGuard)
    → let (result, g') = require_truncation follower_end leader_end g in
      let point = truncation_point follower_end leader_end in
      (follower_end ≤ leader_end) × (result ≡ ok tt) × (g' ≡ g) × (point ≡ follower_end)
      ⊎ (leader_end < follower_end)
        × (result ≡ err invalid)
        × (point ≡ leader_end)
        × (resolve to g' ≡ (
            if nat_beq to point
            then (ok tt, record { diverged_past = none })
            else (err invalid, g')))
        × (require_truncation point leader_end g' ≡ (ok tt, g'))
unfolding require_truncation truncation_point resolve resolve_at
guard-truncation_point follower_end leader_end to g =
    elim (Bool-cases (ltb leader_end follower_end)) [
      | inl past ↦ inr (
          let far : leb follower_end leader_end ≡ false = ground (arith, past) in
          rw (past, far) (ground (arith, past), refl, refl, ground arith, ground arith))
      | inr within ↦ inl (
          let close : leb follower_end leader_end ≡ true = ground (arith, within) in
          rw (within, close) (ground (arith, within), refl, refl, refl))
    ]
