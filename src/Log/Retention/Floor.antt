-- ===== src/Log/Retention/Floor.antt =====
-- What a retention run may and may not remove.
use event_stream_broker.Prelude.{
  ℕ, ◌+◌, ◌≤◌, ◌<◌, ◌≡◌, refl, sym, ◌∙◌, inl, inr, true, false, Option, none, some, List, [], ◌∷◌,
  arith, ltb, if◌then◌else◌, length, length-append, drop, drop-append, Bool-cases, max,
}
use event_stream_broker.Dict.{Dict}
use event_stream_broker.Log.Segment
use event_stream_broker.Log.Segment.{Segment}
use event_stream_broker.Log.SegmentLog.{SegmentLog}
use event_stream_broker.Log.SegmentLog.Chain.{IsChain, entries, start}
use event_stream_broker.Log.SegmentLog.View.{view, IsLog, view_drop, View-eq}
use event_stream_broker.Log.Retention.{
  RetentionPolicy, RetentionRun, Spared, still_active, above_floor, within_limits, condemned,
  chain_bytes, reclaim, retain, apply,
}

-- Why the oldest segment that is left was spared.
abbrev pub Justified : Dict ℕ ℕ → ℕ → ℕ → RetentionPolicy → Option Spared → List Segment → Type 0
Justified last_tick now floor policy none segments = length segments ≡ 1
Justified last_tick now floor policy (some why) [] = ⊥
Justified last_tick now floor policy (some still_active) (s ∷ rest) = s.sealed ≡ false
Justified last_tick now floor policy (some above_floor) (s ∷ rest) = floor < Segment.next_offset s
Justified last_tick now floor policy (some within_limits) (s ∷ rest) =
    condemned policy last_tick now s (s ∷ rest) ≡ false

-- How a chain is shortened, oldest segment first: each that goes is sealed, ends at or below the floor,
-- is condemned by its age or by the size of the chain that is left with it, and is not the last.
pub data Reclaims (last_tick : Dict ℕ ℕ) (now floor : ℕ) (policy : RetentionPolicy)
    : List Segment → List Segment → Type 0 where
  stays : (segments : List Segment) → Reclaims last_tick now floor policy segments segments
  goes :
      (s t : Segment) (rest left_ : List Segment)
      → s.sealed ≡ true
      → Segment.next_offset s ≤ floor
      → condemned policy last_tick now s (s ∷ t ∷ rest) ≡ true
      → Reclaims last_tick now floor policy (t ∷ rest) left_
      → Reclaims last_tick now floor policy (s ∷ t ∷ rest) left_

module _ (last_tick : Dict ℕ ℕ) (now floor : ℕ) where
  abbrev Retained :
      List Segment → RetentionRun → Option Spared → RetentionRun → List Segment → Type 0
  Retained segments run why run' segments' =
      (n : ℕ) × (n ≤ length (entries segments))
      × IsChain segments'
      × (start segments' ≡ start segments + n)
      × (entries segments' ≡ drop n (entries segments))
      × (start segments' ≤ max (start segments) floor)
      × Reclaims last_tick now floor run.policy segments segments'
      × Justified last_tick now floor run.policy why segments'
      × (run'.policy ≡ run.policy)
      × (run'.reclaimed_bytes + chain_bytes segments' ≡ run.reclaimed_bytes + chain_bytes segments)
      × (run'.reclaimed_segments + length segments' ≡ run.reclaimed_segments + length segments)

  spared :
      (s : Segment) (rest : List Segment) (run : RetentionRun) (why : Option Spared)
      → IsChain (s ∷ rest)
      → Justified last_tick now floor run.policy why (s ∷ rest)
      → Retained (s ∷ rest) run why run (s ∷ rest)
  spared s rest run why h because =
      (0, omega arith, h, omega arith, refl, omega arith, stays _, because, refl, refl, refl)

  -- One turn of the loop on a chain of two or more, whose oldest segment is sealed.
  retain-turn :
      (s t : Segment) (rest : List Segment) (run : RetentionRun)
      → s.sealed ≡ true
      → let segments = s ∷ t ∷ rest in
        retain last_tick now floor segments run ≡ (
          if ltb floor (Segment.next_offset s)
          then (some above_floor, run, segments)
          else if condemned run.policy last_tick now s segments
          then retain last_tick now floor (t ∷ rest) (reclaim s run)
          else (some within_limits, run, segments))
  unfolding retain
  retain-turn s t rest run closed = ground (arith, closed)

  retain-last :
      (s : Segment) (run : RetentionRun)
      → retain last_tick now floor (s ∷ []) run ≡ (none, run, s ∷ [])
  unfolding retain
  retain-last s run = refl

  retain_lem :
      (segments : List Segment) (run : RetentionRun)
      → IsChain segments
      → let (why, run', segments') = retain last_tick now floor segments run in
        Retained segments run why run' segments'
  unfolding chain_bytes
  retain_lem [] run h = elim h [ ]
  retain_lem (s ∷ []) run h = rw (retain-last s run) (spared s [] run none h refl)
  retain_lem (s ∷ t ∷ rest) run h =
      rw (retain-turn s t rest run h.0) (elim (Bool-cases (ltb floor (Segment.next_offset s))) [
        | inl above ↦
            rw above (spared s (t ∷ rest) run (some above_floor) h (ground (arith, above)))
        | inr below ↦ elim (Bool-cases (condemned run.policy last_tick now s (s ∷ t ∷ rest))) [
          | inr fine ↦ rw (below, fine) (spared s (t ∷ rest) run (some within_limits) h fine)
          | inl out ↦
              let (n, small, chain, begins, same, low, gone, because, kept, bytes, count) =
                retain_lem (t ∷ rest) (reclaim s run) h.3 in
              rw (below, out)
                (
                  length s.records + n,
                  omega (arith, small, length-append s.records (entries (t ∷ rest))),
                  chain,
                  omega (arith, begins, h.2),
                  same ∙ sym (drop-append s.records (entries (t ∷ rest)) n _ refl),
                  ground (arith, below, h.2, low),
                  goes s t rest _ h.0 (ground (arith, below)) out gone,
                  because,
                  kept,
                  omega (arith, bytes),
                  omega (arith, count),
                )
        ]
      ])

-- On a well-formed log a retention run keeps the log well formed and drops a prefix of it,
-- segment by segment from the oldest: each segment that goes is sealed, ends at or below the
-- committed floor, is condemned by its age or by the size of the log that is left with it, and is
-- not the last. It stops only at a segment that is the last one, is open, reaches past the floor,
-- or is not condemned. What it reports as reclaimed is exactly what is gone.
pub apply-drops :
    (log : SegmentLog) (last_tick : Dict ℕ ℕ) (now floor : ℕ) (run : RetentionRun)
    → IsLog log
    → let (why, run', log') = apply log last_tick now floor run in
      (n : ℕ) × (n ≤ length (view log).entries)
      × IsLog log'
      × (view log' ≡ view_drop n (view log))
      × ((view log').start ≤ max (view log).start floor)
      × Reclaims last_tick now floor run.policy log.segments log'.segments
      × Justified last_tick now floor run.policy why log'.segments
      × (run'.reclaimed_bytes + chain_bytes log'.segments
          ≡ run.reclaimed_bytes + chain_bytes log.segments)
      × (run'.reclaimed_segments + length log'.segments
          ≡ run.reclaimed_segments + length log.segments)
unfolding apply
apply-drops log last_tick now floor run h =
    let (n, small, chain, begins, same, low, gone, because, _, bytes, count) =
      retain_lem last_tick now floor log.segments run h in
    (n, small, chain, View-eq begins same, low, gone, because, bytes, count)
