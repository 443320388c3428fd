-- ===== src/Log/SegmentLog/Drops.antt =====
-- Dropping sealed segments, against the view.
use event_stream_broker.Prelude.{
  ℕ, ◌+◌, ◌≤◌, ◌<◌, ◌≡◌, refl, sym, ◌∙◌, max, ◌≤◌, length-append, List, [], ◌∷◌, inl, inr, arith,
  leb, ◌⊎◌, ◌&&◌, length, drop, drop-append, Bool-cases,
}
use event_stream_broker.Log.Segment
use event_stream_broker.Log.Segment.{Segment}
use event_stream_broker.Log.SegmentLog.{SegmentLog, drop_sealed_before, drop_loop}
use event_stream_broker.Log.SegmentLog.Chain.{IsChain, entries, start}
use event_stream_broker.Log.SegmentLog.View.{view, IsLog, view_drop, View-eq}

-- The end of the oldest segment.
abbrev pub first_end : List Segment → ℕ
first_end [] = 0
first_end (s ∷ rest) = Segment.next_offset s

-- Whole sealed segments go, so the view loses a prefix of as many records as they held.
abbrev DropsBelow : ℕ → List Segment → ℕ → List Segment → ℕ → Type 0
DropsBelow offset segments dropped segments' dropped' =
    (n : ℕ) × (n ≤ length (entries segments))
    × IsChain segments'
    × (start segments' ≡ start segments + n)
    × (entries segments' ≡ drop n (entries segments))
    × (start segments' ≤ max (start segments) offset)
    × ((length segments' ≡ 1) ⊎ (offset < first_end segments'))
    × (dropped' + length segments' ≡ dropped + length segments)

drop_loop-refines :
    (offset : ℕ) (segments : List Segment) (dropped : ℕ)
    → IsChain segments
    → let (segments', dropped') = drop_loop offset segments dropped in
      DropsBelow offset segments dropped segments' dropped'
unfolding drop_loop
drop_loop-refines offset [] dropped h = elim h [ ]
drop_loop-refines offset (s ∷ []) dropped h =
    (0, omega arith, h, omega arith, refl, omega arith, inl refl, refl)
drop_loop-refines offset (s ∷ t ∷ rest) dropped h =
    elim (Bool-cases (s.sealed && leb (Segment.next_offset s) offset)) [
      | inr kept ↦
          rw kept (
            0,
            omega arith,
            h,
            omega arith,
            refl,
            omega arith,
            inr (ground (arith, kept, h.0)),
            refl,
          )
      | inl gone ↦
          let (n, small, chain, begins, same, low, minimal, counted) =
            drop_loop-refines offset (t ∷ rest) (dropped + 1) h.3 in
          rw gone (
            length s.records + n,
            omega (arith, small, length-append s.records (entries (t ∷ rest))),
            chain,
            omega (arith, begins, h.2),
            same ∙ sym (drop-append s.records (entries (t ∷ rest)) n _ refl),
            ground (arith, gone, h.2, low),
            minimal,
            omega (arith, counted),
          )
    ]

-- On a well-formed log, dropping up to an offset keeps the log well formed, drops a prefix of the
-- view and nothing at or above the offset, stops only at the active segment or at one that
-- reaches past the offset, and counts the segments that went.
pub drop-refines :
    (offset : ℕ) (log : SegmentLog)
    → IsLog log
    → let (dropped, log') = drop_sealed_before offset log in
      (n : ℕ) × (n ≤ length (view log).entries)
      × IsLog log'
      × (view log' ≡ view_drop n (view log))
      × ((view log').start ≤ max (view log).start offset)
      × ((length log'.segments ≡ 1) ⊎ (offset < first_end log'.segments))
      × (dropped + length log'.segments ≡ length log.segments)
unfolding drop_sealed_before
drop-refines offset log h =
    let (n, small, chain, begins, same, low, minimal, counted) =
      drop_loop-refines offset log.segments 0 h in
    (n, small, chain, View-eq begins same, low, minimal, omega (arith, counted))
