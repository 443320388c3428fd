-- ===== src/Replication/Recovery/Markers.antt =====
-- The epochs of a log by the markers at which they begin.
use event_stream_broker.Prelude.{
  middle-All, ◌⊎◌, inl, inr, Bool-cases, ◌++◌, All, All-mono, ℕ, ◌≤◌, ◌<◌, ◌≡◌, refl, Option, none,
  some, List, [], ◌∷◌, arith, leb, if◌then◌else◌, le→leb,
}
use event_stream_broker.Replication.Recovery.{EpochMarker}

-- The epoch that wrote an offset, by markers whose starts rise.
abbrev pub epoch_at : ℕ → List EpochMarker → Option ℕ
epoch_at offset [] = none
epoch_at offset (m ∷ ms) =
    let rest = epoch_at offset ms in
    if leb m.start_offset offset
    then elim rest [ none ↦ some m.epoch | some later ↦ some later ]
    else none

-- Markers whose epochs and starts both grow.
abbrev pub Rising : List EpochMarker → Type 0
Rising [] = Unit
Rising (m ∷ ms) =
    All (λ (n : EpochMarker). (m.epoch < n.epoch) × (m.start_offset < n.start_offset)) ms
    × Rising ms

-- An offset belongs to no marker of the list, or to one whose epoch is above what all are above.
epoch_at-above :
    (k offset : ℕ) (ms : List EpochMarker)
    → All (λ (m : EpochMarker). k < m.epoch) ms
    → (epoch_at offset ms ≡ none) ⊎ (e : ℕ) × (epoch_at offset ms ≡ some e) × (k < e)
epoch_at-above k offset [] h = inl refl
epoch_at-above k offset (m ∷ ms) h = elim (Bool-cases (leb m.start_offset offset)) [
  | inr early ↦ inl (rw early refl)
  | inl begun ↦ elim (epoch_at-above k offset ms h.1) [
    | inl last ↦ inr (m.epoch, rw (begun, last) refl, h.0)
    | inr (e, at, above) ↦ inr (e, rw (begun, at) refl, above)
  ]
]

-- From the start of an epoch on, an offset belongs to it or to a later one.
pub epoch_at-from :
    (offset : ℕ) (m : EpochMarker) (ms : List EpochMarker)
    → Rising (m ∷ ms)
    → m.start_offset ≤ offset
    → (e : ℕ) × (epoch_at offset (m ∷ ms) ≡ some e) × (m.epoch ≤ e)
epoch_at-from offset m ms h low =
    let begun = le→leb m.start_offset offset low in
    elim (epoch_at-above m.epoch offset ms (All-mono ms (λ n k. k.0) h.0)) [
      | inl last ↦ (m.epoch, rw (begun, last) refl, omega arith)
      | inr (e, at, above) ↦ (e, rw (begun, at) refl, omega (arith, above))
    ]

-- What comes before the epoch of an offset does not matter.
pub epoch_at-after :
    (offset : ℕ) (before_ : List EpochMarker) (a : EpochMarker) (rest : List EpochMarker) {e : ℕ}
    → Rising (before_ ++ a ∷ rest)
    → a.start_offset ≤ offset
    → epoch_at offset (a ∷ rest) ≡ some e
    → epoch_at offset (before_ ++ a ∷ rest) ≡ some e
epoch_at-after offset [] a rest h low at = at
epoch_at-after offset (m ∷ before_) a rest h low at =
    let under = middle-All _ before_ a rest h.0 in
    let begun = le→leb m.start_offset offset (omega (arith, under.1, low)) in
    rw (begun, epoch_at-after offset before_ a rest h.1 low at) refl

pub second-above :
    (before_ : List EpochMarker) (a b : EpochMarker) (rest : List EpochMarker)
    → Rising (before_ ++ a ∷ b ∷ rest)
    → (a.epoch < b.epoch) × (a.start_offset < b.start_offset)
second-above [] a b rest h = h.0.0
second-above (m ∷ before_) a b rest h = second-above before_ a b rest h.1
