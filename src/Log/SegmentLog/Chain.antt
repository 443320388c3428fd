-- ===== src/Log/SegmentLog/Chain.antt =====
-- The shape of the segment chain: every segment but the last is sealed and holds records, the last
-- is open, and each begins where the one before it ends.
use event_stream_broker.Prelude.{
  ℕ, ◌+◌, ◌<◌, ◌≡◌, refl, ap, sym, ◌∙◌, true, false, some, List, [], ◌∷◌, ◌++◌, append-nil,
  append_assoc, arith, length, length-append, get_last?, set_last,
}
use mathlib.Core.Option.{some-injective}
use event_stream_broker.Log.Records.{Record}
use event_stream_broker.Log.Segment
use event_stream_broker.Log.Segment.{Segment}
use event_stream_broker.Log.SegmentLog.{open_segment}

abbrev pub IsChain : List Segment → Type 0
IsChain [] = ⊥
IsChain (s ∷ []) = s.sealed ≡ false
IsChain (s ∷ t ∷ rest) =
    (s.sealed ≡ true)
    × (0 < length s.records)
    × (t.base_offset ≡ Segment.next_offset s)
    × IsChain (t ∷ rest)

-- The records of the chain, oldest first.
abbrev pub entries : List Segment → List Record
entries [] = []
entries (s ∷ rest) = s.records ++ entries rest

-- The first offset that the chain retains.
abbrev pub start : List Segment → ℕ
start [] = 0
start (s ∷ rest) = s.base_offset

-- One past the last offset.
abbrev pub end : List Segment → ℕ
end segments = start segments + length (entries segments)

pub IsChain-active :
    (segments : List Segment)
    → IsChain segments
    → (a : Segment) × (get_last? segments ≡ some a)
      × (a.sealed ≡ false)
      × (Segment.next_offset a ≡ end segments)
IsChain-active [] h = elim h [ ]
IsChain-active (s ∷ []) h = (s, refl, h, rw append-nil)
IsChain-active (s ∷ t ∷ rest) h =
    let (a, last, open_, ends) = IsChain-active (t ∷ rest) h.3 in
    (a, last, open_, omega (arith, h.2, ends, length-append s.records (t.records ++ entries rest)))

-- One more record in the last segment.
abbrev pub grown : Segment → Record → Segment
grown a r = record a { records = a.records ++ r ∷ [] }

pub IsChain-grown :
    (segments : List Segment) {a : Segment} (r : Record)
    → IsChain segments
    → get_last? segments ≡ some a
    → IsChain (set_last segments (grown a r))
      × (entries (set_last segments (grown a r)) ≡ entries segments ++ r ∷ [])
      × (start (set_last segments (grown a r)) ≡ start segments)
IsChain-grown [] r h e = elim h [ ]
IsChain-grown (s ∷ []) {a} r h e =
    let same : s ≡ a = some-injective _ _ e in rw (← same) (h, simp append-nil, refl)
IsChain-grown (s ∷ t ∷ []) {a} r h e =
    let same : t ≡ a = some-injective _ _ e in
    rw (← same) ((h.0, h.1, h.2, h.3), simp (append-nil, append_assoc), refl)
IsChain-grown (s ∷ t ∷ u ∷ rest) r h e =
    let (chain, same, begins) = IsChain-grown (t ∷ u ∷ rest) r h.3 e in
    (
      (h.0, h.1, h.2, chain),
      ap (λ l. s.records ++ l) same
          ∙ sym (append_assoc s.records (entries (t ∷ u ∷ rest)) (r ∷ [])),
      refl,
    )

-- The last segment is sealed, and an empty one follows.
abbrev pub rolled : List Segment → Segment → List Segment
rolled segments a =
    set_last segments (record a { sealed = true }) ++ open_segment (Segment.next_offset a) ∷ []

pub IsChain-rolled :
    (segments : List Segment) {a : Segment}
    → IsChain segments
    → get_last? segments ≡ some a
    → 0 < length a.records
    → IsChain (rolled segments a)
      × (entries (rolled segments a) ≡ entries segments)
      × (start (rolled segments a) ≡ start segments)
      × (get_last? (rolled segments a) ≡ some (open_segment (Segment.next_offset a)))
IsChain-rolled [] h e p = elim h [ ]
IsChain-rolled (s ∷ []) {a} h e p =
    let same : s ≡ a = some-injective _ _ e in
    rw (← same) ((refl, rw same p, refl, refl), simp append-nil, refl, refl)
IsChain-rolled (s ∷ t ∷ []) {a} h e p =
    let same : t ≡ a = some-injective _ _ e in
    rw (← same) ((h.0, h.1, h.2, (refl, rw same p, refl, refl)), simp append-nil, refl, refl)
IsChain-rolled (s ∷ t ∷ u ∷ rest) h e p =
    let (chain, same, begins, last) = IsChain-rolled (t ∷ u ∷ rest) h.3 e p in
    ((h.0, h.1, h.2, chain), ap (λ l. s.records ++ l) same, refl, last)
