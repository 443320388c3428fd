-- ===== src/Log/Compaction/Table.antt =====
-- Replaying the compacted log builds the same table as replaying the whole log.
use event_stream_broker.Prelude.{
  ℕ, ◌+◌, ◌<◌, ◌≡◌, refl, sym, ap, ◌∙◌, ◌⊎◌, inl, inr, true, false, Option, none, some, List, [],
  ◌∷◌, arith, ◌==◌, bytes_eq, bytes_beq_iff, if◌then◌else◌, length, Bool-cases, Option-cases, All,
}
use event_stream_broker.Failure.{ok}
use event_stream_broker.Dict.{Dict, get}
use event_stream_broker.Log.Records.{Bytes}
use event_stream_broker.Log.Compaction.{
  KeyedEntry, Compactor, Setting, Verdict, superseded, reaped, retained, is_latest, verdict,
  setting, sift, compact,
}
use event_stream_broker.Log.Compaction.Latest.{
  last_of, get-last_offsets_nil, survivors, keep_if, sift-survivors,
}

-- A table that is built by replaying a log: an entry sets its key, a tombstone clears it.
abbrev pub written : Bytes → KeyedEntry → Option Bytes → Option Bytes
written k e held = if e.key == k then e.value else held

abbrev pub replay : Bytes → Option Bytes → List KeyedEntry → Option Bytes
replay k held [] = held
replay k held (e ∷ es) = replay k (written k e held) es

abbrev pub table : List KeyedEntry → Bytes → Option Bytes
table es k = replay k none es

-- Offsets grow along the log.
abbrev pub Ascending : List KeyedEntry → Type 0
Ascending [] = Unit
Ascending (e ∷ es) = All (λ (f : KeyedEntry). e.offset < f.offset) es × Ascending es

-- The last entry of a key overwrites what was held before.
replay-overwrites :
    (k : Bytes) (held held' : Option Bytes) (es : List KeyedEntry) {o : ℕ}
    → last_of k es ≡ some o
    → replay k held es ≡ replay k held' es
replay-overwrites k held held' [] h = cc
replay-overwrites k held held' (e ∷ es) h = elim (Option-cases (last_of k es)) [
  | inr (o', later) ↦ replay-overwrites k (written k e held) (written k e held') es later
  | inl no_more ↦ ground (arith, h, no_more)
]

written-other :
    (k : Bytes) (e : KeyedEntry) (held : Option Bytes)
    → (e.key == k) ≡ false
    → written k e held ≡ held
written-other k e held h = rw h

written_self :
    (k : Bytes) (e : KeyedEntry) (held : Option Bytes)
    → (e.key == k) ≡ true
    → written k e held ≡ e.value
written_self k e held h = rw h

keep_if-other :
    (k : Bytes) (v : Verdict) (e : KeyedEntry) (es : List KeyedEntry) (held : Option Bytes)
    → (e.key == k) ≡ false
    → replay k held (keep_if v e es) ≡ replay k held es
keep_if-other k superseded e es held h = refl
keep_if-other k reaped e es held h = refl
keep_if-other k retained e es held h = ap (λ v. replay k v es) (written-other k e held h)

-- The key of an entry that is last or not there at all.
last_of-tail :
    (k : Bytes) (e : KeyedEntry) (es : List KeyedEntry)
    → last_of k (e ∷ es) ≡ none
    → (last_of k es ≡ none) × ((e.key == k) ≡ false)
last_of-tail k e es h = ground (arith, h)

-- A key with no entry keeps what it had, also in the compacted log.
replay-absent :
    (g : Setting) (k : Bytes) (held : Option Bytes) (es : List KeyedEntry)
    → last_of k es ≡ none
    → (replay k held es ≡ held) × (replay k held (survivors g es) ≡ held)
replay-absent g k held [] h = (refl, refl)
replay-absent g k held (e ∷ es) h =
    let (none_later, other) = last_of-tail k e es h in
    let (whole, kept) = replay-absent g k held es none_later in
    (
      ap (λ v. replay k v es) (written-other k e held other) ∙ whole,
      keep_if-other k (verdict g e) e (survivors g es) held other ∙ kept,
    )

lt-last_of :
    (k : Bytes) (n : ℕ) (es : List KeyedEntry) {o : ℕ}
    → All (λ (f : KeyedEntry). n < f.offset) es
    → last_of k es ≡ some o
    → n < o
lt-last_of k n [] h e = cc
lt-last_of k n (f ∷ es) h e = elim (Option-cases (last_of k es)) [
  | inr (o', later) ↦ ground (arith, later, e, lt-last_of k n es h.1 later)
  | inl no_more ↦ ground (arith, no_more, e, h.0)
]

verdict-old :
    (g : Setting) (e : KeyedEntry) {o : ℕ}
    → get e.key g.last ≡ some o
    → e.offset < o
    → verdict g e ≡ superseded
unfolding verdict is_latest
verdict-old g e at later = ground (arith, at)

verdict-last :
    (g : Setting) (e : KeyedEntry)
    → get e.key g.last ≡ some e.offset
    → ((verdict g e ≡ reaped) × (e.value ≡ none)) ⊎ (verdict g e ≡ retained)
unfolding verdict is_latest
verdict-last g e at = ground (arith, at)

-- At an entry of the key in question, by whether it is the last one.
replay-same :
    (g : Setting) (k : Bytes) (e : KeyedEntry) (es : List KeyedEntry)
    → Ascending (e ∷ es)
    → (e.key == k) ≡ true
    → last_of k (e ∷ es) ≡ get k g.last
    → ((last_of k es ≡ none) ⊎ (last_of k es ≡ get k g.last)
        → replay k none (survivors g es) ≡ replay k none es)
    → replay k none (keep_if (verdict g e) e (survivors g es)) ≡ replay k none (e ∷ es)
replay-same g k e es asc same at ih = elim (Option-cases (last_of k es)) [
  | inr (o, later) ↦
      let at_o : get k g.last ≡ some o = ground (arith, later, at) in
      let old = verdict-old g e (rw key at_o) (lt-last_of k e.offset es asc.0 later) in
      ap (λ v. replay k none (keep_if v e (survivors g es))) old
      ∙ ih (inr (later ∙ sym at_o))
      ∙ replay-overwrites k none (written k e none) es later
  | inl no_more ↦
      let at_e : get k g.last ≡ some e.offset = ground (arith, no_more, at, same) in
      let (whole, _) = replay-absent g k (written k e none) es no_more in
      elim (verdict-last g e (rw key at_e)) [
        | inl (gone, cleared) ↦
            ap (λ v. replay k none (keep_if v e (survivors g es))) gone
            ∙ (replay-absent g k none es no_more).1
            ∙ sym (whole ∙ written_self k e none same ∙ cleared)
        | inr stays ↦
            ap (λ v. replay k none (keep_if v e (survivors g es))) stays
            ∙ (replay-absent g k (written k e none) es no_more).1
            ∙ sym whole
      ]
]
  where
    key : e.key ≡ k
    key = (bytes_beq_iff e.key k).0 same

last_of-other :
    (k : Bytes) (e : KeyedEntry) (es : List KeyedEntry) {o : Option ℕ}
    → (e.key == k) ≡ false
    → last_of k (e ∷ es) ≡ o
    → (last_of k es ≡ none) ⊎ (last_of k es ≡ o)
last_of-other k e es other at = elim (Option-cases (last_of k es)) [
  | inl absent ↦ inl absent
  | inr (o', later) ↦ inr (ground (arith, later, at))
]

replay-survivors :
    (g : Setting) (k : Bytes) (es : List KeyedEntry)
    → Ascending es
    → (last_of k es ≡ none) ⊎ (last_of k es ≡ get k g.last)
    → replay k none (survivors g es) ≡ replay k none es
replay-survivors g k [] asc at = refl
replay-survivors g k (e ∷ es) asc (inl absent) =
    let (whole, kept) = replay-absent g k none (e ∷ es) absent in kept ∙ sym whole
replay-survivors g k (e ∷ es) asc (inr at) = elim (Bool-cases (e.key == k)) [
  | inr other ↦
      keep_if-other k (verdict g e) e (survivors g es) none other
      ∙ replay-survivors g k es asc.1 (last_of-other k e es other at)
      ∙ ap (λ v. replay k v es) (sym (written-other k e none other))
  | inl same ↦ replay-same g k e es asc same at (replay-survivors g k es asc.1)
]

-- On a log that has entries and whose offsets grow, the compactor does not fail; what it keeps
-- replays to the table of the whole log, key by key, whatever tombstones it reaped; and every
-- entry is accounted for as superseded, reaped or kept.
pub compact-table :
    (e : KeyedEntry) (es : List KeyedEntry) (now : ℕ) (ticks : Dict ℕ ℕ) (floor : ℕ) (c : Compactor)
    → Ascending (e ∷ es)
    → let (result, c') = compact (e ∷ es) now ticks floor c in
      (result ≡ ok c'.kept)
      × ((k : Bytes) → table c'.kept k ≡ table (e ∷ es) k)
      × (c'.removed_superseded + c'.tombstones_reaped + length c'.kept
          ≡ c.removed_superseded + c.tombstones_reaped + length (e ∷ es))
unfolding compact
compact-table e es now ticks floor c asc =
    let g = setting (e ∷ es) now ticks floor c in
    let (same, count) = sift-survivors g (e ∷ es) c [] in
    (
      refl,
      λ k.
          ap (λ l. replay k none l) same
          ∙ replay-survivors g k (e ∷ es) asc (inr (sym (get-last_offsets_nil k (e ∷ es)))),
      ap
            (λ l.
              (sift g (e ∷ es) c []).0.removed_superseded
              + (sift g (e ∷ es) c []).0.tombstones_reaped
              + length l)
            same
          ∙ count,
    )
