-- ===== src/Log/Compaction/Latest.antt =====
-- What the two loops of the compactor compute.
use event_stream_broker.Prelude.{
  ℕ, suc, ◌+◌, ◌≡◌, refl, sym, ◌∙◌, Option, none, some, List, [], ◌∷◌, ◌++◌, append-nil,
  append_assoc, arith, ◌==◌, bytes_eq, if◌then◌else◌, length,
}
use event_stream_broker.Dict.{Dict, get, put, get-put}
use event_stream_broker.Log.Records.{Bytes}
use event_stream_broker.Log.Compaction.{
  KeyedEntry, Compactor, Setting, Verdict, superseded, reaped, retained, last_offsets, verdict,
  sift, tally,
}

-- The offset of the last entry with the key.
abbrev pub last_of : Bytes → List KeyedEntry → Option ℕ
last_of k [] = none
last_of k (e ∷ es) = elim (last_of k es) [
  | some o ↦ some o
  | none ↦ if e.key == k then some e.offset else none
]

abbrev or_else : Option ℕ → Option ℕ → Option ℕ
or_else none p = p
or_else (some o) p = some o

get-last_offsets :
    (k : Bytes) (es : List KeyedEntry) (d : Dict Bytes ℕ)
    → get k (last_offsets es d) ≡ or_else (last_of k es) (get k d)
unfolding last_offsets
get-last_offsets k [] d = refl
get-last_offsets k (e ∷ es) d =
    get-last_offsets k es (put e.key e.offset d) ∙ ground (arith, get-put e.key k e.offset d)

-- From an empty dictionary the first loop finds the last entry of each key.
pub get-last_offsets_nil :
    (k : Bytes) (es : List KeyedEntry) → get k (last_offsets es []) ≡ last_of k es
unfolding get
get-last_offsets_nil k es = get-last_offsets k es [] ∙ or_else_none (last_of k es)
  where
    or_else_none : (o : Option ℕ) → or_else o none ≡ o
    or_else_none none = refl
    or_else_none (some o) = refl

abbrev pub keep_if : Verdict → KeyedEntry → List KeyedEntry → List KeyedEntry
keep_if superseded e es = es
keep_if reaped e es = es
keep_if retained e es = e ∷ es

-- The entries that the second loop keeps, in order.
abbrev pub survivors : Setting → List KeyedEntry → List KeyedEntry
survivors g [] = []
survivors g (e ∷ es) = keep_if (verdict g e) e (survivors g es)

-- A run of the second loop over `n` entries that keeps `es`.
abbrev pub Sifts :
    Compactor → List KeyedEntry → Compactor → List KeyedEntry → ℕ → List KeyedEntry → Type 0
Sifts c result c' result' n es =
    (result' ≡ result ++ es)
    × (c'.removed_superseded + c'.tombstones_reaped + length es
        ≡ c.removed_superseded + c.tombstones_reaped + n)

tally-Sifts :
    (v : Verdict) (g : Setting) (e : KeyedEntry) (es : List KeyedEntry)
    → ((c : Compactor) (result : List KeyedEntry)
        → let (c', result') = sift g es c result in
          Sifts c result c' result' (length es) (survivors g es))
    → (c : Compactor) (result : List KeyedEntry)
    → let (c₁, result₁) = tally v e c result in
      let (c', result') = sift g es c₁ result₁ in
      Sifts c result c' result' (suc (length es)) (keep_if v e (survivors g es))
tally-Sifts superseded g e es ih c result =
    let (same, count) = ih (tally superseded e c result).0 result in (same, omega (arith, count))
tally-Sifts reaped g e es ih c result =
    let (same, count) = ih (tally reaped e c result).0 result in (same, omega (arith, count))
tally-Sifts retained g e es ih c result =
    let (same, count) = ih c (result ++ e ∷ []) in
    (same ∙ append_assoc result (e ∷ []) (survivors g es), omega (arith, count))

pub sift-survivors :
    (g : Setting) (es : List KeyedEntry) (c : Compactor) (result : List KeyedEntry)
    → let (c', result') = sift g es c result in
      Sifts c result c' result' (length es) (survivors g es)
unfolding sift
sift-survivors g [] c result = (sym (append-nil result), omega arith)
sift-survivors g (e ∷ es) c result = tally-Sifts (verdict g e) g e es (sift-survivors g es) c result
