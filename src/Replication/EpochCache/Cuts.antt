-- ===== src/Replication/EpochCache/Cuts.antt =====
-- What a truncation at either end leaves of the epochs.
use event_stream_broker.Prelude.{
  middle-All, true, ◌++◌, ◌+◌, ◌↔◌, Mem, Mem-All, All-Mem, All-keep, keep-Mem, nat_beq, length, leb,
  lt→ltb, ltb→lt, ℕ, ◌≤◌, ◌<◌, ◌≡◌, refl, ap, inl, inr, false, List, [], ◌∷◌, arith, ltb, min, keep,
  All, Bool-cases, le→ltb,
}
use event_stream_broker.Failure.{ok, err, missing}
use event_stream_broker.Replication.EpochCache.{
  LeaderEpochCache, search, next_start, is_forgotten, end_offset_for, truncate_from, drop_below,
  or_last,
}
use event_stream_broker.Replication.EpochCache.Ends.{Rising, IsCache, search-least}

above-cut :
    (o : ℕ) (es : List (ℕ × ℕ))
    → All (λ (e : ℕ × ℕ). o ≤ e.1) es
    → keep (λ (e : ℕ × ℕ). ltb e.1 o) es ≡ []
above-cut o [] h = refl
above-cut o (e ∷ es) h = rw (le→ltb e.1 o h.0) (above-cut o es h.1)

later-above :
    (o : ℕ) (e : ℕ × ℕ) (es : List (ℕ × ℕ))
    → o ≤ e.1
    → All (λ (f : ℕ × ℕ). (e.0 < f.0) × (e.1 < f.1)) es
    → All (λ (f : ℕ × ℕ). o ≤ f.1) es
later-above o e [] low h = tt
later-above o e (f ∷ es) low h = (omega (arith, h.0), later-above o e es low h.1)

next_start-cut :
    (o d : ℕ) (es : List (ℕ × ℕ))
    → Rising es
    → All (λ (e : ℕ × ℕ). e.1 ≤ d) es
    → next_start (keep (λ (e : ℕ × ℕ). ltb e.1 o) es) (min d o) ≡ min (next_start es d) o
unfolding next_start
next_start-cut o d [] rising within = refl
next_start-cut o d (e ∷ es) rising within = elim (Bool-cases (ltb e.1 o)) [
  | inl stays ↦ rw stays (ground (arith, stays))
  | inr goes ↦
      rw (goes, above-cut o es (later-above o e es (ground (arith, goes)) rising.0))
        (ground (arith, goes, within.0))
]

search-cut :
    (epoch o d : ℕ) (es : List (ℕ × ℕ))
    → Rising es
    → All (λ (e : ℕ × ℕ). e.1 ≤ d) es
    → search epoch (keep (λ (e : ℕ × ℕ). ltb e.1 o) es) (min d o) ≡ min (search epoch es d) o
unfolding search
search-cut epoch o d [] rising within = refl
search-cut epoch o d (e ∷ es) rising within = elim (Bool-cases (ltb e.1 o)) [
  | inl stays ↦ rw stays (
      ground (
        arith,
        stays,
        next_start-cut o d es rising.1 within.1,
        search-cut epoch o d es rising.1 within.1,
      ))
  | inr goes ↦
      let low : o ≤ e.1 = ground (arith, goes) in
      let rest = later-above o e es low rising.0 in
      rw (goes, above-cut o es rest)
        (omega (
          arith,
          within.0,
          low,
          search-least epoch o d (e ∷ es) (omega (arith, low, within.0)) (low, rest),
        ))
]

keep-All :
    (P : ℕ × ℕ → Type 0) (o : ℕ) (es : List (ℕ × ℕ))
    → All P es
    → All P (keep (λ (e : ℕ × ℕ). ltb e.1 o) es)
keep-All P o [] h = tt
keep-All P o (e ∷ es) h = elim (Bool-cases (ltb e.1 o)) [
  | inl stays ↦ rw stays (h.0, keep-All P o es h.1)
  | inr goes ↦ rw goes (keep-All P o es h.1)
]

keep-Rising : (o : ℕ) (es : List (ℕ × ℕ)) → Rising es → Rising (keep (λ (e : ℕ × ℕ). ltb e.1 o) es)
keep-Rising o [] h = tt
keep-Rising o (e ∷ es) h = elim (Bool-cases (ltb e.1 o)) [
  | inl stays ↦ rw stays (keep-All _ o es h.0, keep-Rising o es h.1)
  | inr goes ↦ rw goes (keep-Rising o es h.1)
]

keep-within :
    (o d : ℕ) (es : List (ℕ × ℕ))
    → All (λ (e : ℕ × ℕ). e.1 ≤ d) es
    → All (λ (e : ℕ × ℕ). e.1 ≤ min d o) (keep (λ (e : ℕ × ℕ). ltb e.1 o) es)
keep-within o d [] h = tt
keep-within o d (e ∷ es) h = elim (Bool-cases (ltb e.1 o)) [
  | inl stays ↦ rw stays (ground (arith, stays, h.0), keep-within o d es h.1)
  | inr goes ↦ rw goes (keep-within o d es h.1)
]

-- What is remembered after a truncation was remembered before.
known-before :
    (epoch o : ℕ) (es : List (ℕ × ℕ))
    → Rising es
    → is_forgotten epoch (keep (λ (e : ℕ × ℕ). ltb e.1 o) es) ≡ false
    → is_forgotten epoch es ≡ false
unfolding is_forgotten
known-before epoch o [] rising known = known
known-before epoch o (e ∷ es) rising known = elim (Bool-cases (ltb e.1 o)) [
  | inl stays ↦ rw stays at known
  | inr goes ↦
      cc (rw (goes, above-cut o es (later-above o e es (ground (arith, goes)) rising.0)) at known)
]

-- What is kept is exactly what begins before the cut.
Mem-cut :
    (o : ℕ) (es : List (ℕ × ℕ)) (e : ℕ × ℕ)
    → Mem e (keep (λ (e : ℕ × ℕ). ltb e.1 o) es) ↔ (Mem e es × (e.1 < o))
Mem-cut o es e = (
  λ kept.
      let (at, low) =
        Mem-All (λ (f : ℕ × ℕ). (ltb f.1 o ≡ true) × Mem f es) _ kept
          (All-keep (λ f. Mem f es) (λ (f : ℕ × ℕ). ltb f.1 o) es (All-Mem es)) in
      (low, ltb→lt e.1 o at),
  λ (at, low). keep-Mem (λ (f : ℕ × ℕ). ltb f.1 o) es at (lt→ltb e.1 o low),
)

length-cut : (o : ℕ) (es : List (ℕ × ℕ)) → length (keep (λ (e : ℕ × ℕ). ltb e.1 o) es) ≤ length es
length-cut o [] = omega arith
length-cut o (e ∷ es) = ground (arith, length-cut o es)

-- A truncation of a well-formed cache leaves it well formed. It keeps exactly the entries that
-- begin before the offset and returns the number of the others; the end of every epoch that is
-- still remembered is its old end, or the offset where that is lower.
pub truncate_from-end :
    (offset : ℕ) (c : LeaderEpochCache)
    → IsCache c
    → let c' = (truncate_from offset c).1 in
      IsCache c'
      × ((epoch : ℕ)
          → is_forgotten epoch c'.entries ≡ false
          → (x : ℕ) × (end_offset_for epoch c ≡ ok x)
            × (end_offset_for epoch c' ≡ ok (min x offset)))
      × ((e : ℕ × ℕ) → Mem e c'.entries ↔ (Mem e c.entries × (e.1 < offset)))
      × ((truncate_from offset c).0 + length c'.entries ≡ length c.entries)
unfolding truncate_from end_offset_for
truncate_from-end offset c h = (
  record {
    rising = keep-Rising offset c.entries h.rising;
    within = keep-within offset c.log_end c.entries h.within;
  },
  λ epoch known. (
    search epoch c.entries c.log_end,
    rw (known-before epoch offset c.entries h.rising known) refl,
    rw known (ap ok (search-cut epoch offset c.log_end c.entries h.rising h.within)),
  ),
  λ e. Mem-cut offset c.entries e,
  omega (arith, length-cut offset c.entries),
)

keep-drops :
    (log_start : ℕ) (before_ : List (ℕ × ℕ)) (a b : ℕ × ℕ) (rest : List (ℕ × ℕ))
    → Rising (before_ ++ a ∷ b ∷ rest)
    → a.1 < log_start
    → log_start < b.1
    → keep (λ (e : ℕ × ℕ). leb log_start e.1) (before_ ++ a ∷ b ∷ rest)
      ≡ b ∷ keep (λ (e : ℕ × ℕ). leb log_start e.1) rest
keep-drops log_start [] a b rest rising low high =
    let out : leb log_start a.1 ≡ false = ground (arith, low) in
    let stays : leb log_start b.1 ≡ true = ground (arith, high) in rw (out, stays) refl
keep-drops log_start (e ∷ before_) a b rest rising low high =
    let under = middle-All _ before_ a (b ∷ rest) rising.0 in
    let out : leb log_start e.1 ≡ false = ground (arith, low, under.1) in
    rw out (keep-drops log_start before_ a b rest rising.1 low high)

search-middle :
    (before_ : List (ℕ × ℕ)) (a b : ℕ × ℕ) (rest : List (ℕ × ℕ)) (log_end : ℕ)
    → Rising (before_ ++ a ∷ b ∷ rest)
    → search a.0 (before_ ++ a ∷ b ∷ rest) log_end ≡ b.1
unfolding search next_start
search-middle [] a b rest log_end rising =
    let same : nat_beq a.0 a.0 ≡ true = ground arith in rw same refl
search-middle (e ∷ before_) a b rest log_end rising =
    let under = middle-All _ before_ a (b ∷ rest) rising.0 in
    let other : nat_beq e.0 a.0 ≡ false = ground (arith, under.0) in
    let below : ltb a.0 e.0 ≡ false = ground (arith, under.0) in
    rw (other, below) (search-middle before_ a b rest log_end rising.1)

middle-known :
    (before_ : List (ℕ × ℕ)) (a : ℕ × ℕ) (rest : List (ℕ × ℕ))
    → Rising (before_ ++ a ∷ rest)
    → is_forgotten a.0 (before_ ++ a ∷ rest) ≡ false
unfolding is_forgotten
middle-known [] a rest rising = ground arith
middle-known (e ∷ before_) a rest rising = ground (arith, (middle-All _ before_ a rest rising.0).0)

-- In a cache whose epochs and starts rise, an epoch that is not the last, began below the new log
-- start and ends above it is remembered, with the start of the next epoch as its end, until the
-- log start moves, and is refused as forgotten after.
pub drop_below-forgets :
    (log_start : ℕ) (before_ : List (ℕ × ℕ)) (a b : ℕ × ℕ) (rest : List (ℕ × ℕ)) (log_end : ℕ)
    → Rising (before_ ++ a ∷ b ∷ rest)
    → a.1 < log_start
    → log_start < b.1
    → let c : LeaderEpochCache = record { log_end = log_end; entries = before_ ++ a ∷ b ∷ rest } in
      (end_offset_for a.0 c ≡ ok b.1)
      × (end_offset_for a.0 (drop_below log_start c).1 ≡ err missing)
unfolding drop_below end_offset_for or_last is_forgotten
drop_below-forgets log_start before_ a b rest log_end rising low high =
    let later : ltb a.0 b.0 ≡ true = lt→ltb a.0 b.0 (rises before_ rising) in
    (
      rw (middle-known before_ a (b ∷ rest) rising)
          (ap ok (search-middle before_ a b rest log_end rising)),
      rw (keep-drops log_start before_ a b rest rising low high) (rw later refl),
    )
  where
    rises : (es : List (ℕ × ℕ)) → Rising (es ++ a ∷ b ∷ rest) → a.0 < b.0
    rises [] h = h.0.0.0
    rises (e ∷ es) h = rises es h.1
