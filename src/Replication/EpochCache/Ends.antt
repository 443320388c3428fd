-- ===== src/Replication/EpochCache/Ends.antt =====
-- Where an epoch ends on the log.
use event_stream_broker.Prelude.{
  ℕ, suc, Mem, ◌≤◌, ◌<◌, ◌≡◌, refl, sym, ◌⊎◌, inl, inr, true, List, [], ◌∷◌, subst, arith, ltb,
  nat_beq, All, Bool-cases,
}
use event_stream_broker.Failure.{ok, err, missing}
use event_stream_broker.Replication.EpochCache.{
  LeaderEpochCache, search, next_start, is_forgotten, end_offset_for,
}

-- Epochs and starts both grow.
abbrev pub Rising : List (ℕ × ℕ) → Type 0
Rising [] = Unit
Rising (e ∷ es) = All (λ (f : ℕ × ℕ). (e.0 < f.0) × (e.1 < f.1)) es × Rising es

-- What a cache of a log keeps: entries that rise, all within the log.
pub record IsCache (c : LeaderEpochCache) : Type 0 where
  pub rising : Rising c.entries
  pub within : All (λ (e : ℕ × ℕ). e.1 ≤ c.log_end) c.entries

-- Where the records of the epoch end: an offset at or after every start up to that epoch, and at or
-- before every later start.
abbrev pub Boundary : ℕ → ℕ → List (ℕ × ℕ) → Type 0
Boundary epoch x = All (λ (e : ℕ × ℕ). (e.0 ≤ epoch → e.1 ≤ x) × (epoch < e.0 → x ≤ e.1))

above-Boundary :
    (epoch x : ℕ) (es : List (ℕ × ℕ)) {ep : ℕ}
    → epoch ≤ ep
    → All (λ (f : ℕ × ℕ). (ep < f.0) × (x ≤ f.1)) es
    → Boundary epoch x es
above-Boundary epoch x [] high h = tt
above-Boundary epoch x (e ∷ es) high h = (
  (λ low. absurd (omega (arith, low, h.0, high)), λ _. omega (arith, h.0)),
  above-Boundary epoch x es high h.1,
)

-- The least of the starts and the end.
next_start-bounds :
    (d : ℕ) (e : ℕ × ℕ) (es : List (ℕ × ℕ))
    → Rising (e ∷ es)
    → All (λ (f : ℕ × ℕ). f.1 ≤ d) (e ∷ es)
    → (e.1 ≤ next_start es d)
      × (next_start es d ≤ d)
      × All (λ (f : ℕ × ℕ). (e.0 < f.0) × (next_start es d ≤ f.1)) es
unfolding next_start
next_start-bounds d e [] rising within = (within.0, omega arith, tt)
next_start-bounds d e (f ∷ es) rising within = (
  omega (arith, rising.0.0.1),
  within.1.0,
  ((rising.0.0.0, omega arith), weaken es rising.0.1 rising.1.0),
)
  where
    weaken :
        (gs : List (ℕ × ℕ))
        → All (λ (g : ℕ × ℕ). (e.0 < g.0) × (e.1 < g.1)) gs
        → All (λ (g : ℕ × ℕ). (f.0 < g.0) × (f.1 < g.1)) gs
        → All (λ (g : ℕ × ℕ). (e.0 < g.0) × (f.1 ≤ g.1)) gs
    weaken [] h k = tt
    weaken (g ∷ gs) h k = ((h.0.0, omega (arith, k.0)), weaken gs h.1 k.1)

pub search-least :
    (epoch n d : ℕ) (es : List (ℕ × ℕ))
    → n ≤ d
    → All (λ (e : ℕ × ℕ). n ≤ e.1) es
    → n ≤ search epoch es d
unfolding search next_start
search-least epoch n d [] low h = low
search-least epoch n d (e ∷ []) low h = ground (arith, low, h.0)
search-least epoch n d (e ∷ f ∷ es) low h =
    ground (arith, h.0, h.1.0, search-least epoch n d (f ∷ es) low h.1)

search-Boundary :
    (epoch d : ℕ) (es : List (ℕ × ℕ))
    → Rising es
    → All (λ (e : ℕ × ℕ). e.1 ≤ d) es
    → (search epoch es d ≤ d) × Boundary epoch (search epoch es d) es
unfolding search
search-Boundary epoch d [] rising within = (omega arith, tt)
search-Boundary epoch d (e ∷ es) rising within = elim (Bool-cases (nat_beq e.0 epoch)) [
  | inl same ↦
      let (low, high, rest) = next_start-bounds d e es rising within in
      found (next_start es d) (rw same refl) (
        high,
        (
          (λ _. low, λ above. absurd (ground (arith, same, above))),
          above-Boundary epoch _ es (ground (arith, same)) rest,
        ),
      )
  | inr other ↦ elim (Bool-cases (ltb epoch e.0)) [
    | inl above ↦ found e.1 (rw (other, above) refl) (
      within.0,
      (
        (λ _. omega arith, λ _. omega arith),
        above-Boundary epoch e.1 es (ground (arith, above)) (looser es rising.0),
      ),
    )
    | inr below ↦
        let (high, rest) = search-Boundary epoch d es rising.1 within.1 in
        found (search epoch es d) (rw (other, below) refl) (
          high,
          (
            (
              λ _. search-least epoch e.1 d es within.0 (starts es rising.0),
              λ above. absurd (ground (arith, below, above)),
            ),
            rest,
          ),
        )
  ]
]
  where
    found :
        (x : ℕ)
        → search epoch (e ∷ es) d ≡ x
        → (x ≤ d) × Boundary epoch x (e ∷ es)
        → (search epoch (e ∷ es) d ≤ d) × Boundary epoch (search epoch (e ∷ es) d) (e ∷ es)
    found x at = subst (λ y. (y ≤ d) × Boundary epoch y (e ∷ es)) (sym at)

    looser :
        (gs : List (ℕ × ℕ))
        → All (λ (g : ℕ × ℕ). (e.0 < g.0) × (e.1 < g.1)) gs
        → All (λ (g : ℕ × ℕ). (e.0 < g.0) × (e.1 ≤ g.1)) gs
    looser [] h = tt
    looser (g ∷ gs) h = ((h.0.0, omega (arith, h.0)), looser gs h.1)

    starts :
        (gs : List (ℕ × ℕ))
        → All (λ (g : ℕ × ℕ). (e.0 < g.0) × (e.1 < g.1)) gs
        → All (λ (g : ℕ × ℕ). e.1 ≤ g.1) gs
    starts [] h = tt
    starts (g ∷ gs) h = (omega (arith, h.0), starts gs h.1)

-- The end is the start of an entry with a later epoch, or the log end where there is none.
abbrev pub Ending : ℕ → ℕ → ℕ → List (ℕ × ℕ) → Type 0
Ending epoch x log_end entries =
    (x ≡ log_end) × All (λ (e : ℕ × ℕ). e.0 ≤ epoch) entries
    ⊎ (e : ℕ × ℕ) × Mem e entries × (epoch < e.0) × (x ≡ e.1)

search-Ending :
    (epoch d : ℕ) (es : List (ℕ × ℕ)) → Rising es → Ending epoch (search epoch es d) d es
unfolding search next_start
search-Ending epoch d [] rising = inl (refl, tt)
search-Ending epoch d (e ∷ es) rising = elim (Bool-cases (nat_beq e.0 epoch)) [
  | inl same ↦ rw same (after es rising (ground (arith, same)))
  | inr other ↦ elim (Bool-cases (ltb epoch e.0)) [
    | inl above ↦ rw (other, above) (inr (e, (0, refl), ground (arith, above), refl))
    | inr below ↦
        rw (other, below)
          (elim (search-Ending epoch d es rising.1) [
            | inl (end, lower) ↦ inl (end, (ground (arith, below), lower))
            | inr (f, (i, at), later, start) ↦ inr (f, (suc i, at), later, start)
          ])
  ]
]
  where
    after :
        (fs : List (ℕ × ℕ))
        → Rising (e ∷ fs)
        → e.0 ≡ epoch
        → Ending epoch (next_start fs d) d (e ∷ fs)
    after [] rising same = inl (refl, (omega (arith, same), tt))
    after (f ∷ fs) rising same = inr (f, (1, refl), omega (arith, same, rising.0.0.0), refl)

-- On a well-formed cache, an epoch that is remembered ends within the log, at or after every
-- start up to that epoch and at or before every later one: at the start of an entry with a later
-- epoch, or at the log end where no entry has a later epoch. Any other epoch is refused.
pub end_offset_for-Boundary :
    (epoch : ℕ) (c : LeaderEpochCache)
    → IsCache c
    → (end_offset_for epoch c ≡ err missing) × (is_forgotten epoch c.entries ≡ true)
      ⊎ (x : ℕ) × (end_offset_for epoch c ≡ ok x)
        × (x ≤ c.log_end)
        × Boundary epoch x c.entries
        × Ending epoch x c.log_end c.entries
unfolding end_offset_for
end_offset_for-Boundary epoch c h = elim (Bool-cases (is_forgotten epoch c.entries)) [
  | inl old ↦ inl (rw old refl, old)
  | inr known ↦
      let (high, ends) = search-Boundary epoch c.log_end c.entries h.rising h.within in
      inr (
        search epoch c.entries c.log_end,
        rw known refl,
        high,
        ends,
        search-Ending epoch c.log_end c.entries h.rising,
      )
]
