-- ===== src/Requests/Fetching/Plans.antt =====
-- What a fetch gets: within the ceiling, or alone; enough, or when the wait is over.
use event_stream_broker.Prelude.{
  ℕ, suc, ◌+◌, ◌≤◌, ◌<◌, ◌≡◌, refl, sym, ap, subst, ◌⊎◌, inl, inr, true, ◌&&◌, List, [], ◌∷◌, ◌++◌,
  arith, ltb, leb, Bool-cases, length, take, sum, length-append, leb→le, le→leb,
}
use event_stream_broker.Requests.Fetching.{
  FetchRequest, FetchResult, Reason, alone, enough, expired, holding, Ended, returned, left,
  fetch_loop, after_loop, plan_fetch,
}

-- How the loop ends, having started with `n` records in the batch.
abbrev Ends : FetchRequest → ℕ → List ℕ → ℕ → Ended → Type 0
Ends q n sizes total (returned r) =
    (k : ℕ) × (suc k ≤ length sizes)
    × (r.records_returned ≡ n + suc k)
    × (r.bytes_returned ≡ total + sum (take (suc k) sizes))
    × (((r.reason ≡ alone) × (q.max_bytes < r.bytes_returned) × (r.records_returned ≡ 1))
        ⊎ ((r.reason ≡ enough)
            × (q.min_bytes ≤ r.bytes_returned)
            × (r.bytes_returned ≤ q.max_bytes)))
Ends q n sizes total (left batch total') =
    (k : ℕ) × (k ≤ length sizes)
    × (length batch ≡ n + k)
    × (total' ≡ total + sum (take k sizes))
    × (total' ≤ q.max_bytes)
    × ((length sizes ≡ 0) ⊎ (0 < length batch))

Ends-step :
    (q : FetchRequest) (n size : ℕ) (sizes : List ℕ) (total : ℕ) (e : Ended)
    → ((0 < n + 1) × Ends q (n + 1) sizes (total + size) e)
    → Ends q n (size ∷ sizes) total e
unfolding sum
Ends-step q n size sizes total (returned r) (_, (k, short, count, bytes, why)) =
    (suc k, omega arith, omega arith, omega arith, why)
Ends-step q n size sizes total (left batch total') (_, (k, short, count, bytes, low, some_)) =
    (suc k, omega arith, omega arith, omega arith, low, inr (omega arith))

fetch_loop-Ends :
    (q : FetchRequest) (batch sizes : List ℕ) (total : ℕ)
    → total ≤ q.max_bytes
    → (0 < length batch) ⊎ (total ≡ 0)
    → Ends q (length batch) sizes total (fetch_loop q batch sizes total)
unfolding fetch_loop sum
fetch_loop-Ends q batch [] total low start =
    (0, omega arith, omega arith, omega arith, low, inl refl)
fetch_loop-Ends q batch (size ∷ sizes) total low start =
    let grown = length-append batch (size ∷ []) in
    elim (Bool-cases (ltb 0 (length batch) && ltb q.max_bytes (total + size))) [
      | inl full ↦
          rw full (0, omega arith, omega arith, omega arith, low, inr (ground (arith, full)))
      | inr room ↦ rw room elim (Bool-cases (ltb q.max_bytes size)) [
        | inl large ↦ rw large (
          0,
          omega arith,
          ground (arith, large, room, start),
          ground (arith, large, room, start),
          inl (refl, ground (arith, large), refl),
        )
        | inr fits ↦ rw fits elim (Bool-cases (leb q.min_bytes (total + size))) [
          | inl reached ↦ rw reached (
            0,
            omega arith,
            omega (arith, grown),
            omega arith,
            inr (refl, ground (arith, reached), ground (arith, room, fits, start)),
          )
          | inr more ↦
              let same : length batch + 1 ≡ length (batch ++ size ∷ []) = omega (arith, grown) in
              let rest = fetch_loop q (batch ++ size ∷ []) sizes (total + size) in
              rw more (
                Ends-step q (length batch) size sizes total rest (
                  omega arith,
                  rw same (
                      fetch_loop-Ends q (batch ++ size ∷ []) sizes (total + size)
                        (ground (arith, room, fits, start)) (inl (omega arith))),
                ))
        ]
      ]
    ]

-- What a result promises.
abbrev pub Promised : FetchRequest → ℕ → Reason → FetchResult → Type 0
Promised q now_wait alone r = (r.records_returned ≡ 1) × (q.max_bytes < r.bytes_returned)
Promised q now_wait enough r =
    (0 < r.records_returned) × (q.min_bytes ≤ r.bytes_returned) × (r.bytes_returned ≤ q.max_bytes)
Promised q now_wait expired r = (q.max_wait_ticks ≤ now_wait) × (r.bytes_returned ≤ q.max_bytes)
Promised q now_wait holding r = (r.records_returned ≡ 0) × (now_wait < q.max_wait_ticks)

abbrev Planned : FetchRequest → List ℕ → ℕ → FetchResult → Type 0
Planned q sizes now_wait r =
    (r.records_returned ≤ length sizes)
    × (r.bytes_returned ≡ sum (take r.records_returned sizes))
    × Promised q now_wait r.reason r

-- The first `k` records, under another name for their number.
sum_first :
    (sizes : List ℕ) (n k : ℕ) {b : ℕ}
    → b ≡ 0 + sum (take k sizes)
    → n ≡ 0 + k
    → b ≡ sum (take n sizes)
sum_first sizes n k e same =
    let equal : k ≡ n = omega arith in omega (arith, ap (λ (m : ℕ). sum (take m sizes)) equal)

after_loop-Planned :
    (q : FetchRequest) (sizes : List ℕ) (now_wait : ℕ) (e : Ended)
    → Ends q 0 sizes 0 e
    → Planned q sizes now_wait (after_loop q now_wait e)
unfolding after_loop sum
after_loop-Planned q sizes now_wait (returned r) (k, short, count, bytes, why) =
    let whole = sum_first sizes r.records_returned (suc k) bytes count in
    elim why [
      | inl (is, large, one) ↦
          (omega arith, whole, subst (λ w. Promised q now_wait w r) (sym is) (one, large))
      | inr (is, many, low) ↦ (
        omega arith,
        whole,
        subst (λ w. Promised q now_wait w r) (sym is) (omega arith, many, low),
      )
    ]
after_loop-Planned q sizes now_wait (left batch total) (k, short, count, bytes, low, some_) =
    elim (Bool-cases (leb q.max_wait_ticks now_wait)) [
      | inl over ↦ rw over (
        omega arith,
        sum_first sizes (length batch) k bytes count,
        (leb→le q.max_wait_ticks now_wait over, low),
      )
      | inr early ↦ rw early (omega arith, refl, (refl, ground (arith, early)))
    ]

-- A fetch returns the first records that are available, as many as it says and of as many bytes. They
-- are enough and within the ceiling; or one record above the ceiling by itself; or within the ceiling
-- with the wait over. It holds them all back only while the wait goes on.
pub plan_fetch-Promised :
    (q : FetchRequest) (sizes : List ℕ) (now_wait : ℕ)
    → let r = plan_fetch q sizes now_wait in
      (r.records_returned ≤ length sizes)
      × (r.bytes_returned ≡ sum (take r.records_returned sizes))
      × Promised q now_wait r.reason r
unfolding plan_fetch
plan_fetch-Promised q sizes now_wait =
    after_loop-Planned q sizes now_wait (fetch_loop q [] sizes 0)
      (fetch_loop-Ends q [] sizes 0 (omega arith) (inr refl))

after_loop-progress :
    (q : FetchRequest) (size : ℕ) (sizes : List ℕ) (now_wait : ℕ) (e : Ended)
    → q.max_wait_ticks ≤ now_wait
    → Ends q 0 (size ∷ sizes) 0 e
    → 0 < (after_loop q now_wait e).records_returned
unfolding after_loop
after_loop-progress q size sizes now_wait (returned r) over (k, short, count, bytes, why) =
    omega arith
after_loop-progress q size sizes now_wait (left batch total) over
      (k, short, count, bytes, low, st) =
    rw (le→leb q.max_wait_ticks now_wait over) (omega arith)

-- No fetch waits for ever: when the wait is over, or the first record alone is enough or too large,
-- a fetch with something available returns a record at least.
pub plan_fetch-progress :
    (q : FetchRequest) (size : ℕ) (sizes : List ℕ) (now_wait : ℕ)
    → (q.max_wait_ticks ≤ now_wait) ⊎ (q.min_bytes ≤ size) ⊎ (q.max_bytes < size)
    → 0 < (plan_fetch q (size ∷ sizes) now_wait).records_returned
unfolding plan_fetch fetch_loop after_loop
plan_fetch-progress q size sizes now_wait (inl over) =
    after_loop-progress q size sizes now_wait (fetch_loop q [] (size ∷ sizes) 0) over
      (fetch_loop-Ends q [] (size ∷ sizes) 0 (omega arith) (inr refl))
plan_fetch-progress q size sizes now_wait (inr large) = elim (Bool-cases (ltb q.max_bytes size)) [
  | inl over ↦ rw over (omega arith)
  | inr fits ↦
      let many : leb q.min_bytes (0 + size) ≡ true = ground (arith, large, fits) in
      rw (fits, many) (omega arith)
]

-- Enough bytes may be available and be held back all the same: where the first record is not enough
-- and the second would pass the ceiling, the fetch waits for the clock.
pub plan_fetch-held :
    (q : FetchRequest) (a b : ℕ) (sizes : List ℕ) (now_wait : ℕ)
    → a < q.min_bytes
    → a ≤ q.max_bytes
    → q.max_bytes < a + b
    → now_wait < q.max_wait_ticks
    → (plan_fetch q (a ∷ b ∷ sizes) now_wait).reason ≡ holding
unfolding plan_fetch fetch_loop after_loop
plan_fetch-held q a b sizes now_wait few fits full early = ground arith
