-- ===== src/Transactions/Coordinator/Fencing.antt =====
-- A producer whose epoch was passed is refused from then on, and its transactions do not overlap.
use event_stream_broker.Prelude.{
  ℕ, ◌+◌, ◌<◌, ◌≡◌, ◌∙◌, ◌⊎◌, inl, inr, Bool, true, false, not, some, String, arith, ltb, string_eq,
  if◌then◌else◌, Bool-cases, Option-cases,
}
use event_stream_broker.Failure.{ok, err, invalid, fenced}
use event_stream_broker.Dict.{get, put, get-put_self}
use event_stream_broker.Transactions.Coordinator.{
  ProducerTxnState, TransactionCoordinator, register, begin, complete, timeout_abort,
}
use event_stream_broker.Transactions.Coordinator.Epochs.{
  Reach, Past, live-some, live-none, Reach-Past,
}

fenced-begin :
    (id : String) (e : ℕ) (c : TransactionCoordinator)
    → Past id e c
    → begin id e c ≡ (err fenced, record c { zombies_fenced = c.zombies_fenced + 1 })
unfolding begin
fenced-begin id e c h =
    let behind : ltb e h.state.epoch ≡ true = ground (arith, h.above) in
    rw (live-some id e h.state c h.found) (rw behind)

fenced-complete :
    (id : String) (e : ℕ) (commit : Bool) (c : TransactionCoordinator)
    → Past id e c
    → complete id e commit c ≡ (err fenced, record c { zombies_fenced = c.zombies_fenced + 1 })
unfolding complete
fenced-complete id e commit c h =
    let behind : ltb e h.state.epoch ≡ true = ground (arith, h.above) in
    rw (live-some id e h.state c h.found) (rw behind)

register-Past :
    (id : String) (e n : ℕ) (c : TransactionCoordinator)
    → (register id c).0 ≡ ok n
    → e < n
    → Past id e (register id c).1
unfolding register
register-Past id e n c bumped below = elim (Option-cases (get id c.producers)) [
  | inl absent ↦ absurd (ground (arith, below, rw absent at bumped))
  | inr (s, at) ↦ rw at (record {
    state = record s { epoch = s.epoch + 1; open_txn = false };
    found = get-put_self id (record s { epoch = s.epoch + 1; open_txn = false }) c.producers;
    above = ground (arith, below, rw at at bumped);
  })
]

timeout-Past :
    (id : String) (e n : ℕ) (c : TransactionCoordinator)
    → (timeout_abort id c).0 ≡ ok n
    → e < n
    → Past id e (timeout_abort id c).1
unfolding timeout_abort
timeout-Past id e n c bumped below = elim (Option-cases (get id c.producers)) [
  | inl absent ↦ cc (rw absent at bumped)
  | inr (s, at) ↦ elim (Bool-cases s.open_txn) [
    | inr closed ↦ cc (simp (at, closed) at bumped)
    | inl opened ↦
        simp (at, opened)
          (record {
            state = record s { open_txn = false; epoch = s.epoch + 1 };
            found =
                get-put_self id (record s { open_txn = false; epoch = s.epoch + 1 }) c.producers;
            above = ground (arith, below, simp (at, opened) at bumped);
          })
  ]
]

-- Once a registration or a timeout has given a producer epoch `n`, a call at any epoch below `n` is
-- fenced and counted, and changes nothing else, whatever calls come between.
pub fenced_forever :
    (id : String) (e n : ℕ) (commit : Bool) (c : TransactionCoordinator)
    {d : TransactionCoordinator}
    → e < n
    → (((register id c).0 ≡ ok n) × Reach (register id c).1 d)
      ⊎ (((timeout_abort id c).0 ≡ ok n) × Reach (timeout_abort id c).1 d)
    → (begin id e d ≡ (err fenced, record d { zombies_fenced = d.zombies_fenced + 1 }))
      × (complete id e commit d ≡ (err fenced, record d { zombies_fenced = d.zombies_fenced + 1 }))
fenced_forever id e n commit c {d} below (inl (bumped, path)) =
    let h = Reach-Past (register-Past id e n c bumped below) path in
    (fenced-begin id e d h, fenced-complete id e commit d h)
fenced_forever id e n commit c {d} below (inr (bumped, path)) =
    let h = Reach-Past (timeout-Past id e n c bumped below) path in
    (fenced-begin id e d h, fenced-complete id e commit d h)

abbrev entered : String → ProducerTxnState → TransactionCoordinator → TransactionCoordinator
entered id s c = record c { producers = put id s c.producers }

begin-at :
    (id : String) (epoch : ℕ) (s : ProducerTxnState) (c : TransactionCoordinator)
    → get id c.producers ≡ some s
    → ltb epoch s.epoch ≡ false
    → begin id epoch c ≡ (
        if s.open_txn
        then (err invalid, c)
        else (ok tt, entered id (record s { open_txn = true }) c))
unfolding begin
begin-at id epoch s c at current = rw (live-some id epoch s c at) (rw current)

complete-at :
    (id : String) (epoch : ℕ) (commit : Bool) (s : ProducerTxnState) (c : TransactionCoordinator)
    → get id c.producers ≡ some s
    → ltb epoch s.epoch ≡ false
    → complete id epoch commit c ≡ (
        if not s.open_txn
        then (err invalid, c)
        else (ok tt, entered id (record s { open_txn = false }) c))
unfolding complete
complete-at id epoch commit s c at current = rw (live-some id epoch s c at) (rw current)

begin-ok :
    (id : String) (epoch : ℕ) (c : TransactionCoordinator)
    → (begin id epoch c).0 ≡ ok tt
    → (s : ProducerTxnState) × (get id c.producers ≡ some s)
      × (ltb epoch s.epoch ≡ false)
      × (s.open_txn ≡ false)
unfolding begin
begin-ok id epoch c began = elim (Option-cases (get id c.producers)) [
  | inl absent ↦ cc (rw (live-none id epoch c absent) at began)
  | inr (s, at) ↦
      let began' = rw (live-some id epoch s c at) at began in
      elim (Bool-cases (ltb epoch s.epoch)) [
        | inl behind ↦ cc (rw behind at began')
        | inr current ↦ elim (Bool-cases s.open_txn) [
          | inl opened ↦ cc (simp (current, opened) at began')
          | inr closed ↦ (s, at, current, closed)
        ]
      ]
]

-- A producer has one transaction at a time: after it began one, at the same epoch a second is
-- refused and a completion goes through, after which another completion is refused.
pub begin-complete :
    (id : String) (epoch : ℕ) (commit commit' : Bool) (c : TransactionCoordinator)
    → (begin id epoch c).0 ≡ ok tt
    → let c₁ = (begin id epoch c).1 in
      let c₂ = (complete id epoch commit c₁).1 in
      (begin id epoch c₁ ≡ (err invalid, c₁))
      × ((complete id epoch commit c₁).0 ≡ ok tt)
      × (complete id epoch commit' c₂ ≡ (err invalid, c₂))
begin-complete id epoch commit commit' c began =
    let (s, at, current, closed) = begin-ok id epoch c began in
    let c₁ = entered id (record s { open_txn = true }) c in
    let c₂ = entered id (record s { open_txn = false }) c₁ in
    let at₁ = get-put_self id (record s { open_txn = true }) c.producers in
    let at₂ = get-put_self id (record s { open_txn = false }) c₁.producers in
    let first : begin id epoch c ≡ (ok tt, c₁) = begin-at id epoch s c at current ∙ rw closed in
    let done : complete id epoch commit c₁ ≡ (ok tt, c₂) =
      complete-at id epoch commit (record s { open_txn = true }) c₁ at₁ current in
    rw first (
      begin-at id epoch (record s { open_txn = true }) c₁ at₁ current,
      rw done,
      rw done (complete-at id epoch commit' (record s { open_txn = false }) c₂ at₂ current),
    )
