-- ===== src/Transactions/Transaction/Verdicts.antt =====
-- A transaction gets one verdict, and keeps it.
use event_stream_broker.Prelude.{
  ℕ, ◌-◌, ◌≡◌, refl, sym, subst, ap, ◌∙◌, ◌⊎◌, inl, inr, Bool, true, false, List, [], ◌∷◌, ◌++◌,
  arith, ltb, if◌then◌else◌, Bool-cases, All, All-append, String,
}
use event_stream_broker.Failure.{ok, err, invalid}
use event_stream_broker.Transactions.Transaction.{
  State, active, committing, committed, aborting, aborted, Transaction, begin, append, commit,
  abort, force_abort_if_expired, contains, add, is_active, allowed, transition,
}

-- A call on the transaction, whatever its result.
pub data Step : Transaction → Transaction → Type 0 where
  appends : (partition offset : ℕ) (t : Transaction) → Step t (append partition offset t).1
  commits : (t : Transaction) → Step t (commit t).1
  aborts : (t : Transaction) → Step t (abort t).1
  expires : (now : ℕ) (t : Transaction) → Step t (force_abort_if_expired now t).1

pub data Reach (t : Transaction) : Transaction → Type 0 where
  here : Reach t t
  next : {u v : Transaction} → Reach t u → Step u v → Reach t v

transition-legal :
    (target : State) (t : Transaction)
    → allowed t.state target ≡ true
    → transition target t ≡ (ok tt, record t { state = target })
unfolding transition
transition-legal target t h = ground (arith, h)

transition-refused :
    (target : State) (t : Transaction)
    → allowed t.state target ≡ false
    → transition target t ≡ (err invalid, t)
unfolding transition
transition-refused target t h = ground (arith, h)

abbrev pub IsSettled : Transaction → Type 0
IsSettled t = (t.state ≡ committed) ⊎ (t.state ≡ aborted)

-- The edges through which a call leaves a transaction, half applied ones not among them.
abbrev pub IsWhole : Transaction → Type 0
IsWhole t = (t.state ≡ active) ⊎ IsSettled t

-- Both halves of a verdict go through from an open transaction, and neither from any other that
-- a call leaves behind.
pub commit-active :
    (t : Transaction) → t.state ≡ active → commit t ≡ (ok tt, record t { state = committed })
unfolding commit allowed
commit-active t h =
    rw (transition-legal committing t (ap (λ s. allowed s committing) h))
      (transition-legal committed (record t { state = committing }) refl)

pub abort-active :
    (t : Transaction) → t.state ≡ active → abort t ≡ (ok tt, record t { state = aborted })
unfolding abort allowed
abort-active t h =
    rw (transition-legal aborting t (ap (λ s. allowed s aborting) h))
      (transition-legal aborted (record t { state = aborting }) refl)

pub commit-settled : (t : Transaction) → IsSettled t → commit t ≡ (err invalid, t)
unfolding commit allowed
commit-settled t h = rw (transition-refused committing t (ground (arith, h)))

pub abort-settled : (t : Transaction) → IsSettled t → abort t ≡ (err invalid, t)
unfolding abort allowed
abort-settled t h = rw (transition-refused aborting t (ground (arith, h)))

abbrev expired : ℕ → Transaction → Bool
expired now t = ltb t.timeout (now - t.opened_at)

force-active :
    (now : ℕ) (t : Transaction)
    → t.state ≡ active
    → force_abort_if_expired now t
      ≡ (if expired now t then (ok true, record t { state = aborted }) else (ok false, t))
unfolding force_abort_if_expired is_active
force-active now t h = elim (Bool-cases (expired now t)) [
  | inl late ↦ simp (h, late) (rw (abort-active t h))
  | inr early ↦ simp (h, early)
]

force-settled :
    (now : ℕ) (t : Transaction) → IsSettled t → force_abort_if_expired now t ≡ (ok false, t)
unfolding force_abort_if_expired is_active
force-settled now t (inl h) = simp h
force-settled now t (inr h) = simp h

append-settled :
    (partition offset : ℕ) (t : Transaction)
    → IsSettled t
    → append partition offset t ≡ (err invalid, t)
unfolding append is_active
append-settled partition offset t (inl h) = simp h
append-settled partition offset t (inr h) = simp h

Step-settled : {t u : Transaction} → IsSettled t → Step t u → u ≡ t
Step-settled h (appends partition offset t) = rw (append-settled partition offset t h)
Step-settled h (commits t) = rw (commit-settled t h)
Step-settled h (aborts t) = rw (abort-settled t h)
Step-settled h (expires now t) = rw (force-settled now t h)

-- Once a transaction is committed or aborted, no call changes it in any way.
pub settled_forever : {t u : Transaction} → IsSettled t → Reach t u → u ≡ t
settled_forever h here = refl
settled_forever {t} h (next path st) =
    let same = settled_forever h path in Step-settled (subst IsSettled (sym same) h) st ∙ same

-- Every record is in a partition that the transaction knows it touched.
abbrev pub IsTracked : Transaction → Type 0
IsTracked t = All (λ (r : ℕ × ℕ). contains r.0 t.partitions_touched ≡ true) t.records

contains-end : (n : ℕ) (ms : List ℕ) → contains n (ms ++ n ∷ []) ≡ true
unfolding contains
contains-end n [] = ground arith
contains-end n (m ∷ ms) = ground (arith, contains-end n ms)

contains-more : (n k : ℕ) (ms : List ℕ) → contains n ms ≡ true → contains n (ms ++ k ∷ []) ≡ true
unfolding contains
contains-more n k [] h = cc
contains-more n k (m ∷ ms) h = ground (arith, h, contains-more n k ms)

contains-add_self : (n : ℕ) (ms : List ℕ) → contains n (add n ms) ≡ true
unfolding add
contains-add_self n ms = ground (arith, contains-end n ms)

contains-add : (n k : ℕ) (ms : List ℕ) → contains n ms ≡ true → contains n (add k ms) ≡ true
unfolding add
contains-add n k ms h = ground (arith, h, contains-more n k ms)

All-contains-add :
    (k : ℕ) (ms : List ℕ) (rs : List (ℕ × ℕ))
    → All (λ (r : ℕ × ℕ). contains r.0 ms ≡ true) rs
    → All (λ (r : ℕ × ℕ). contains r.0 (add k ms) ≡ true) rs
All-contains-add k ms [] h = tt
All-contains-add k ms (r ∷ rs) h = (contains-add r.0 k ms h.0, All-contains-add k ms rs h.1)

abbrev pub IsValid : Transaction → Type 0
IsValid t = IsWhole t × IsTracked t

append-active :
    (partition offset : ℕ) (t : Transaction)
    → t.state ≡ active
    → append partition offset t ≡ (
      ok tt,
      record t {
        partitions_touched = add partition t.partitions_touched;
        records = t.records ++ (partition, offset) ∷ [];
      },
    )
unfolding append is_active
append-active partition offset t h = simp h

Step-active : {t u : Transaction} → t.state ≡ active → IsTracked t → Step t u → IsValid u
Step-active h k (appends partition offset t) = rw (append-active partition offset t h) (
  inl h,
  All-append _ t.records ((partition, offset) ∷ [])
      (All-contains-add partition t.partitions_touched t.records k)
      (contains-add_self partition t.partitions_touched, tt),
)
Step-active h k (commits t) = rw (commit-active t h) (inr (inl refl), k)
Step-active h k (aborts t) = rw (abort-active t h) (inr (inr refl), k)
Step-active h k (expires now t) = rw (force-active now t h) (elim (Bool-cases (expired now t)) [
  | inl late ↦ rw late (inr (inr refl), k)
  | inr early ↦ rw early (inl h, k)
])

Step-IsValid : {t u : Transaction} → IsValid t → Step t u → IsValid u
Step-IsValid (inl h, k) st = Step-active h k st
Step-IsValid (inr h, k) st = subst IsValid (sym (Step-settled h st)) (inr h, k)

-- Whatever calls a new transaction receives, it is open, committed or aborted and never half
-- applied, and each of its records is in a partition that will get the marker.
pub Reach-IsValid :
    (txn_id : String) (opened_at timeout : ℕ) {t : Transaction}
    → Reach (begin txn_id opened_at timeout) t
    → IsValid t
unfolding begin
Reach-IsValid txn_id opened_at timeout path = go path
  where
    go : {u : Transaction} → Reach (begin txn_id opened_at timeout) u → IsValid u
    go here = (inl refl, tt)
    go (next path st) = Step-IsValid (go path) st
