-- ===== src/Requests/Purgatory/Reaping.antt =====
-- What a sweep completes and what a reap takes out, counted.
use event_stream_broker.Prelude.{
  ℕ, ◌+◌, ◌≡◌, refl, ap, ◌∙◌, ◌⊎◌, inl, inr, Bool, true, false, not, none, some, List, [], ◌∷◌,
  ◌++◌, String, string_eq, ◌==◌, ==_iff, arith, keep, length, length-append, Bool-cases,
  Option-cases,
}
use event_stream_broker.Prelude.Sets.{Distinct}
use event_stream_broker.Dict.{Dict, keys, get, put, get-put, get-remove}
use event_stream_broker.Dict.Weights.{
  total, total-put_new, total-put_old, total-remove, Distinct-put, Distinct-remove,
}
use event_stream_broker.Requests.Purgatory.{
  DelayedRequest, Outcome, timeout, satisfied, or_empty, is_empty, sweep, sweep_at, sweep_each,
  reap, reap_each,
}

abbrev pub Requests : Type 0
Requests = Dict String (List DelayedRequest)

abbrev pub waiting : List DelayedRequest → List DelayedRequest
waiting = keep (λ r. not r.completed)

-- The requests that wait under a key.
abbrev pub open_ : List DelayedRequest → ℕ
open_ rs = length (waiting rs)

pub open-append : (rs ss : List DelayedRequest) → open_ (rs ++ ss) ≡ open_ rs + open_ ss
open-append [] ss = omega arith
open-append (r ∷ rs) ss = ground (arith, open-append rs ss)

waiting_again : (rs : List DelayedRequest) → open_ (waiting rs) ≡ open_ rs
waiting_again [] = refl
waiting_again (r ∷ rs) = ground (arith, waiting_again rs)

pub sweep-open :
    (due : DelayedRequest → Bool) (how : Outcome) (rs : List DelayedRequest)
    → open_ (sweep due how rs).0 + length (sweep due how rs).1 ≡ open_ rs
unfolding sweep
sweep-open due how [] = omega arith
sweep-open due how (r ∷ rs) = ground (arith, sweep-open due how rs)

pub sweep_at-none :
    (key : String) (due : DelayedRequest → Bool) (d : Requests)
    → get key d ≡ none
    → sweep_at key due d ≡ (d, [])
unfolding sweep_at
sweep_at-none key due d absent = rw (absent, sweep_at) refl

pub sweep_at-some :
    (key : String) (due : DelayedRequest → Bool) (d : Requests) {rs : List DelayedRequest}
    → get key d ≡ some rs
    → sweep_at key due d ≡ (put key (sweep due satisfied rs).0 d, (sweep due satisfied rs).1)
unfolding sweep_at
sweep_at-some key due d there = rw (there, sweep_at) refl

pub sweep_at-open :
    (key : String) (due : DelayedRequest → Bool) (d : Requests)
    → total open_ (sweep_at key due d).0 + length (sweep_at key due d).1 ≡ total open_ d
sweep_at-open key due d = elim (Option-cases (get key d)) [
  | inl absent ↦ rw (sweep_at-none key due d absent) (omega arith)
  | inr (rs, there) ↦ rw (sweep_at-some key due d there) (
      omega (
        arith,
        sweep-open due satisfied rs,
        total-put_old open_ key (sweep due satisfied rs).0 rs d there,
      ))
]

pub sweep_each-open :
    (due : DelayedRequest → Bool) (d : Requests)
    → total open_ (sweep_each due d).0 + length (sweep_each due d).1 ≡ total open_ d
unfolding sweep_each total
sweep_each-open due [] = omega arith
sweep_each-open due ((key, rs) ∷ d) = omega (
  arith,
  sweep-open due timeout rs,
  sweep_each-open due d,
  length-append (sweep due timeout rs).1 (sweep_each due d).1,
)

put-waiting-open :
    (key : String) (d : Requests)
    → total open_ (put key (waiting (or_empty (get key d))) d) ≡ total open_ d
put-waiting-open key d = elim (Option-cases (get key d)) [
  | inl absent ↦ rw absent (omega (arith, total-put_new open_ key [] d absent))
  | inr (rs, there) ↦
      rw there (omega (arith, total-put_old open_ key (waiting rs) rs d there, waiting_again rs))
]

is_empty-nil : (rs : List DelayedRequest) → is_empty rs ≡ true → rs ≡ []
is_empty-nil [] h = refl
is_empty-nil (r ∷ rs) h = cc

get-put_at :
    (key : String) (rs : List DelayedRequest) (d : Requests) → get key (put key rs d) ≡ some rs
get-put_at key rs d = ground (arith, get-put key key rs d, ==_iff key key)

-- A reap loses no request that waits.
pub reap-open :
    (key : String) (d : Requests) → Distinct (keys d) → total open_ (reap key d) ≡ total open_ d
unfolding reap
reap-open key d distinct =
    let left = waiting (or_empty (get key d)) in
    elim (Bool-cases (is_empty left)) [
      | inl gone ↦
          let none_ : open_ left ≡ 0 = ap open_ (is_empty-nil left gone) in
          rw gone (
            omega (
              arith,
              none_,
              put-waiting-open key d,
              total-remove open_ key left (put key left d) (Distinct-put key left d distinct)
                  (get-put_at key left d),
            ))
      | inr more ↦ rw more (put-waiting-open key d)
    ]

pub reap-Distinct : (key : String) (d : Requests) → Distinct (keys d) → Distinct (keys (reap key d))
unfolding reap
reap-Distinct key d distinct =
    let left = waiting (or_empty (get key d)) in
    elim (Bool-cases (is_empty left)) [
      | inl gone ↦ rw gone (Distinct-remove key (put key left d) (Distinct-put key left d distinct))
      | inr more ↦ rw more (Distinct-put key left d distinct)
    ]

pub reap_each-open :
    (ks : List String) (d : Requests)
    → Distinct (keys d)
    → (total open_ (reap_each ks d) ≡ total open_ d) × Distinct (keys (reap_each ks d))
unfolding reap_each
reap_each-open [] d distinct = (refl, distinct)
reap_each-open (key ∷ ks) d distinct =
    let (same, rest) = reap_each-open ks (reap key d) (reap-Distinct key d distinct) in
    (same ∙ reap-open key d distinct, rest)

-- What is found after a reap is what waits under the key, or as it was.
pub get-reap :
    (key j : String) (d : Requests) {rs : List DelayedRequest}
    → get j (reap key d) ≡ some rs
    → (((key == j) ≡ true) × (rs ≡ waiting (or_empty (get key d))))
      ⊎ (((key == j) ≡ false) × (get j d ≡ some rs))
unfolding reap
get-reap key j d {rs} at =
    let left = waiting (or_empty (get key d)) in
    ground (arith, at, get-put key j left d, get-remove key j (put key left d))
