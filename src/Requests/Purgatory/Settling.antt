-- ===== src/Requests/Purgatory/Settling.antt =====
-- What a sweep spares, and what is left when the completed requests are reaped.
use event_stream_broker.Prelude.{
  ◌≡◌, refl, sym, ap, ◌∙◌, subst, inl, inr, Bool, false, not, ◌&&◌, some, List, [], ◌∷◌, String,
  string_eq, ◌==◌, arith, All, All-mono, All-keep, Bool-cases, Option-cases,
}
use mathlib.Core.Option.{some-injective}
use event_stream_broker.Prelude.Sets.{mem, Distinct}
use event_stream_broker.Dict.{get-put_self, get-put_ne, keys, values, get}
use event_stream_broker.Dict.Weights.{Distinct-put}
use event_stream_broker.Requests.Purgatory.{
  DelayedRequest, Outcome, timeout, satisfied, or_empty, sweep, sweep_at, sweep_each, reap,
  reap_each,
}
use event_stream_broker.Requests.Purgatory.Reaping.{
  Requests, waiting, sweep_at-none, sweep_at-some, get-reap,
}

-- Whatever is found under a key.
abbrev pub Everywhere : (DelayedRequest → Type 0) → Requests → Type 0
Everywhere R d = (j : String) (rs : List DelayedRequest) → get j d ≡ some rs → All R rs

abbrev pub Waits : DelayedRequest → Type 0
Waits r = r.completed ≡ false

-- Not due, unless it is completed.
abbrev pub Spared : (DelayedRequest → Bool) → DelayedRequest → Type 0
Spared due r = r.completed ≡ false → due r ≡ false

pub sweep-Spared :
    (due : DelayedRequest → Bool) (how : Outcome) (rs : List DelayedRequest)
    → All (Spared due) (sweep due how rs).0
unfolding sweep
sweep-Spared due how [] = tt
sweep-Spared due how (r ∷ rs) = elim (Bool-cases (not r.completed && due r)) [
  | inl yes_ ↦ rw yes_ ((λ h. cc), sweep-Spared due how rs)
  | inr no_ ↦ rw no_ ((λ h. ground (arith, no_, h)), sweep-Spared due how rs)
]

pub sweep_each-Spared :
    (due : DelayedRequest → Bool) (d : Requests)
    → All (All (Spared due)) (values (sweep_each due d).0)
unfolding sweep_each
sweep_each-Spared due [] = tt
sweep_each-Spared due ((key, rs) ∷ d) = (sweep-Spared due timeout rs, sweep_each-Spared due d)

pub sweep_each-keys :
    (due : DelayedRequest → Bool) (d : Requests) → keys (sweep_each due d).0 ≡ keys d
unfolding sweep_each
sweep_each-keys due [] = refl
sweep_each-keys due ((key, rs) ∷ d) = ap (λ ks. key ∷ ks) (sweep_each-keys due d)

pub waiting-All :
    (R : DelayedRequest → Type 0) (d : Requests) (key : String)
    → ((rs : List DelayedRequest) → get key d ≡ some rs → All R rs)
    → All (λ r. R r × Waits r) (waiting (or_empty (get key d)))
waiting-All R d key h = elim (Option-cases (get key d)) [
  | inl absent ↦ rw absent tt
  | inr (rs, there) ↦ rw there (
      All-mono (waiting rs) (λ r k. (k.1, ground (arith, k.0)))
        (All-keep R (λ r. not r.completed) rs (h rs there)))
]

pub reap-Everywhere :
    (R : DelayedRequest → Type 0) (key : String) (d : Requests)
    → Everywhere R d
    → Everywhere R (reap key d)
reap-Everywhere R key d h j rs at = elim (get-reap key j d at) [
  | inl (_, is) ↦ subst (All R) (sym is) (All-mono _ (λ r k. k.0) (waiting-All R d key (h key)))
  | inr (_, old) ↦ h j rs old
]

All-both :
    (P Q : DelayedRequest → Type 0) (rs : List DelayedRequest)
    → All P rs
    → All Q rs
    → All (λ r. P r × Q r) rs
All-both P Q [] h k = tt
All-both P Q (r ∷ rs) h k = ((h.0, k.0), All-both P Q rs h.1 k.1)

-- What is left when every key has been reaped waits.
pub reap_each-Everywhere :
    (R : DelayedRequest → Type 0) (ks : List String) (d : Requests)
    → Everywhere R d
    → ((j : String) (rs : List DelayedRequest)
        → mem j ks ≡ false
        → get j d ≡ some rs
        → All Waits rs)
    → Everywhere (λ r. R r × Waits r) (reap_each ks d)
unfolding reap_each mem
reap_each-Everywhere R [] d h k j rs at = All-both R Waits rs (h j rs at) (k j rs refl at)
reap_each-Everywhere R (key ∷ ks) d h k j rs at =
    reap_each-Everywhere R ks (reap key d) (reap-Everywhere R key d h) still j rs at
  where
    still :
        (i : String) (ss : List DelayedRequest)
        → mem i ks ≡ false
        → get i (reap key d) ≡ some ss
        → All Waits ss
    still i ss out found = elim (get-reap key i d found) [
      | inl (_, is) ↦
          subst (All Waits) (sym is) (All-mono _ (λ r w. w.1) (waiting-All R d key (h key)))
      | inr (other, old) ↦ k i ss (rw other out) old
    ]

pub sweep_at-Spared :
    (key : String) (due : DelayedRequest → Bool) (d : Requests) (rs : List DelayedRequest)
    → get key (sweep_at key due d).0 ≡ some rs
    → All (Spared due) rs
sweep_at-Spared key due d rs at = elim (Option-cases (get key d)) [
  | inl absent ↦ absurd (cc (absent, rw (sweep_at-none key due d absent) at at))
  | inr (ss, there) ↦
      let found = rw (sweep_at-some key due d there) at at in
      let is = some-injective _ _ (sym (get-put_self key (sweep due satisfied ss).0 d) ∙ found) in
      subst (All (Spared due)) is (sweep-Spared due satisfied ss)
]

pub sweep_at-other :
    (key j : String) (due : DelayedRequest → Bool) (d : Requests)
    → (key == j) ≡ false
    → get j (sweep_at key due d).0 ≡ get j d
sweep_at-other key j due d other = elim (Option-cases (get key d)) [
  | inl absent ↦ rw (sweep_at-none key due d absent) refl
  | inr (ss, there) ↦
      rw (sweep_at-some key due d there) (get-put_ne key j (sweep due satisfied ss).0 d other)
]

pub sweep_at-Distinct :
    (key : String) (due : DelayedRequest → Bool) (d : Requests)
    → Distinct (keys d)
    → Distinct (keys (sweep_at key due d).0)
sweep_at-Distinct key due d h = elim (Option-cases (get key d)) [
  | inl absent ↦ rw (sweep_at-none key due d absent) h
  | inr (ss, there) ↦
      rw (sweep_at-some key due d there) (Distinct-put key (sweep due satisfied ss).0 d h)
]
