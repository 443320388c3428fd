-- ===== src/Access/Authorizer/Decisions.antt =====
-- A request is allowed by a rule and by no rule denied; every denial is on the log.
use event_stream_broker.Prelude.{
  ◌-◌, ◌≡◌, refl, sym, ap, ◌∙◌, subst, ◌⊎◌, inl, inr, ◌↔◌, Bool, true, false, not, ◌&&◌, some, List,
  [], ◌∷◌, ◌++◌, String, bytes_eq, nat_beq, arith, Bool-cases, length, take, get_elem?, get_last?,
  any-cases, any-keep, All, All-mono, Mem, Mem-All, get_elem?-append_left, get_elem?-append_right,
  lt-length_of_get_elem?, length-append, take_all,
}
use event_stream_broker.Failure.{ok}
use event_stream_broker.Log.Records.{Text}
use event_stream_broker.Access.Authorizer.{
  Rule, Authorizer, star, starts_with, ends_with_star, resource_match, matches, add, is_operation,
  grant, deny, log_denial, allowed, authorize,
}

-- What a decision on a request means, with the authorizer after it.
abbrev pub Decided : String → String → Text → Authorizer → Bool × Authorizer → Type 0
Decided p o s a (true, a') =
    (a' ≡ a)
    × ((r : Rule) × Mem r a.rules × (matches p o s r ≡ true) × (r.allow ≡ true))
    × All (λ r. matches p o s r ≡ true → r.allow ≡ true) a.rules
Decided p o s a (false, a') =
    (a'.rules ≡ a.rules)
    × (a'.denials_logged ≡ a.denials_logged ++ (p, o, s) ∷ [])
    × (((r : Rule) × Mem r a.rules × (matches p o s r ≡ true) × (r.allow ≡ false))
        ⊎ All (λ r. matches p o s r ≡ true → r.allow ≡ false) a.rules)

-- A request is allowed exactly if a rule that matches it allows it and none denies it, and then
-- nothing changes. Otherwise it is denied, by a rule or for want of one; the rules stay, and the
-- log of denials has one more entry at its end, the request.
pub allowed-Decided : (p o : String) (s : Text) (a : Authorizer) → Decided p o s a (allowed p o s a)
unfolding allowed log_denial
allowed-Decided p o s a =
    let m = matches p o s in
    let denies = any-keep m (λ r. not r.allow) a.rules in
    let allows = any-keep m (λ r. r.allow) a.rules in
    elim (any-cases (λ r. m r && not r.allow) a.rules) [
      | inl (found, r, i, at, is) ↦
          rw (denies, found) (refl, refl, inl (r, (i, at), ground (arith, is), ground (arith, is)))
      | inr (none_, fine) ↦ elim (any-cases (λ r. m r && r.allow) a.rules) [
        | inl (found, r, i, at, is) ↦
            rw (denies, none_, allows, found)
              (
                refl,
                (r, (i, at), ground (arith, is), ground (arith, is)),
                All-mono a.rules (λ r k matched. ground (arith, k, matched)) fine,
              )
        | inr (nothing, unmatched) ↦
            rw (denies, none_, allows, nothing)
              (
                refl,
                refl,
                inr (All-mono a.rules (λ r k matched. ground (arith, k, matched)) unmatched),
              )
      ]
    ]

pub data Call : Type 0 where
  grants denies authorizes : String → String → Text → Call

abbrev pub answer : Call → Authorizer → Authorizer
answer (grants p o s) a = (grant p o s a).1
answer (denies p o s) a = (deny p o s a).1
answer (authorizes p o s) a = (authorize p o s a).1

abbrev pub run : List Call → Authorizer → Authorizer
run [] a = a
run (c ∷ cs) a = run cs (answer c a)

add-keeps :
    (p o : String) (s : Text) (yes_ : Bool) (a : Authorizer) {r : Rule}
    → Mem r a.rules
    → Mem r (add p o s yes_ a).1.rules
unfolding add
add-keeps p o s yes_ a (i, at) = elim (Bool-cases (is_operation o)) [
  | inl known ↦
      rw known (i, get_elem?-append_left a.rules _ i (lt-length_of_get_elem? a.rules i at) ∙ at)
  | inr unknown ↦ rw unknown (i, at)
]

authorize-rules : (p o : String) (s : Text) (a : Authorizer) → (authorize p o s a).1.rules ≡ a.rules
unfolding authorize allowed log_denial
authorize-rules p o s a = ground arith

answer-keeps : (c : Call) (a : Authorizer) {r : Rule} → Mem r a.rules → Mem r (answer c a).rules
unfolding grant deny
answer-keeps (grants p o s) a h = add-keeps p o s true a h
answer-keeps (denies p o s) a h = add-keeps p o s false a h
answer-keeps (authorizes p o s) a {r} h = subst (Mem r) (sym (authorize-rules p o s a)) h

run-keeps : (cs : List Call) (a : Authorizer) {r : Rule} → Mem r a.rules → Mem r (run cs a).rules
run-keeps [] a h = h
run-keeps (c ∷ cs) a h = run-keeps cs (answer c a) (answer-keeps c a h)

Decided-denied :
    (p o : String) (s : Text) (a : Authorizer) (d : Bool × Authorizer) (r : Rule)
    → Decided p o s a d
    → Mem r a.rules
    → matches p o s r ≡ true
    → r.allow ≡ false
    → d.0 ≡ false
Decided-denied p o s a (true, a') r h at matched no_ =
    absurd (cc (Mem-All (λ r. matches p o s r ≡ true → r.allow ≡ true) a.rules at h.2 matched, no_))
Decided-denied p o s a (false, a') r h at matched no_ = refl

-- The rule that `deny` adds.
abbrev pub denial : String → String → Text → Rule
denial p o s = record { principal = p; operation = o; resource = s; allow = false }

deny-adds :
    (p o : String) (s : Text) (a : Authorizer)
    → (deny p o s a).0 ≡ ok tt
    → Mem (denial p o s) (deny p o s a).1.rules
unfolding deny add
deny-adds p o s a accepted = elim (Bool-cases (is_operation o)) [
  | inl known ↦
      let here_ : length a.rules - length a.rules ≡ 0 = omega arith in
      rw known (
        length a.rules,
        get_elem?-append_right a.rules (denial p o s ∷ []) (length a.rules) (omega arith)
            ∙ ap (get_elem? (denial p o s ∷ [])) here_,
      )
  | inr unknown ↦ absurd (cc (rw unknown at accepted))
]

-- Once a denial is in force, every request that it matches is denied, whatever is granted later.
pub denied_forever :
    (dp d : String) (pattern_ : Text) (a : Authorizer) (cs : List Call) (p o : String) (s : Text)
    → (deny dp d pattern_ a).0 ≡ ok tt
    → matches p o s (denial dp d pattern_) ≡ true
    → (allowed p o s (run cs (deny dp d pattern_ a).1)).0 ≡ false
denied_forever dp d pattern_ a cs p o s accepted matched =
    let b = run cs (deny dp d pattern_ a).1 in
    let there = run-keeps cs (deny dp d pattern_ a).1 (deny-adds dp d pattern_ a accepted) in
    Decided-denied p o s b (allowed p o s b) (denial dp d pattern_) (allowed-Decided p o s b) there
      matched refl

starts-append : (front rest : Text) → starts_with front (front ++ rest) ≡ true
unfolding starts_with
starts-append [] rest = refl
starts-append (c ∷ cs) rest =
    let same : nat_beq c c ≡ true = ground arith in rw same (starts-append cs rest)

starts-split : (front s : Text) → starts_with front s ≡ true → (rest : Text) × (s ≡ front ++ rest)
unfolding starts_with
starts-split [] s h = (s, refl)
starts-split (c ∷ cs) [] h = cc
starts-split (c ∷ cs) (d ∷ s) h = elim (Bool-cases (nat_beq c d)) [
  | inl same ↦
      let (rest, is) = starts-split cs s (rw same at h) in
      let letter : d ≡ c = ground (arith, same) in (rest, cc (letter, is))
  | inr other ↦ absurd (cc (rw other at h))
]

last_star : (front : Text) → get_last? (front ++ star ∷ []) ≡ some star
last_star [] = refl
last_star (c ∷ []) = refl
last_star (c ∷ d ∷ cs) = last_star (d ∷ cs)

ends_star : (front : Text) → ends_with_star (front ++ star ∷ []) ≡ true
unfolding ends_with_star
ends_star front = rw (last_star front, ends_with_star) refl

take_front : (front : Text) → take (length (front ++ star ∷ []) - 1) (front ++ star ∷ []) ≡ front
take_front front =
    let size : length (front ++ star ∷ []) - 1 ≡ length front =
      omega (arith, length-append front (star ∷ [])) in
    rw size (take_all front (star ∷ []))

-- A pattern that ends in a star matches exactly the resources that begin with what is before it.
pub resource_match_iff :
    (front s : Text)
    → (resource_match (front ++ star ∷ []) s ≡ true) ↔ ((rest : Text) × (s ≡ front ++ rest))
unfolding resource_match
resource_match_iff front s =
    rw (ends_star front, take_front front)
      ((λ h. starts-split front s h), (λ (rest, is). rw is (starts-append front rest)))
