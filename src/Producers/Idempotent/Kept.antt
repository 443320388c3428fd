-- ===== src/Producers/Idempotent/Kept.antt =====
-- What the calls that reach the gate keep: its invariant, and the offset of an accepted record.
use event_stream_broker.Prelude.{
  ℕ, ◌≡◌, refl, sym, ap, subst, ◌∙◌, ◌⊎◌, inl, inr, false, none, some, String, arith, nat_eq,
  string_eq, nat_beq, Bool-cases, Option-cases, ◌==◌, ==_iff,
}
use mathlib.Core.Option.{some-injective}
use event_stream_broker.Prelude.Int.{pos}
use event_stream_broker.Failure.{Result, err, invalid}
use event_stream_broker.Dict.{get, put, get-put, get-put-some, get-put_self, get-put_ne}
use event_stream_broker.Producers.Idempotent.{
  ProducerSession, IdempotencyGate, new_session, open_session, Answer, admit,
}
use event_stream_broker.Producers.Idempotent.Sessions.{
  count, IsSession, IsGate, Admits, admit-Admits,
}

abbrev pub grown : ProducerSession → ℕ → ProducerSession
grown s offset = record s {
  last_sequence = pos (count s.last_sequence);
  accepted_offsets = put (count s.last_sequence) offset s.accepted_offsets;
}

pub grown-IsSession : (s : ProducerSession) (offset : ℕ) → IsSession s → IsSession (grown s offset)
grown-IsSession s offset h = record {
  begins = λ n e. cc;
  seen = λ q below. elim (Bool-cases (nat_beq (count s.last_sequence) q)) [
    | inl last ↦
        (offset, rw (get-put (count s.last_sequence) q offset s.accepted_offsets) (rw last))
    | inr older ↦
        let (o, found) = h.seen q (ground (arith, older, below)) in
        (o, rw (get-put (count s.last_sequence) q offset s.accepted_offsets) (rw older found))
  ];
  unseen = λ q above. ground (
    arith,
    above,
    get-put (count s.last_sequence) q offset s.accepted_offsets,
    h.unseen q (omega arith),
  );
}

pub new_session-IsSession : (p : String) (epoch : ℕ) → IsSession (new_session p epoch)
unfolding get
new_session-IsSession p epoch = record {
  begins = λ n e. ground (arith, e);
  seen = λ q below. elim below [ ];
  unseen = λ q above. refl;
}

pub put-IsGate :
    (p : String) (s : ProducerSession) (g : IdempotencyGate)
    → IsGate g
    → IsSession s
    → IsGate (record g { sessions = put p s g.sessions })
put-IsGate p s g h valid = record {
  session = λ q t at. elim (get-put-some p q s g.sessions at) [
    | inl (_, same) ↦ subst IsSession same valid
    | inr (_, older) ↦ h.session q t older
  ];
}

-- The epoch of an open session, and the offset that it has for a sequence number.
pub record Holds (p : String) (e sequence offset : ℕ) (g : IdempotencyGate) : Type 0 where
  pub session : ProducerSession
  pub found : get p g.sessions ≡ some session
  pub since : session.epoch ≡ e
  pub at : get sequence session.accepted_offsets ≡ some offset

-- Calls that reach the gate: records to admit, and sessions opened by other producers.
pub data Step (p : String) : IdempotencyGate → IdempotencyGate → Type 0 where
  admits :
      (q : String) (epoch sequence offset : ℕ) (g : IdempotencyGate)
      → Step p g (admit q epoch sequence offset g).1
  opens :
      (q : String) (epoch : ℕ) (g : IdempotencyGate)
      → (q == p) ≡ false
      → Step p g (open_session q epoch g).1

pub data Reach (p : String) (g : IdempotencyGate) : IdempotencyGate → Type 0 where
  here : Reach p g g
  next : {h k : IdempotencyGate} → Reach p g h → Step p h k → Reach p g k

accept-Holds :
    (p q : String) (s : ProducerSession) (e sequence offset o : ℕ) (g : IdempotencyGate)
    → IsGate g
    → get q g.sessions ≡ some s
    → Holds p e sequence o g
    → Holds p e sequence o (record g { sessions = put q (grown s offset) g.sessions })
accept-Holds p q s e sequence offset o g valid at h = elim (Bool-cases (q == p)) [
  | inr other ↦ record {
    session = h.session;
    found = get-put_ne q p (grown s offset) g.sessions other ∙ h.found;
    since = h.since;
    at = h.at;
  }
  | inl same ↦
      let same_id : q ≡ p = (==_iff q p).0 same in
      let s_eq : s ≡ h.session =
        some-injective _ _ (sym at ∙ ap (λ k. get k g.sessions) same_id ∙ h.found) in
      let held : get sequence s.accepted_offsets ≡ some o =
        ap (λ (t : ProducerSession). get sequence t.accepted_offsets) s_eq ∙ h.at in
      let fresh : nat_beq (count s.last_sequence) sequence ≡ false =
        ground (arith, held, (valid.session q s at).unseen sequence) in
      record {
        session = grown s offset;
        found =
            subst (λ k. get k (put q (grown s offset) g.sessions) ≡ some (grown s offset)) same_id
              (get-put_self q (grown s offset) g.sessions);
        since = ap ProducerSession.epoch s_eq ∙ h.since;
        at = get-put_ne (count s.last_sequence) sequence offset s.accepted_offsets fresh ∙ held;
      }
]

-- What a call of `admit` does to the sessions: nothing, or one more record in the session found.
admit-none :
    (q : String) (epoch sequence offset : ℕ) (g : IdempotencyGate)
    → get q g.sessions ≡ none
    → admit q epoch sequence offset g ≡ (err invalid, g)
unfolding admit
admit-none q epoch sequence offset g none_open = rw none_open

abbrev Moves : String → ℕ → IdempotencyGate → IdempotencyGate → Type 0
Moves q offset g g' =
    (g'.sessions ≡ g.sessions)
    ⊎ ((s : ProducerSession) × (get q g.sessions ≡ some s)
        × (g'.sessions ≡ put q (grown s offset) g.sessions))

Admits-Moves :
    (q : String) (s : ProducerSession) (epoch n offset : ℕ) (g g' : IdempotencyGate)
    (r : Result Answer)
    → get q g.sessions ≡ some s
    → Admits q s epoch n offset g (r, g')
    → Moves q offset g g'
Admits-Moves q s epoch n offset g g' r at (inl h) = inl (ap IdempotencyGate.sessions h.2)
Admits-Moves q s epoch n offset g g' r at (inr (inl h)) = inl (ap IdempotencyGate.sessions h.2.3)
Admits-Moves q s epoch n offset g g' r at (inr (inr (inl h))) =
    inl (ap IdempotencyGate.sessions h.3)
Admits-Moves q s epoch n offset g g' r at (inr (inr (inr h))) = inr (
  s,
  at,
  ap IdempotencyGate.sessions h.3
      ∙ ap
          (λ m.
            put q
              (record s {
                last_sequence = pos m;
                accepted_offsets = put m offset s.accepted_offsets;
              })
              g.sessions)
          h.1,
)

admit-Moves :
    (q : String) (epoch n offset : ℕ) (g : IdempotencyGate)
    → IsGate g
    → Moves q offset g (admit q epoch n offset g).1
admit-Moves q epoch n offset g valid = elim (Option-cases (get q g.sessions)) [
  | inl none_open ↦ inl (
      ap (λ (x : Result Answer × IdempotencyGate). x.1.sessions)
        (admit-none q epoch n offset g none_open))
  | inr (s, at) ↦
      Admits-Moves q s epoch n offset g _ _ at
        (admit-Admits q s epoch n offset g (valid.session q s at) at)
]

pub same-IsGate : (g g' : IdempotencyGate) → g'.sessions ≡ g.sessions → IsGate g → IsGate g'
same-IsGate g g' same valid = record {
  session = λ p s at. valid.session p s (ap (get p) (sym same) ∙ at);
}

pub same-Holds :
    {p : String} {e q o : ℕ} (g g' : IdempotencyGate)
    → g'.sessions ≡ g.sessions
    → Holds p e q o g
    → Holds p e q o g'
same-Holds {p} g g' same h = record {
  session = h.session;
  found = ap (get p) same ∙ h.found;
  since = h.since;
  at = h.at;
}

abbrev pub Kept : String → ℕ → ℕ → ℕ → IdempotencyGate → Type 0
Kept p e sequence o g = IsGate g × Holds p e sequence o g

admit-Kept :
    (p q : String) (e epoch n sequence offset o : ℕ) (g : IdempotencyGate)
    → Kept p e sequence o g
    → Kept p e sequence o (admit q epoch n offset g).1
admit-Kept p q e epoch n sequence offset o g (valid, h) =
    let g' = (admit q epoch n offset g).1 in
    elim (admit-Moves q epoch n offset g valid) [
      | inl same ↦ (same-IsGate g g' same valid, same-Holds g g' same h)
      | inr (s, at, more) ↦
          let k : IdempotencyGate = record g { sessions = put q (grown s offset) g.sessions } in
          (
            same-IsGate k g' more (
                put-IsGate q (grown s offset) g valid
                  (grown-IsSession s offset (valid.session q s at))),
            same-Holds k g' more (accept-Holds p q s e sequence offset o g valid at h),
          )
    ]

open-cases :
    (q : String) (epoch : ℕ) (g : IdempotencyGate)
    → let g' = (open_session q epoch g).1 in
      (g'.sessions ≡ g.sessions) ⊎ (g'.sessions ≡ put q (new_session q epoch) g.sessions)
unfolding open_session
open-cases q epoch g = ground arith

open-Kept :
    (p q : String) (e epoch sequence o : ℕ) (g : IdempotencyGate)
    → (q == p) ≡ false
    → Kept p e sequence o g
    → Kept p e sequence o (open_session q epoch g).1
open-Kept p q e epoch sequence o g other (valid, h) =
    let g' = (open_session q epoch g).1 in
    elim (open-cases q epoch g) [
      | inl same ↦ (same-IsGate g g' same valid, same-Holds g g' same h)
      | inr more ↦
          let k : IdempotencyGate = record g {
            sessions = put q (new_session q epoch) g.sessions;
          } in
          (
            same-IsGate k g' more
                (put-IsGate q (new_session q epoch) g valid (new_session-IsSession q epoch)),
            same-Holds k g' more (record {
              session = h.session;
              found = get-put_ne q p (new_session q epoch) g.sessions other ∙ h.found;
              since = h.since;
              at = h.at;
            }),
          )
    ]

pub Reach-Kept :
    {p : String} {e sequence o : ℕ} {g h : IdempotencyGate}
    → Kept p e sequence o g
    → Reach p g h
    → Kept p e sequence o h
Reach-Kept kept here = kept
Reach-Kept kept (next path (admits q epoch n offset g)) =
    admit-Kept _ q _ epoch n _ offset _ g (Reach-Kept kept path)
Reach-Kept kept (next path (opens q epoch g other)) =
    open-Kept _ q _ epoch _ _ g other (Reach-Kept kept path)
