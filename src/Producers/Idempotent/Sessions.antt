-- ===== src/Producers/Idempotent/Sessions.antt =====
-- Each session has accepted exactly the sequence numbers from 0 up, once each.
use event_stream_broker.Prelude.{
  ℕ, zero, suc, ◌+◌, ◌≤◌, ◌<◌, ◌≡◌, refl, ◌⊎◌, inl, inr, none, some, String, arith, ltb, nat_eq,
  string_eq, nat_beq, if◌then◌else◌, Bool-cases,
}
use event_stream_broker.Prelude.Int.{ℤ, pos, negsuc, leb_ℤ}
use event_stream_broker.Failure.{Result, ok, err, invalid, fenced}
use event_stream_broker.Dict.{get, put}
use event_stream_broker.Producers.Idempotent.{
  ProducerSession, IdempotencyGate, Answer, duplicate, accepted, expected, is_at, answer_retry,
  accept, admit,
}

-- The number of sequence numbers accepted so far.
abbrev pub count : ℤ → ℕ
count (pos n) = suc n
count (negsuc n) = 0

-- The sequence numbers below the count, and no others, have an offset.
pub record IsSession (s : ProducerSession) : Type 0 where
  pub begins : (n : ℕ) → s.last_sequence ≡ negsuc n → n ≡ 0
  pub seen : (q : ℕ) → q < count s.last_sequence → (o : ℕ) × (get q s.accepted_offsets ≡ some o)
  pub unseen : (q : ℕ) → count s.last_sequence ≤ q → get q s.accepted_offsets ≡ none

pub record IsGate (g : IdempotencyGate) : Type 0 where
  pub session : (p : String) (s : ProducerSession) → get p g.sessions ≡ some s → IsSession s

-- What `admit` answers for a session that it finds, on every branch.
abbrev pub Admits :
    String
    → ProducerSession
    → ℕ
    → ℕ
    → ℕ
    → IdempotencyGate
    → Result Answer × IdempotencyGate
    → Type 0
Admits p s epoch sequence offset g (r, g') =
    ((epoch < s.epoch) × (r ≡ err fenced) × (g' ≡ g))
    ⊎ (((s.epoch ≤ epoch)
          × (sequence < count s.last_sequence)
          × ((o : ℕ) × (get sequence s.accepted_offsets ≡ some o)
              × (r ≡ ok (duplicate sequence o))
              × (g' ≡ record g { duplicates_absorbed = g.duplicates_absorbed + 1 })))
        ⊎ (((s.epoch ≤ epoch) × (count s.last_sequence < sequence) × (r ≡ err invalid) × (g' ≡ g))
            ⊎ ((s.epoch ≤ epoch)
                × (sequence ≡ count s.last_sequence)
                × (r ≡ ok (accepted sequence offset))
                × (g' ≡ record g {
                  sessions =
                      put p
                        (record s {
                          last_sequence = pos sequence;
                          accepted_offsets = put sequence offset s.accepted_offsets;
                        })
                        g.sessions;
                }))))

retry-count : (q : ℕ) (last : ℤ) → leb_ℤ (pos q) last ≡ ltb q (count last)
retry-count q (pos n) = ground arith
retry-count q (negsuc n) = ground arith

next-count :
    (q : ℕ) (last : ℤ)
    → ((n : ℕ) → last ≡ negsuc n → n ≡ 0)
    → is_at q (expected last) ≡ nat_beq q (count last)
next-count q (pos n) h = refl
next-count q (negsuc zero) h = refl
next-count q (negsuc (suc n)) h = absurd (omega (arith, h (suc n) refl))

pub admit-cases :
    (p : String) (s : ProducerSession) (epoch sequence offset : ℕ) (g : IdempotencyGate)
    → IsSession s
    → get p g.sessions ≡ some s
    → admit p epoch sequence offset g ≡ (
        if ltb epoch s.epoch
        then (err fenced, g)
        else if ltb sequence (count s.last_sequence)
        then answer_retry sequence (get sequence s.accepted_offsets) g
        else if nat_beq sequence (count s.last_sequence)
        then accept p s sequence offset g
        else (err invalid, g))
unfolding admit
admit-cases p s epoch sequence offset g h at =
    rw (at, retry-count sequence s.last_sequence, next-count sequence s.last_sequence h.begins)
      (ground arith)

-- With a session that is open and valid, a call is fenced if its epoch is behind; a number below
-- the count is a retry, answered with the offset it got the first time; a number above it is a
-- gap and refused; and the next number, and no other, is accepted at the new offset.
pub admit-Admits :
    (p : String) (s : ProducerSession) (epoch sequence offset : ℕ) (g : IdempotencyGate)
    → IsSession s
    → get p g.sessions ≡ some s
    → Admits p s epoch sequence offset g (admit p epoch sequence offset g)
unfolding answer_retry accept
admit-Admits p s epoch sequence offset g h at =
    rw (admit-cases p s epoch sequence offset g h at) (elim (Bool-cases (ltb epoch s.epoch)) [
      | inl behind ↦ rw behind (inl (ground (arith, behind), refl, refl))
      | inr current ↦ elim (Bool-cases (ltb sequence (count s.last_sequence))) [
        | inl old ↦
            let (o, found) = h.seen sequence (ground (arith, old)) in
            rw (current, old, found)
              (inr (inl (ground (arith, current), ground (arith, old), (o, refl, refl, refl))))
        | inr new ↦ elim (Bool-cases (nat_beq sequence (count s.last_sequence))) [
          | inl next ↦
              rw (current, new, next)
                (inr (inr (inr (ground (arith, current), ground (arith, next), refl, refl))))
          | inr gap ↦
              rw (current, new, gap)
                (inr (inr (inl (ground (arith, current), ground (arith, new, gap), refl, refl))))
        ]
      ]
    ])
