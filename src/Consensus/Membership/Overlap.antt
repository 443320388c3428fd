-- ===== src/Consensus/Membership/Overlap.antt =====
-- No change of the voters lets two majorities miss one another.
use event_stream_broker.Prelude.{
  ◌+◌, ◌≤◌, ◌≡◌, refl, inl, inr, true, false, not, List, [], ◌∷◌, ◌++◌, String, arith, ltb, nat_beq,
  string_eq, keep, length, length-append, All, All-mono, All-keep, All-append, Bool-cases, ==_self,
  ==_self,
}
use event_stream_broker.Prelude.Sets.{
  mem, Distinct, Within, length-Within, Distinct-append, Distinct-keep, length-keep, Within-keep,
  meet, mem-keep,
}
use event_stream_broker.Consensus.Membership.{Membership, change_to, difference, minus, majority_of}

-- A set of voters that is a majority of all.
pub record IsMajority (ps vs : List String) : Type 0 where
  pub distinct : Distinct ps
  pub within : Within ps vs
  pub enough : majority_of vs ≤ length ps

-- Sets apart, one within the voters and one within others, are no larger together than the voters
-- and what the others have besides.
apart-length :
    (ps qs vs ws : List String)
    → Distinct ps
    → Within ps vs
    → Distinct qs
    → Within qs ws
    → All (λ p. mem p qs ≡ false) ps
    → length ps + length qs ≤ length vs + length (minus ws vs)
apart-length ps qs vs ws dp wp dq wq apart =
    let shared = keep (λ q. mem q vs) qs in
    let inside =
      All-mono shared (λ q h. h.0) (All-keep (λ q. mem q ws ≡ true) (λ q. mem q vs) qs wq) in
    let both =
      length-Within (ps ++ shared) vs
        (Distinct-append ps shared dp (Distinct-keep (λ q. mem q vs) qs dq)
          (All-mono ps (λ p h. mem-keep (λ q. mem q vs) p qs h) apart))
        (All-append (λ x. mem x vs ≡ true) ps shared wp inside) in
    let rest =
      length-Within (minus qs vs) (minus ws vs) (Distinct-keep (λ q. not (mem q vs)) qs dq)
        (Within-keep (λ q. not (mem q vs)) qs ws wq) in
    omega (arith, both, rest, length-append ps shared, length-keep (λ q. mem q vs) qs)

-- Majorities of sets that differ in at most one member have a member in common.
near-meet :
    (ps qs vs ws : List String)
    → difference vs ws ≤ 1
    → IsMajority ps vs
    → IsMajority qs ws
    → (x : String) × (mem x ps ≡ true) × (mem x qs ≡ true)
unfolding difference
near-meet ps qs vs ws near h k = elim (meet ps qs) [
  | inl both ↦ both
  | inr apart ↦ elim (meet qs ps) [
    | inl (x, there, here_) ↦ (x, here_, there)
    | inr also ↦ absurd (
        omega (
          arith,
          near,
          h.enough,
          k.enough,
          apart-length ps qs vs ws h.distinct h.within k.distinct k.within apart,
          apart-length qs ps ws vs k.distinct k.within h.distinct h.within also,
        ))
  ]
]

self-Within : (vs : List String) → Within vs vs
unfolding mem
self-Within [] = tt
self-Within (v ∷ vs) =
    (rw (==_self v) refl, All-mono vs (λ w h. ground (arith, h)) (self-Within vs))

minus-none : (vs ws : List String) → Within vs ws → length (minus vs ws) ≡ 0
minus-none [] ws h = refl
minus-none (v ∷ vs) ws h = rw h.0 (minus-none vs ws h.1)

no-difference : (vs : List String) → difference vs vs ≤ 1
unfolding difference
no-difference vs = omega (arith, minus-none vs vs (self-Within vs))

change-near :
    (proposed : List String) (m : Membership)
    → difference m.voters (change_to proposed m).1.voters ≤ 1
unfolding change_to
change-near [] m = no-difference m.voters
change-near (w ∷ ws) m = elim (Bool-cases (nat_beq (difference m.voters (w ∷ ws)) 0)) [
  | inl none_ ↦ rw none_ (no-difference m.voters)
  | inr some_ ↦ elim (Bool-cases (ltb 1 (difference m.voters (w ∷ ws)))) [
    | inl many ↦ rw (some_, many) (no-difference m.voters)
    | inr one ↦ rw (some_, one) (ground (arith, one))
  ]
]

-- Whatever change of the voters is asked for, refused or not, any majority of the voters before
-- it and any majority of those after it have a voter in common.
pub change_to-overlap :
    (proposed : List String) (m : Membership) (ps qs : List String)
    → IsMajority ps m.voters
    → IsMajority qs (change_to proposed m).1.voters
    → (x : String) × (mem x ps ≡ true) × (mem x qs ≡ true)
change_to-overlap proposed m ps qs h k =
    near-meet ps qs m.voters (change_to proposed m).1.voters (change-near proposed m) h k
