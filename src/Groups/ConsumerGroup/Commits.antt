-- ===== src/Groups/ConsumerGroup/Commits.antt =====
-- Commits move forward, stay at or below the watermark, and account for every record they skip.
use event_stream_broker.Prelude.{
  ℕ, ◌+◌, ◌-◌, ◌≤◌, ◌<◌, ◌≡◌, ◌≢◌, refl, ◌⊎◌, inl, inr, List, [], ◌∷◌, ◌++◌, arith, ltb, nat_eq,
  nat_beq, if◌then◌else◌, Bool-cases,
}
use event_stream_broker.Failure.{Result, ok, err, invalid}
use event_stream_broker.Dict.{put, get-put}
use event_stream_broker.Log.Partition.{Partition, lag_of}
use event_stream_broker.Groups.ConsumerGroup.{ConsumerGroup, Skip, position, commit, logged, lag}

-- The records of a partition that the log says were skipped.
abbrev pub skips_of : ℕ → List Skip → ℕ
skips_of n [] = 0
skips_of n (s ∷ ss) = (if nat_beq s.partition n then s.skipped else 0) + skips_of n ss

skips_of-append :
    (n : ℕ) (ss ts : List Skip) → skips_of n (ss ++ ts) ≡ skips_of n ss + skips_of n ts
skips_of-append n [] ts = omega arith
skips_of-append n (s ∷ ss) ts = omega (arith, skips_of-append n ss ts)

-- What a commit has done, on every branch.
abbrev pub Commits : Partition → ℕ → ConsumerGroup → Result (Unit {0}) × ConsumerGroup → Type 0
Commits p offset g (ok _, g') =
    (position p.number g ≤ offset)
    × (offset ≤ p.high_watermark)
    × (position p.number g' ≡ offset)
    × ((n : ℕ) → n ≢ p.number → position n g' ≡ position n g)
    × (skips_of p.number g'.skips_logged
        ≡ skips_of p.number g.skips_logged + (offset - position p.number g - 1))
    × ((n : ℕ) → n ≢ p.number → skips_of n g'.skips_logged ≡ skips_of n g.skips_logged)
Commits p offset g (err e, g') =
    ((offset < position p.number g) ⊎ (p.high_watermark < offset)) × (g' ≡ g) × (e ≡ invalid)

position-put :
    (n k offset : ℕ) (g : ConsumerGroup) (ss : List Skip)
    → position n (record g { committed = put k offset g.committed; skips_logged = ss })
      ≡ (if nat_beq k n then offset else position n g)
unfolding position
position-put n k offset g ss = ground (arith, get-put k n offset g.committed)

skips_of-logged :
    (n k held offset : ℕ)
    → skips_of n (logged k held offset) ≡ (if nat_beq k n then offset - held - 1 else 0)
unfolding logged
skips_of-logged n k held offset = ground arith

accepted : Partition → ℕ → ConsumerGroup → ConsumerGroup
accepted p offset g = record g {
  committed = put p.number offset g.committed;
  skips_logged = g.skips_logged ++ logged p.number (position p.number g) offset;
}

accepted-Commits :
    (p : Partition) (offset : ℕ) (g : ConsumerGroup)
    → position p.number g ≤ offset
    → offset ≤ p.high_watermark
    → Commits p offset g (ok tt, accepted p offset g)
unfolding accepted
accepted-Commits p offset g low high =
    let k = p.number in
    let held = position k g in
    let skips = λ (n : ℕ). skips_of-append n g.skips_logged (logged k held offset) in
    (
      low,
      high,
      ground (arith, position-put k k offset g (g.skips_logged ++ logged k held offset)),
      λ n other.
          ground (arith, other, position-put n k offset g (g.skips_logged ++ logged k held offset)),
      ground (arith, skips k, skips_of-logged k k held offset),
      λ n other. ground (arith, other, skips n, skips_of-logged n k held offset),
    )

commit-cases :
    (p : Partition) (offset : ℕ) (g : ConsumerGroup)
    → commit p offset g ≡ (
        if ltb offset (position p.number g)
        then (err invalid, g)
        else if ltb p.high_watermark offset
        then (err invalid, g)
        else (ok tt, accepted p offset g))
unfolding commit accepted
commit-cases p offset g = ground arith

-- A commit is accepted exactly from the held position up to the watermark. Accepted, it moves that
-- position and no other, and the skip log grows by the records it jumped over; refused, it changes
-- nothing.
pub commit-Commits :
    (p : Partition) (offset : ℕ) (g : ConsumerGroup) → Commits p offset g (commit p offset g)
commit-Commits p offset g =
    rw (commit-cases p offset g) (elim (Bool-cases (ltb offset (position p.number g))) [
      | inl behind ↦ rw behind (inl (ground (arith, behind)), refl, refl)
      | inr forward ↦ elim (Bool-cases (ltb p.high_watermark offset)) [
        | inl beyond ↦ rw (forward, beyond) (inr (ground (arith, beyond)), refl, refl)
        | inr promised ↦
            rw (forward, promised)
              (accepted-Commits p offset g (ground (arith, forward)) (ground (arith, promised)))
      ]
    ])

-- The lag is always an answer: what the watermark is ahead of the position, and zero where a
-- position stands beyond it.
pub lag_lem :
    (p : Partition) (g : ConsumerGroup) → lag p g ≡ ok (p.high_watermark - position p.number g)
unfolding lag lag_of
lag_lem p g = ground arith

-- A batch of commits, each on a partition as it is at that time; what is refused is passed over.
abbrev pub run : List (Partition × ℕ) → ConsumerGroup → ConsumerGroup
run [] g = g
run ((p, offset) ∷ calls) g = run calls (commit p offset g).1

-- One if the position of partition `n` grows.
abbrev grows : ℕ → ConsumerGroup → ConsumerGroup → ℕ
grows n g g' = if ltb (position n g) (position n g') then 1 else 0

-- The commits of the batch that move the position of partition `n`.
abbrev pub advances : ℕ → List (Partition × ℕ) → ConsumerGroup → ℕ
advances n [] g = 0
advances n ((p, offset) ∷ calls) g =
    grows n g (commit p offset g).1 + advances n calls (commit p offset g).1

-- The position and the skip log before and after, with the moves in between.
abbrev Accounts : ℕ → ConsumerGroup → ConsumerGroup → ℕ → Type 0
Accounts n g g' moved =
    position n g' + skips_of n g.skips_logged ≡ position n g + skips_of n g'.skips_logged + moved

commit-Accounts :
    (n : ℕ) (p : Partition) (offset : ℕ) (g : ConsumerGroup)
    (res : Result (Unit {0}) × ConsumerGroup)
    → Commits p offset g res
    → Accounts n g res.1 (grows n g res.1)
commit-Accounts n p offset g (err e, g') (_, same, _) = rw same (ground arith)
commit-Accounts n p offset g (ok _, g') (low, high, moved, others, skips, other_skips) =
    elim (Bool-cases (nat_beq n p.number)) [
      | inl here ↦
          let same : n ≡ p.number = ground (arith, here) in
          rw same (ground (arith, low, moved, skips))
      | inr there ↦
          let apart : n ≢ p.number = ground (arith, there) in
          ground (arith, others n apart, other_skips n apart)
    ]

-- Over any batch of commits, refused ones included, a partition's position moves by exactly the
-- commits that advanced it and the records that the skip log names: no skip passes for progress.
pub run-Accounts :
    (n : ℕ) (calls : List (Partition × ℕ)) (g : ConsumerGroup)
    → position n (run calls g) + skips_of n g.skips_logged
      ≡ position n g + skips_of n (run calls g).skips_logged + advances n calls g
run-Accounts n [] g = omega arith
run-Accounts n ((p, offset) ∷ calls) g = omega (
  arith,
  commit-Accounts n p offset g (commit p offset g) (commit-Commits p offset g),
  run-Accounts n calls (commit p offset g).1,
)

commit-monotone :
    (n : ℕ) (p : Partition) (offset : ℕ) (g : ConsumerGroup)
    (res : Result (Unit {0}) × ConsumerGroup)
    → Commits p offset g res
    → position n g ≤ position n res.1
commit-monotone n p offset g (err e, g') (_, same, _) = rw same (omega arith)
commit-monotone n p offset g (ok _, g') (low, high, moved, others, _, _) =
    elim (Bool-cases (nat_beq n p.number)) [
      | inl here ↦
          let same : n ≡ p.number = ground (arith, here) in rw same (omega (arith, low, moved))
      | inr there ↦ omega (arith, others n (ground (arith, there)))
    ]

-- Over any batch of commits, refused ones included, no position moves back.
pub run-monotone :
    (n : ℕ) (calls : List (Partition × ℕ)) (g : ConsumerGroup)
    → position n g ≤ position n (run calls g)
run-monotone n [] g = omega arith
run-monotone n ((p, offset) ∷ calls) g = omega (
  arith,
  commit-monotone n p offset g (commit p offset g) (commit-Commits p offset g),
  run-monotone n calls (commit p offset g).1,
)
