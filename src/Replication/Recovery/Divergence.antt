-- ===== src/Replication/Recovery/Divergence.antt =====
-- What a recovery leaves on the log.
use event_stream_broker.Prelude.{
  middle-All, ◌++◌, ◌∙◌, All, All-mono, ltb, ℕ, ◌+◌, ◌≤◌, ◌<◌, ◌≡◌, ◌≢◌, refl, true, false, none,
  some, List, [], ◌∷◌, arith, leb, nat_eq, le→leb, nat_beq,
}
use event_stream_broker.Prelude.Sorting.{sorted, insert_by}
use event_stream_broker.Dict.{Dict, get, put, get-put_self, get-put_ne}
use event_stream_broker.Replication.Recovery.Markers.{
  Rising, epoch_at, epoch_at-from, epoch_at-after, second-above,
}
use event_stream_broker.Replication.Recovery.{
  EpochMarker, by_epoch, new_plan, recover, may_serve, diverge_point, walk, leader_by_epoch, agrees,
  epoch_end, next_or_end, is_set,
}

-- A recovery cuts the log within its own end and the leader's, counts exactly what it cut, and is
-- what lets the broker serve.
pub recover_lem :
    (leader_epochs : List EpochMarker) (leader_end local_end : ℕ) (local_epochs : List EpochMarker)
    → let p = new_plan local_end local_epochs in
      let p' = recover leader_epochs leader_end p in
      (may_serve p ≡ false)
      × (may_serve p' ≡ true)
      × ((safe : ℕ) × (p'.truncated_to ≡ some safe)
          × (safe ≤ leader_end)
          × (safe + p'.discarded ≡ local_end))
unfolding new_plan recover may_serve is_set
recover_lem leader_epochs leader_end local_end local_epochs =
    (refl, refl, (_, refl, omega arith, omega arith))

by_epoch-Rising : (ms : List EpochMarker) → Rising ms → by_epoch ms ≡ ms
unfolding sorted insert_by
by_epoch-Rising [] h = refl
by_epoch-Rising (m ∷ []) h = refl
by_epoch-Rising (m ∷ n ∷ ms) h =
    let lower : ltb n.epoch m.epoch ≡ false = ground (arith, h.0.0.0) in
    rw (by_epoch-Rising (n ∷ ms) h.1) (rw lower refl)

-- The leader's starts keep what an epoch had before, where no marker has that epoch.
leader_by_epoch-other :
    (k : ℕ) (d : Dict ℕ ℕ) (ms : List EpochMarker)
    → All (λ (m : EpochMarker). m.epoch ≢ k) ms
    → get k (leader_by_epoch d ms) ≡ get k d
unfolding leader_by_epoch
leader_by_epoch-other k d [] h = refl
leader_by_epoch-other k d (m ∷ ms) h =
    let other : nat_beq m.epoch k ≡ false = ground (arith, h.0) in
    leader_by_epoch-other k (put m.epoch m.start_offset d) ms h.1
    ∙ get-put_ne m.epoch k m.start_offset d other

leader_by_epoch-own :
    (d : Dict ℕ ℕ) (ms : List EpochMarker)
    → Rising ms
    → All (λ (m : EpochMarker). get m.epoch (leader_by_epoch d ms) ≡ some m.start_offset) ms
unfolding leader_by_epoch
leader_by_epoch-own d [] h = tt
leader_by_epoch-own d (m ∷ ms) h = (
  leader_by_epoch-other m.epoch (put m.epoch m.start_offset d) ms
        (All-mono ms (λ n k same. omega (arith, k.0, same)) h.0)
      ∙ get-put_self m.epoch m.start_offset d,
  leader_by_epoch-own (put m.epoch m.start_offset d) ms h.1,
)

-- The walk over the markers that both have stops at the first one that the leader has not, at the
-- leader's end of the last common epoch.
walk-common :
    (starts : Dict ℕ ℕ) (ordered : List EpochMarker) (local_end : ℕ) (before_ : List EpochMarker)
    (agree_offset : ℕ) (a b : EpochMarker) (more rest : List EpochMarker)
    → All (λ (m : EpochMarker). get m.epoch starts ≡ some m.start_offset) (before_ ++ a ∷ rest)
    → get b.epoch starts ≡ none
    → walk starts ordered local_end (before_ ++ a ∷ b ∷ more) agree_offset
      ≡ epoch_end a.epoch ordered local_end
unfolding walk agrees
walk-common starts ordered local_end [] agree_offset a b more rest h apart =
    let same : nat_beq a.start_offset a.start_offset ≡ true = ground arith in
    rw h.0 (rw same (rw apart refl))
walk-common starts ordered local_end (m ∷ before_) agree_offset a b more rest h apart =
    let same : nat_beq m.start_offset m.start_offset ≡ true = ground arith in
    rw h.0 (
      rw same (
        walk-common starts ordered local_end before_ (epoch_end m.epoch ordered local_end) a b more
          rest h.1 apart))

epoch_end-middle :
    (before_ : List EpochMarker) (a c : EpochMarker) (rest : List EpochMarker) (local_end : ℕ)
    → Rising (before_ ++ a ∷ c ∷ rest)
    → epoch_end a.epoch (before_ ++ a ∷ c ∷ rest) local_end ≡ c.start_offset
unfolding epoch_end next_or_end
epoch_end-middle [] a c rest local_end h =
    let same : nat_beq a.epoch a.epoch ≡ true = ground arith in rw same refl
epoch_end-middle (m ∷ before_) a c rest local_end h =
    let under = middle-All _ before_ a (c ∷ rest) h.0 in
    let other : nat_beq m.epoch a.epoch ≡ false = ground (arith, under.0) in
    rw other (epoch_end-middle before_ a c rest local_end h.1)

diverge_point-common :
    (before_ : List EpochMarker) (a b c : EpochMarker) (more rest : List EpochMarker)
    (local_end : ℕ)
    → Rising (before_ ++ a ∷ b ∷ more)
    → Rising (before_ ++ a ∷ c ∷ rest)
    → All (λ (m : EpochMarker). m.epoch ≢ b.epoch) (before_ ++ a ∷ c ∷ rest)
    → diverge_point (before_ ++ a ∷ c ∷ rest) (new_plan local_end (before_ ++ a ∷ b ∷ more))
      ≡ c.start_offset
unfolding diverge_point new_plan get
diverge_point-common before_ a b c more rest local_end mine theirs apart =
    let leader = before_ ++ a ∷ c ∷ rest in
    rw (by_epoch-Rising _ mine, by_epoch-Rising _ theirs)
      (walk-common (leader_by_epoch [] leader) leader local_end before_ 0 a b more (c ∷ rest)
          (leader_by_epoch-own [] leader theirs) (leader_by_epoch-other b.epoch [] leader apart)
        ∙ epoch_end-middle before_ a c rest local_end theirs)

-- Two histories with rising epochs and starts agree up to an epoch `a`, after which the local log
-- goes on with an epoch `b` that the leader never had and the leader with `c`. The recovery keeps
-- every local record from the start of `b` up to the start of `c`, as far as both logs reach,
-- although there the leader's record is of epoch `a` and the local one of a later epoch.
pub recover-keeps :
    (before_ : List EpochMarker) (a b c : EpochMarker) (more rest : List EpochMarker)
    (local_end leader_end offset : ℕ)
    → Rising (before_ ++ a ∷ b ∷ more)
    → Rising (before_ ++ a ∷ c ∷ rest)
    → All (λ (m : EpochMarker). m.epoch ≢ b.epoch) (before_ ++ a ∷ c ∷ rest)
    → b.start_offset ≤ offset
    → offset < c.start_offset
    → offset < leader_end
    → offset < local_end
    → let mine = before_ ++ a ∷ b ∷ more in
      let theirs = before_ ++ a ∷ c ∷ rest in
      ((kept : ℕ) × ((recover theirs leader_end (new_plan local_end mine)).truncated_to ≡ some kept)
        × (offset < kept))
      × (epoch_at offset theirs ≡ some a.epoch)
      × ((e : ℕ) × (epoch_at offset mine ≡ some e) × (a.epoch < e))
unfolding recover new_plan
recover-keeps before_ a b c more rest local_end leader_end offset mine theirs apart from to ol oe =
    let next = second-above before_ a b more mine in
    let low : a.start_offset ≤ offset = omega (arith, next.1, from) in
    let begun = le→leb a.start_offset offset low in
    let early : leb c.start_offset offset ≡ false = ground (arith, to) in
    let (e, at, above) = epoch_at-from offset b more (tail before_ mine).1 from in
    (
      (
        _,
        refl,
        omega (
          arith,
          to,
          ol,
          oe,
          diverge_point-common before_ a b c more rest local_end mine theirs apart,
        ),
      ),
      epoch_at-after offset before_ a (c ∷ rest) theirs low (rw (begun, early) refl),
      (
        e,
        epoch_at-after offset before_ a (b ∷ more) mine low (rw (begun, at) refl),
        omega (arith, next.0, above),
      ),
    )
  where
    tail : (ms : List EpochMarker) → Rising (ms ++ a ∷ b ∷ more) → Rising (a ∷ b ∷ more)
    tail [] h = h
    tail (m ∷ ms) h = tail ms h.1
