-- ===== src/Replication/InSync/Watermark.antt =====
-- The committable watermark is a promise that enough replicas hold.
use event_stream_broker.Prelude.{
  subst, ◌⊎◌, inl, inr, ltb→lt, All-map, map-All, ℕ, ◌+◌, ◌-◌, ◌≤◌, ◌<◌, ◌≡◌, refl, ap, ◌∙◌, sym,
  true, false, List, [], ◌∷◌, String, arith, ltb, leb, min, keep, length, map, All, Bool-cases,
  min_all, le-min_all,
}
use event_stream_broker.Failure.{ok, err, invalid}
use event_stream_broker.Dict.{Dict, values}
use event_stream_broker.Replication.InSync.{
  ReplicaState, ReplicationSet, in_sync_followers, in_sync_offsets, in_sync_count, evict_loop,
  evict_laggards, committable_watermark, slowest, pace_report, is_laggard,
}

-- The followers that hold everything below an offset, in sync or not.
abbrev pub holders : ℕ → List ReplicaState → List ReplicaState
holders n = keep (λ (s : ReplicaState). leb n s.fetched_offset)

abbrev offsets : List ReplicaState → List ℕ
offsets ss =
    map (λ (s : ReplicaState). s.fetched_offset) (keep (λ (s : ReplicaState). s.in_sync) ss)

in_sync-holders :
    (n : ℕ) (ss : List ReplicaState)
    → All (λ m. n ≤ m) (offsets ss)
    → length (keep (λ (s : ReplicaState). s.in_sync) ss) ≤ length (holders n ss)
in_sync-holders n [] h = omega arith
in_sync-holders n (s ∷ ss) h = elim (Bool-cases s.in_sync) [
  | inl yes_ ↦ ground (arith, yes_, h, in_sync-holders n ss)
  | inr no_ ↦ ground (arith, no_, h, in_sync-holders n ss)
]

-- Where fewer than `min_in_sync` replicas are in sync no watermark is given; otherwise one is,
-- and at least `min_in_sync` replicas are in sync. It is then the greatest offset that is within
-- the leader's log and that every in-sync follower has reached, so that at least `min_in_sync`
-- replicas, the leader among them, hold everything below it.
pub committable-held :
    (r : ReplicationSet)
    → (committable_watermark r ≡ err invalid) × (in_sync_count r < r.min_in_sync)
      ⊎ (w : ℕ) × (committable_watermark r ≡ ok w)
        × (w ≤ r.leader_end_offset)
        × All (λ (s : ReplicaState). w ≤ s.fetched_offset) (in_sync_followers r)
        × (r.min_in_sync ≤ in_sync_count r)
        × (r.min_in_sync ≤ 1 + length (holders w (values r.followers)))
        × ((n : ℕ)
            → n ≤ r.leader_end_offset
            → All (λ (s : ReplicaState). n ≤ s.fetched_offset) (in_sync_followers r)
            → n ≤ w)
unfolding committable_watermark in_sync_count in_sync_offsets
committable-held r =
    let bound = (le-min_all w r.leader_end_offset (in_sync_offsets r)).0 (omega arith) in
    elim (Bool-cases (ltb (in_sync_count r) r.min_in_sync)) [
      | inl few ↦ inl (rw few refl, ltb→lt _ _ few)
      | inr enough ↦ inr (
        w,
        rw enough refl,
        bound.0,
        All-map _ _ (in_sync_followers r) bound.1,
        ground (arith, enough),
        ground (arith, enough, in_sync-holders w (values r.followers) bound.1),
        λ n low held.
            (le-min_all n r.leader_end_offset (in_sync_offsets r)).1
              (low, map-All _ _ (in_sync_followers r) held),
      )
    ]
  where
    w : ℕ
    w = min_all r.leader_end_offset (in_sync_offsets r)

-- The pace-setter that is reported stands at the watermark.
slowest-min_all :
    (best : String × ℕ) (ss : List ReplicaState) → (slowest best ss).1 ≡ min_all best.1 (offsets ss)
unfolding slowest min_all
slowest-min_all best [] = refl
slowest-min_all best (s ∷ ss) = elim (Bool-cases s.in_sync) [
  | inl yes_ ↦ elim (Bool-cases (ltb s.fetched_offset best.1)) [
    | inl less ↦
        let low : s.fetched_offset ≡ min best.1 s.fetched_offset = ground (arith, less) in
        simp (yes_, less)
          (slowest-min_all (s.name, s.fetched_offset) ss ∙ ap (λ n. min_all n (offsets ss)) low)
    | inr more ↦
        let low : best.1 ≡ min best.1 s.fetched_offset = ground (arith, more) in
        simp (yes_, more) (slowest-min_all best ss ∙ ap (λ n. min_all n (offsets ss)) low)
  ]
  | inr no_ ↦ rw no_ (slowest-min_all best ss)
]

-- The pace-setter that is reported stands at the watermark, so its lag is what holds the watermark
-- back.
pub pace_report-watermark :
    (r : ReplicationSet) {w : ℕ}
    → committable_watermark r ≡ ok w
    → let (count, setter, offset, lag) = pace_report r in
      (offset ≡ w) × (w + lag ≡ r.leader_end_offset)
unfolding pace_report committable_watermark in_sync_offsets
pace_report-watermark r {w} given =
    let paced = slowest-min_all (r.leader, r.leader_end_offset) (values r.followers) in
    let bound = (le-min_all w r.leader_end_offset (offsets (values r.followers))).0 in
    let same : (slowest (r.leader, r.leader_end_offset) (values r.followers)).1 ≡ w =
      paced ∙ ground (arith, given) in
    (same, let high = (bound (omega (arith, same, paced))).0 in omega (arith, same, high))

-- The followers that an eviction leaves in sync, and those that it names.
evict-followers :
    (end max_lag : ℕ) (d : Dict String ReplicaState)
    → let (evicted, d') = evict_loop end max_lag d in
      (keep (λ (s : ReplicaState). s.in_sync) (values d')
        ≡ keep
            (λ (s : ReplicaState). leb end (max_lag + s.fetched_offset))
            (keep (λ (s : ReplicaState). s.in_sync) (values d)))
      × (map (λ (s : ReplicaState). s.fetched_offset) (values d')
          ≡ map (λ (s : ReplicaState). s.fetched_offset) (values d))
unfolding evict_loop is_laggard
evict-followers end max_lag [] = (refl, refl)
evict-followers end max_lag ((key, s) ∷ d) =
    let (stay, same) = evict-followers end max_lag d in
    elim (Bool-cases s.in_sync) [
      | inr no_ ↦ rw no_ (stay, ap (λ ns. s.fetched_offset ∷ ns) same)
      | inl yes_ ↦ elim (Bool-cases (ltb (max_lag + s.fetched_offset) end)) [
        | inl behind ↦
            let far : leb end (max_lag + s.fetched_offset) ≡ false = ground (arith, behind) in
            simp (yes_, behind, far) (stay, ap (λ ns. s.fetched_offset ∷ ns) same)
        | inr near ↦
            let close : leb end (max_lag + s.fetched_offset) ≡ true = ground (arith, near) in
            simp (yes_, near, close) (ap (λ ss. s ∷ ss) stay, ap (λ ns. s.fetched_offset ∷ ns) same)
      ]
    ]

near-offsets :
    (end max_lag : ℕ) (ss : List ReplicaState)
    → All
        (λ m. end - max_lag ≤ m)
        (map
          (λ (s : ReplicaState). s.fetched_offset)
          (keep (λ (s : ReplicaState). leb end (max_lag + s.fetched_offset)) ss))
near-offsets end max_lag [] = tt
near-offsets end max_lag (s ∷ ss) = elim (Bool-cases (leb end (max_lag + s.fetched_offset))) [
  | inl close ↦ rw close (ground (arith, close), near-offsets end max_lag ss)
  | inr far ↦ rw far (near-offsets end max_lag ss)
]

-- An eviction leaves in sync exactly the followers that are within the allowed lag, and changes no
-- offset. If a watermark is still given then, it is no more than that lag behind the leader: no slow
-- disk holds it back.
pub evict-committable :
    (r : ReplicationSet)
    → let (evicted, r') = evict_laggards r in
      (in_sync_followers r'
        ≡ keep
            (λ (s : ReplicaState). leb r.leader_end_offset (r.max_lag + s.fetched_offset))
            (in_sync_followers r))
      × (map (λ (s : ReplicaState). s.fetched_offset) (values r'.followers)
          ≡ map (λ (s : ReplicaState). s.fetched_offset) (values r.followers))
      × ((w : ℕ) → committable_watermark r' ≡ ok w → r.leader_end_offset ≤ r.max_lag + w)
unfolding evict_laggards committable_watermark in_sync_offsets
evict-committable r =
    let r' = (evict_laggards r).1 in
    let (stay, same) = evict-followers r.leader_end_offset r.max_lag r.followers in
    let fetched : List ReplicaState → List ℕ = map (λ (s : ReplicaState). s.fetched_offset) in
    let low =
      (le-min_all (r.leader_end_offset - r.max_lag) r.leader_end_offset (in_sync_offsets r')).1 (
        omega arith,
        subst (λ ss. All (λ m. r.leader_end_offset - r.max_lag ≤ m) (fetched ss)) (sym stay)
            (near-offsets r.leader_end_offset r.max_lag (in_sync_followers r)),
      ) in
    (stay, same, λ w given. ground (arith, given, low))
