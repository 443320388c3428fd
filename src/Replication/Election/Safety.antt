-- ===== src/Replication/Election/Safety.antt =====
-- Who wins an election, and what a deposed leader can no longer do.
use event_stream_broker.Prelude.{
  ℕ, suc, ◌+◌, ◌≤◌, ◌≡◌, refl, ◌⊎◌, inl, inr, Bool, true, false, List, [], ◌∷◌, arith, keep, All,
  All-mono, All-Mem, All-keep, Mem, Mem-All,
}
use event_stream_broker.Prelude.Sorting.{
  sorted, first, first-sorted, first-All, first-All_default, All-sorted, sorted-All,
}
use event_stream_broker.Failure.{Result, ok, err, invalid}
use event_stream_broker.Replication.Election.{
  Candidate, ElectionResult, PartitionElector, stands_before, is_eligible, max_end, crown,
  elect_from, elect,
}

longer-after : (a b : Candidate) → stands_before b a ≡ true → a.log_end_offset ≤ b.log_end_offset
unfolding stands_before
longer-after a b h = ground (arith, h)

longer-before : (a b : Candidate) → stands_before b a ≡ false → b.log_end_offset ≤ a.log_end_offset
unfolding stands_before
longer-before a b h = ground (arith, h)

-- The longest log comes first, whatever the names.
longest-first :
    (d : Candidate) (cs : List Candidate)
    → All
        (λ (c : Candidate). c.log_end_offset ≤ (first d (sorted stands_before cs)).log_end_offset)
        cs
longest-first d cs =
    first-sorted stands_before (λ (a b : Candidate). a.log_end_offset ≤ b.log_end_offset)
      (λ c. omega arith) (λ a b c h k. omega (arith, h, k)) longer-after longer-before d cs

max_end-le :
    (n : ℕ) (cs : List Candidate)
    → All (λ (c : Candidate). c.log_end_offset ≤ n) cs
    → max_end cs ≤ n
unfolding max_end
max_end-le n [] h = omega arith
max_end-le n (c ∷ cs) h = omega (arith, h.0, max_end-le n cs h.1)

le-max_end : (cs : List Candidate) → All (λ (c : Candidate). c.log_end_offset ≤ max_end cs) cs
unfolding max_end
le-max_end [] = tt
le-max_end (c ∷ cs) = (omega arith, All-mono cs (λ d h. omega (arith, h)) (le-max_end cs))

-- The winner of an election and what the result says of it.
pub record Wins (cs : List Candidate) (e : PartitionElector) (unclean : Bool) (r : ElectionResult)
    (w : Candidate) : Type 0 where
  pub among : Mem w cs
  pub leads : r.leader ≡ w.name
  pub term : r.epoch ≡ suc e.epoch
  pub choice : r.unclean ≡ unclean
  pub beyond : r.discarded + w.log_end_offset ≡ max_end cs

-- A winner that the sort picks from a list of candidates.
crown-Wins :
    (d : Candidate) (es cs : List Candidate) (unclean : Bool) (e : PartitionElector)
    → let w = first d (sorted stands_before es) in
      Mem w cs
      → (r : ElectionResult) × (crown d es unclean (max_end cs) e
          ≡ (ok r, record e { epoch = suc e.epoch }))
        × Wins cs e unclean r w
unfolding crown
crown-Wins d es cs unclean e among =
    let low = Mem-All _ cs among (le-max_end cs) in
    (
      _,
      refl,
      record {
        among = among;
        leads = refl;
        term = refl;
        choice = refl;
        beyond = omega (arith, low);
      },
    )

-- The candidates that are in sync and hold everything that is committed.
abbrev pub eligible : PartitionElector → List Candidate → List Candidate
eligible e = keep (is_eligible e.committed_offset)

-- What `elect` comes to: a clean winner, a refusal, or a winner that the operator allowed.
abbrev pub Elects :
    List Candidate
    → List Candidate
    → Bool
    → PartitionElector
    → Result ElectionResult × PartitionElector
    → Type 0
Elects able cs allow_unclean e outcome =
    ((r : ElectionResult) × (w : Candidate) × (outcome ≡ (ok r, record e { epoch = suc e.epoch }))
      × Wins cs e false r w
      × (w.in_sync ≡ true)
      × (e.committed_offset ≤ w.log_end_offset)
      × All (λ (c : Candidate). c.log_end_offset ≤ w.log_end_offset) able)
    ⊎ ((able ≡ []) × (allow_unclean ≡ false) × (outcome ≡ (err invalid, e)))
    ⊎ ((able ≡ [])
        × (allow_unclean ≡ true)
        × (r : ElectionResult) × (w : Candidate) × (outcome
            ≡ (ok r, record e { epoch = suc e.epoch }))
        × Wins cs e true r w
        × All (λ (c : Candidate). c.log_end_offset ≤ w.log_end_offset) cs)

fit : (n : ℕ) (c : Candidate) → is_eligible n c ≡ true → (c.in_sync ≡ true) × (n ≤ c.log_end_offset)
unfolding is_eligible
fit n c h = (ground (arith, h), ground (arith, h))

elect_from-Elects :
    (able : List Candidate) (c : Candidate) (cs : List Candidate) (allow_unclean : Bool)
    (e : PartitionElector)
    → All (λ (y : Candidate). (is_eligible e.committed_offset y ≡ true) × Mem y (c ∷ cs)) able
    → Elects able (c ∷ cs) allow_unclean e (elect_from able c cs allow_unclean e)
unfolding elect_from
elect_from-Elects (x ∷ xs) c cs allow_unclean e h =
    let w = first c (sorted stands_before (x ∷ xs)) in
    let (able, among) =
      first-All stands_before (λ y. (is_eligible e.committed_offset y ≡ true) × Mem y (c ∷ cs)) c x
        xs h in
    let (r, ran, wins) = crown-Wins c (x ∷ xs) (c ∷ cs) false e among in
    let (synced, full) = fit e.committed_offset w able in
    inl (r, w, ran, wins, synced, full, longest-first c (x ∷ xs))
elect_from-Elects [] c cs false e h = inr (inl (refl, refl, refl))
elect_from-Elects [] c cs true e h =
    let cands = c ∷ cs in
    let once = sorted stands_before cands in
    let w = first c (sorted stands_before once) in
    let everywhere = All-Mem cands in
    let among : Mem w cands =
      first-All_default stands_before (λ y. Mem y cands) c once everywhere.0
        (All-sorted stands_before _ cands everywhere) in
    let (r, ran, wins) = crown-Wins c once cands true e among in
    inr (inr (refl, refl, r, w, ran, wins, sorted-All stands_before _ cands (longest-first c once)))

-- With candidates, an election is clean as long as one of them is in sync and holds everything that
-- is committed. The winner is then such a one, with the longest log of them, so that no committed
-- record is cut. Where there is none, it is refused unless it is allowed to be unclean, and then the
-- longest log of all wins and the result says so. Each election takes the next epoch.
pub elect-Elects :
    (c : Candidate) (cs : List Candidate) (allow_unclean : Bool) (e : PartitionElector)
    → Elects (eligible e (c ∷ cs)) (c ∷ cs) allow_unclean e (elect (c ∷ cs) allow_unclean e)
unfolding elect
elect-Elects c cs allow_unclean e =
    elect_from-Elects (eligible e (c ∷ cs)) c cs allow_unclean e
      (All-keep (λ y. Mem y (c ∷ cs)) (is_eligible e.committed_offset) (c ∷ cs) (All-Mem (c ∷ cs)))
