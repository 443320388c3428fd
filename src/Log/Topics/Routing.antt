-- ===== src/Log/Topics/Routing.antt =====
-- Records with the same key stay in one partition, in their order.
use native.Mathlib.Nat.{mod-lt}
use event_stream_broker.Prelude.{
  ℕ, zero, suc, ◌+◌, ◌%◌, ◌<◌, ◌≡◌, refl, sym, ap, ◌∙◌, ◌⊎◌, inl, inr, Option, none, some, List, [],
  ◌∷◌, ◌++◌, append-nil, arith, nat_beq, nat_eq, bytes_eq, ==_iff, if◌then◌else◌, Bool-cases,
  Option-cases, length, get_elem?, get_elem?_inside, All, Mem-All,
}
use event_stream_broker.Failure.{ok}
use event_stream_broker.Log.Records.{Bytes, Record}
use event_stream_broker.Log.SegmentLog.View.{view, view_end}
use event_stream_broker.Log.SegmentLog.Appends.{append-refines}
use event_stream_broker.Log.Partition
use event_stream_broker.Log.Partition.{Partition}
use event_stream_broker.Log.Partition.Watermark.{IsPartition, append-IsPartition}
use event_stream_broker.Log.Topics.{Topic, set_elem, key_slot, route, append_at}

pub record IsTopic (t : Topic) : Type 0 where
  pub inside : t.round_robin_next < length t.partitions
  pub valid : All IsPartition t.partitions

-- What a consumer could be given from a partition, once it is committed.
unfoldable pub entries_of : ℕ → Topic → List Record
entries_of j t = elim (get_elem? t.partitions j) [ none ↦ [] | some p ↦ (view p.log).entries ]

length-set_elem :
    (i : ℕ) (p : Partition) (ps : List Partition) → length (set_elem i p ps) ≡ length ps
unfolding set_elem
length-set_elem i p [] = refl
length-set_elem zero p (q ∷ qs) = refl
length-set_elem (suc i) p (q ∷ qs) = ap suc (length-set_elem i p qs)

All-set_elem :
    (i : ℕ) (p : Partition) (ps : List Partition)
    → IsPartition p
    → All IsPartition ps
    → All IsPartition (set_elem i p ps)
unfolding set_elem
All-set_elem i p [] h k = tt
All-set_elem zero p (q ∷ qs) h k = (h, k.1)
All-set_elem (suc i) p (q ∷ qs) h k = (k.0, All-set_elem i p qs h k.1)

get-set_elem :
    (i j : ℕ) (p : Partition) (ps : List Partition)
    → i < length ps
    → get_elem? (set_elem i p ps) j ≡ (if nat_beq i j then some p else get_elem? ps j)
unfolding set_elem
get-set_elem i j p [] h = absurd (omega arith)
get-set_elem zero zero p (q ∷ qs) h = refl
get-set_elem zero (suc j) p (q ∷ qs) h = ground arith
get-set_elem (suc i) zero p (q ∷ qs) h = ground arith
get-set_elem (suc i) (suc j) p (q ∷ qs) h =
    let same : nat_beq (suc i) (suc j) ≡ nat_beq i j = ground arith in
    get-set_elem i j p qs (omega arith) ∙ rw same refl

append_at-some :
    (slot : ℕ) (r : Record) (t : Topic) {p : Partition}
    → get_elem? t.partitions slot ≡ some p
    → IsPartition p
    → append_at slot r t ≡ (
      ok (slot, view_end (view p.log)),
      record t { partitions = set_elem slot (Partition.append r p).1 t.partitions },
    )
unfolding append_at Partition.append
append_at-some slot r t {p} at h = rw (at, append_at, (append-refines r p.log h.valid).1) refl

entries-some :
    (j : ℕ) (t : Topic) {p : Partition}
    → get_elem? t.partitions j ≡ some p
    → entries_of j t ≡ (view p.log).entries
unfolding entries_of
entries-some j t at = rw (at, entries_of) refl

pub entries-same :
    (j : ℕ) (t u : Topic)
    → get_elem? t.partitions j ≡ get_elem? u.partitions j
    → entries_of j t ≡ entries_of j u
unfolding entries_of
entries-same j t u e =
    ap (λ (o : Option Partition). elim o [ none ↦ [] | some p ↦ (view p.log).entries ]) e

-- The partition at a slot grows by the record, and no other changes.
pub append_at-grows :
    (slot : ℕ) (r : Record) (t : Topic)
    → IsTopic t
    → slot < length t.partitions
    → let (result, t') = append_at slot r t in
      ((n : ℕ) × (result ≡ ok (slot, n)))
      × IsTopic t'
      × (length t'.partitions ≡ length t.partitions)
      × ((j : ℕ) → entries_of j t' ≡ entries_of j t ++ (if nat_beq slot j then r ∷ [] else []))
append_at-grows slot r t h small =
    let (p, at) = get_elem?_inside t.partitions slot small in
    let mine = Mem-All IsPartition t.partitions (slot, at) h.valid in
    let (valid, grows) = append-IsPartition r p mine in
    let p' = (Partition.append r p).1 in
    let ps = set_elem slot p' t.partitions in
    let t' : Topic = record t { partitions = ps } in
    rw (append_at-some slot r t at mine) (
      (view_end (view p.log), refl),
      record {
        inside = omega (arith, length-set_elem slot p' t.partitions, h.inside);
        valid = All-set_elem slot p' t.partitions valid h.valid;
      },
      length-set_elem slot p' t.partitions,
      (λ j. elim (Bool-cases (nat_beq slot j)) [
        | inl same ↦
            let key : slot ≡ j = (==_iff slot j).0 same in
            let found : get_elem? ps j ≡ some p' =
              get-set_elem slot j p' t.partitions small ∙ rw same refl in
            let old : get_elem? t.partitions j ≡ some p =
              ap (get_elem? t.partitions) (sym key) ∙ at in
            rw same (
              entries-some j t' found
              ∙ ap (λ v. v.entries) grows
              ∙ ap (λ es. es ++ r ∷ []) (sym (entries-some j t old)))
        | inr other ↦
            let found : get_elem? ps j ≡ get_elem? t.partitions j =
              get-set_elem slot j p' t.partitions small ∙ rw other refl in
            rw other (entries-same j t' t found ∙ sym (append-nil (entries_of j t)))
      ]),
    )

module _ (slot_of : Bytes → ℕ) where
  pub route-cases :
      (r : Record) (t : Topic)
      → ((r.key ≡ none)
          × (route slot_of r t ≡ (
            t.round_robin_next,
            record t { round_robin_next = (t.round_robin_next + 1) % length t.partitions },
          )))
        ⊎ ((k : Bytes) × (r.key ≡ some k)
            × (route slot_of r t ≡ (key_slot slot_of k (length t.partitions), t)))
  unfolding route
  route-cases r t = elim (Option-cases r.key) [
    | inl e ↦ inl (e, rw (e, route) refl)
    | inr (k, e) ↦ inr (k, e, rw (e, route) refl)
  ]

  -- A route stays within the topic and moves nothing but the turn.
  pub route-inside :
      (r : Record) (t : Topic)
      → IsTopic t
      → ((route slot_of r t).0 < length t.partitions)
        × IsTopic (route slot_of r t).1
        × ((route slot_of r t).1.partitions ≡ t.partitions)
  unfolding key_slot
  route-inside r t h =
      let some_ : 0 < length t.partitions = omega (arith, h.inside) in
      elim (route-cases r t) [
        | inl (e, is) ↦ rw is (h.inside, record { inside = mod-lt _ some_; valid = h.valid }, refl)
        | inr (k, e, is) ↦ rw is (mod-lt _ some_, h, refl)
      ]
