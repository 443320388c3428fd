-- ===== src/Log/Topics/Order.antt =====
-- Records with the same key stay in one partition, in their order.
use event_stream_broker.Prelude.{
  ℕ, ◌≡◌, ◌≢◌, refl, sym, ap, ◌∙◌, inl, inr, Bool, true, false, none, some, List, [], ◌∷◌, ◌++◌,
  append-nil, append_assoc, arith, nat_beq, nat_eq, bytes_eq, ◌==◌, ==_iff, if◌then◌else◌,
  Bool-cases, length, get_elem?, keep, keep-append,
}
use event_stream_broker.Failure.{ok}
use event_stream_broker.Log.Records.{Bytes, Record}
use event_stream_broker.Log.Topics.{Topic, key_slot, route, append}
use event_stream_broker.Log.Topics.Routing.{
  IsTopic, entries_of, entries-same, append_at-grows, route-cases, route-inside,
}

-- The records with a key.
unfoldable pub keyed : Bytes → Record → Bool
keyed k r = elim r.key [ none ↦ false | some j ↦ j == k ]

keyed-some : (k j : Bytes) (r : Record) → r.key ≡ some j → keyed k r ≡ (j == k)
unfolding keyed
keyed-some k j r e = rw (e, keyed) refl

keyed-none : (k : Bytes) (r : Record) → r.key ≡ none → keyed k r ≡ false
unfolding keyed
keyed-none k r e = rw (e, keyed) refl

keep_one :
    (p : Record → Bool) (r : Record) (b : Bool)
    → p r ≡ false
    → keep p (if b then r ∷ [] else []) ≡ []
keep_one p r true h = rw h refl
keep_one p r false h = refl

nothing : (b : Bool) → [] ≡ (if b then keep (λ (r : Record). true) [] else [])
nothing true = refl
nothing false = refl

keep-if :
    (p : Record → Bool) (b : Bool) (xs : List Record)
    → keep p (if b then xs else []) ≡ (if b then keep p xs else [])
keep-if p true xs = refl
keep-if p false xs = refl

join :
    (p : Record → Bool) (b : Bool) (xs ys : List Record)
    → (if b then keep p xs else []) ++ (if b then keep p ys else [])
      ≡ (if b then keep p (xs ++ ys) else [])
join p true xs ys = sym (keep-append p xs ys)
join p false xs ys = refl

module _ (slot_of : Bytes → ℕ) where
  append-grows :
      (r : Record) (t : Topic)
      → IsTopic t
      → let slot = (route slot_of r t).0 in
        let (result, t') = append slot_of r t in
        ((n : ℕ) × (result ≡ ok (slot, n)))
        × IsTopic t'
        × (length t'.partitions ≡ length t.partitions)
        × ((j : ℕ) → entries_of j t' ≡ entries_of j t ++ (if nat_beq slot j then r ∷ [] else []))
  unfolding append
  append-grows r t h =
      let (small, turned, same) = route-inside slot_of r t h in
      let slot = (route slot_of r t).0 in
      let u = (route slot_of r t).1 in
      let sized : length u.partitions ≡ length t.partitions = ap length same in
      let (fine, valid, count, grows) =
        append_at-grows slot r u turned (omega (arith, small, sized)) in
      (
        fine,
        valid,
        count ∙ sized,
        λ j.
            grows j
            ∙ ap (λ es. es ++ (if nat_beq slot j then r ∷ [] else []))
                (entries-same j u t (ap (λ ps. get_elem? ps j) same)),
      )

  -- A record with another key adds nothing to those with this one; one with this key goes to its slot.
  routed :
      (k : Bytes) (r : Record) (t : Topic) (j : ℕ)
      → let slot = (route slot_of r t).0 in
        let home = key_slot slot_of k (length t.partitions) in
        keep (keyed k) (if nat_beq slot j then r ∷ [] else [])
        ≡ (if nat_beq home j then keep (keyed k) (r ∷ []) else [])
  routed k r t j = elim (Bool-cases (keyed k r)) [
    | inr other ↦
        let home = key_slot slot_of k (length t.partitions) in
        keep_one (keyed k) r (nat_beq (route slot_of r t).0 j) other
        ∙ rw other (nothing (nat_beq home j))
    | inl mine ↦ elim (route-cases slot_of r t) [
      | inl (e, is) ↦ absurd (cc (keyed-none k r e, mine))
      | inr (k', e, is) ↦
          let key : k' ≡ k = (==_iff k' k).0 (sym (keyed-some k k' r e) ∙ mine) in
          let home = key_slot slot_of k (length t.partitions) in
          let arrives : (route slot_of r t).0 ≡ home =
            ap (λ o. o.0) is ∙ ap (λ (l : Bytes). key_slot slot_of l (length t.partitions)) key in
          ap (λ (n : ℕ). keep (keyed k) (if nat_beq n j then r ∷ [] else [])) arrives
          ∙ keep-if (keyed k) (nat_beq home j) (r ∷ [])
    ]
  ]

  -- Records appended one after another.
  unfoldable pub append_all : List Record → Topic → Topic
  append_all [] t = t
  append_all (r ∷ rs) t = append_all rs (append slot_of r t).1

  append_all-keyed :
      (k : Bytes) (rs : List Record) (t : Topic) (j : ℕ)
      → IsTopic t
      → let t' = append_all rs t in
        let home = key_slot slot_of k (length t.partitions) in
        IsTopic t'
        × (length t'.partitions ≡ length t.partitions)
        × (keep (keyed k) (entries_of j t')
            ≡ keep (keyed k) (entries_of j t) ++ (if nat_beq home j then keep (keyed k) rs else []))
  unfolding append_all
  append_all-keyed k [] t j h =
      let home = key_slot slot_of k (length t.partitions) in
      (
        h,
        refl,
        sym (append-nil (keep (keyed k) (entries_of j t)))
            ∙ ap (λ l. keep (keyed k) (entries_of j t) ++ l) (nothing (nat_beq home j)),
      )
  append_all-keyed k (r ∷ rs) t j h =
      let (fine, valid, count, grows) = append-grows r t h in
      let (valid', count', kept) = append_all-keyed k rs (append slot_of r t).1 j valid in
      let old = entries_of j t in
      let home = key_slot slot_of k (length t.partitions) in
      let at_home = nat_beq home j in
      let first_ : keep (keyed k) (entries_of j (append slot_of r t).1)
          ≡ keep (keyed k) old ++ (if at_home then keep (keyed k) (r ∷ []) else []) =
        ap (keep (keyed k)) (grows j)
        ∙ keep-append (keyed k) old (if nat_beq (route slot_of r t).0 j then r ∷ [] else [])
        ∙ ap (λ l. keep (keyed k) old ++ l) (routed k r t j) in
      (
        valid',
        count' ∙ count,
        kept
            ∙ ap
                (λ (n : ℕ).
                  keep (keyed k) (entries_of j (append slot_of r t).1)
                  ++ (if nat_beq (key_slot slot_of k n) j then keep (keyed k) rs else []))
                count
            ∙ ap (λ l. l ++ (if at_home then keep (keyed k) rs else [])) first_
            ∙ append_assoc (keep (keyed k) old) (if at_home then keep (keyed k) (r ∷ []) else [])
                (if at_home then keep (keyed k) rs else [])
            ∙ ap (λ l. keep (keyed k) old ++ l) (join (keyed k) at_home (r ∷ []) rs),
      )

  -- Per-key order: whatever records are appended to a topic, those with one key all go to the key's own
  -- partition, after what was there and in their order, none to any other partition, and the topic stays
  -- well formed with as many partitions as it had.
  pub append_all-per_key :
      (k : Bytes) (rs : List Record) (t : Topic)
      → IsTopic t
      → let t' = append_all rs t in
        let home = key_slot slot_of k (length t.partitions) in
        IsTopic t'
        × (length t'.partitions ≡ length t.partitions)
        × (keep (keyed k) (entries_of home t')
            ≡ keep (keyed k) (entries_of home t) ++ keep (keyed k) rs)
        × ((j : ℕ) → home ≢ j → keep (keyed k) (entries_of j t') ≡ keep (keyed k) (entries_of j t))
  append_all-per_key k rs t h =
      let home = key_slot slot_of k (length t.partitions) in
      let (valid, count, mine) = append_all-keyed k rs t home h in
      let self : nat_beq home home ≡ true = ground arith in
      (
        valid,
        count,
        mine
            ∙ ap (λ b. keep (keyed k) (entries_of home t) ++ (if b then keep (keyed k) rs else []))
                self,
        λ j apart.
            let other : nat_beq home j ≡ false = ground (arith, apart) in
            (append_all-keyed k rs t j h).2
            ∙ ap (λ b. keep (keyed k) (entries_of j t) ++ (if b then keep (keyed k) rs else []))
                other
            ∙ append-nil (keep (keyed k) (entries_of j t)),
      )
