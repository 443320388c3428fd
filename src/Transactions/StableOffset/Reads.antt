-- ===== src/Transactions/StableOffset/Reads.antt =====
-- What a read-committed consumer may see.
use event_stream_broker.Prelude.{
  ℕ, suc, ◌+◌, ◌≢◌, lt→ltb, le→ltb, ==_iff, ◌≤◌, ◌<◌, ◌≡◌, ◌↔◌, refl, inl, inr, true, false, [],
  ◌∷◌, le-min_all, String, arith, ltb, leb, string_eq, keep, length, All, Bool-cases,
}
use event_stream_broker.Failure.{ok, err, invalid}
use event_stream_broker.Dict.{
  put, remove, values, contains, get-put_self, All-values-get, All-values-remove,
}
use event_stream_broker.Transactions.StableOffset.{
  LastStableOffset, begin, resolve, last_stable_offset, is_visible_to_read_committed, withheld_gap,
  AbortedTxn, AbortedIndex, is_aborted, prune_below, PartitionOffsets, make_offsets,
  readable_ceiling,
}

-- A read-committed consumer sees an offset exactly when it is below the high watermark and below
-- the first offset of every transaction that is still open.
pub visible_iff :
    (offset : ℕ) (l : LastStableOffset)
    → (is_visible_to_read_committed offset l ≡ true)
      ↔ ((offset < l.high_watermark) × All (λ m. offset < m) (values l.open_transactions))
unfolding is_visible_to_read_committed last_stable_offset
visible_iff offset l =
    let bound = le-min_all (suc offset) l.high_watermark (values l.open_transactions) in
    ((λ h. bound.0 (ground (arith, h))), (λ h. lt→ltb _ _ (bound.1 h)))

lso-le :
    (n : ℕ) (l : LastStableOffset)
    → (n ≤ last_stable_offset l)
      ↔ ((n ≤ l.high_watermark) × All (λ m. n ≤ m) (values l.open_transactions))
unfolding last_stable_offset
lso-le n l = le-min_all n l.high_watermark (values l.open_transactions)

put-withholds :
    (id : String) (first offset : ℕ) (l : LastStableOffset)
    → first ≤ offset
    → is_visible_to_read_committed offset
        (record l { open_transactions = put id first l.open_transactions })
      ≡ false
put-withholds id first offset l late =
    let l' : LastStableOffset = record l { open_transactions = put id first l.open_transactions } in
    let found = get-put_self id first l.open_transactions in
    elim (Bool-cases (is_visible_to_read_committed offset l')) [
      | inl seen ↦ absurd (
          omega (
            arith,
            late,
            All-values-get (λ m. offset < m) id l'.open_transactions
                ((visible_iff offset l').0 seen).1 found,
          ))
      | inr hidden ↦ hidden
    ]

-- While a transaction is open, nothing from its first offset on is visible.
pub begin-withholds :
    (id : String) (first offset : ℕ) (l : LastStableOffset)
    → (begin id first l).0 ≡ ok tt
    → first ≤ offset
    → is_visible_to_read_committed offset (begin id first l).1 ≡ false
unfolding begin
begin-withholds id first offset l began late = elim (Bool-cases (ltb l.high_watermark first)) [
  | inl past ↦ cc (rw past at began)
  | inr within ↦ rw within (put-withholds id first offset l late)
]

-- Resolving a transaction never takes back what was visible, and does not move the high watermark.
pub resolve-monotone :
    (id : String) (l : LastStableOffset)
    → ((resolve id l).1.high_watermark ≡ l.high_watermark)
      × (last_stable_offset l ≤ last_stable_offset (resolve id l).1)
unfolding resolve
resolve-monotone id l =
    let bound = (lso-le (last_stable_offset l) l).0 (omega arith) in
    elim (Bool-cases (contains id l.open_transactions)) [
      | inl open_ ↦ rw open_ (
        refl,
        (lso-le (last_stable_offset l)
              (record l { open_transactions = remove id l.open_transactions })).1
            (
              bound.0,
              All-values-remove (λ m. last_stable_offset l ≤ m) id l.open_transactions bound.1,
            ),
      )
      | inr absent ↦ rw absent (refl, omega arith)
    ]

-- The gap that is reported is what lies between the last stable offset and the high watermark.
pub withheld_gap_lem :
    (l : LastStableOffset) → last_stable_offset l + withheld_gap l ≡ l.high_watermark
unfolding withheld_gap
withheld_gap_lem l = omega (arith, (lso-le (last_stable_offset l) l).0 (omega arith))

keep-le :
    (n : ℕ) (es : AbortedIndex)
    → length (keep (λ (e : AbortedTxn). leb n e.last_offset) es) ≤ length es
keep-le n [] = omega arith
keep-le n (e ∷ es) = ground (arith, keep-le n es)

is_aborted-keep :
    (pid offset n : ℕ) (es : AbortedIndex)
    → n ≤ offset
    → is_aborted pid offset (keep (λ (e : AbortedTxn). leb n e.last_offset) es)
      ≡ is_aborted pid offset es
unfolding is_aborted
is_aborted-keep pid offset n [] above = refl
is_aborted-keep pid offset n (e ∷ es) above = elim (Bool-cases (leb n e.last_offset)) [
  | inl stays ↦ rw stays (ground (arith, is_aborted-keep pid offset n es above))
  | inr gone ↦ rw gone (ground (arith, gone, above, is_aborted-keep pid offset n es above))
]

-- Pruning the index below the log start changes no answer at or above the log start, and it counts
-- what it dropped.
pub prune_below_lem :
    (log_start : ℕ) (entries : AbortedIndex)
    → let (dropped, kept) = prune_below log_start entries in
      ((pid offset : ℕ)
        → log_start ≤ offset
        → is_aborted pid offset kept ≡ is_aborted pid offset entries)
      × (dropped + length kept ≡ length entries)
unfolding prune_below
prune_below_lem log_start entries = (
  λ pid offset above. is_aborted-keep pid offset log_start entries above,
  omega (arith, keep-le log_start entries),
)

-- The watermark and the last stable offset of a partition always form a valid pair, and a consumer
-- reads up to one or the other by its isolation level; any other level is refused.
pub readable_ceiling_lem :
    (level : String) (l : LastStableOffset)
    → (o : PartitionOffsets) × (make_offsets l.high_watermark (last_stable_offset l) ≡ ok o)
      × (readable_ceiling "read-uncommitted" o ≡ ok l.high_watermark)
      × (readable_ceiling "read-committed" o ≡ ok (last_stable_offset l))
      × (level ≢ "read-uncommitted"
          → level ≢ "read-committed"
          → readable_ceiling level o ≡ err invalid)
unfolding make_offsets readable_ceiling
readable_ceiling_lem level l =
    let bound = (lso-le (last_stable_offset l) l).0 (omega arith) in
    (
      record { high_watermark = l.high_watermark; last_stable_offset = last_stable_offset l },
      rw (le→ltb l.high_watermark (last_stable_offset l) bound.0),
      refl,
      refl,
      λ a b. ground (arith, a, b, ==_iff level "read-uncommitted", ==_iff level "read-committed"),
    )
