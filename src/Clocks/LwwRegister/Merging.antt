-- ===== src/Clocks/LwwRegister/Merging.antt =====
-- Merges agree as long as no two writes have the same rank.
use event_stream_broker.Prelude.{
  ℕ, ◌≤◌, ◌≡◌, refl, ◌⊎◌, inl, inr, true, false, String, arith, Bool-cases,
}
use event_stream_broker.Failure.{ok}
use event_stream_broker.Clocks.LwwRegister.{LwwRegister, write, outranks, merge}

-- The same time and the same node.
abbrev pub SameRank : LwwRegister → LwwRegister → Type 0
SameRank a b = (a.timestamp ≡ b.timestamp) × (a.node_id ≡ b.node_id)

outranks_no_way_back : (a b : LwwRegister) → outranks a b ≡ true → outranks b a ≡ false
unfolding outranks
outranks_no_way_back a b h = ground (arith, h)

outranks_no_self : (a : LwwRegister) → outranks a a ≡ false
unfolding outranks
outranks_no_self a = ground arith

outranks-SameRank : (a b : LwwRegister) → outranks a b ≡ false → outranks b a ≡ false → SameRank a b
unfolding outranks
outranks-SameRank a b h k = (ground (arith, h, k), ground (arith, h, k))

-- Where one outranks the other, both merges give it.
settled :
    (low high : LwwRegister)
    → outranks low high ≡ true
    → ((merge high low).1 ≡ high)
      × ((merge low high).1 ≡ high)
      × (merge low high ≡ (false, high))
      × (merge high high ≡ (false, high))
unfolding merge
settled low high h =
    let back = outranks_no_way_back low high h in
    (rw h refl, rw back refl, rw back refl, rw (outranks_no_self high) refl)

-- Two registers with different ranks are the same after each has merged the other, and it is the one of
-- the two that no other outranks; merging again changes nothing.
pub merge-agrees :
    (a b : LwwRegister)
    → ¬ SameRank a b
    → let joined = (merge b a).1 in
      ((merge a b).1 ≡ joined)
      × ((joined ≡ a) ⊎ (joined ≡ b))
      × (outranks joined a ≡ false)
      × (outranks joined b ≡ false)
      × (merge b joined ≡ (false, joined))
      × (merge a joined ≡ (false, joined))
merge-agrees a b apart = elim (Bool-cases (outranks a b)) [
  | inl lower ↦
      let (joined, mine, again, same) = settled a b lower in
      rw joined (mine, inr refl, outranks_no_way_back a b lower, outranks_no_self b, same, again)
  | inr high ↦ elim (Bool-cases (outranks b a)) [
    | inl lower ↦
        let (joined, mine, again, same) = settled b a lower in
        rw mine (joined, inl refl, outranks_no_self a, outranks_no_way_back b a lower, again, same)
    | inr none_ ↦ absurd (apart (outranks-SameRank a b high none_))
  ]
]

-- A node that writes twice at one time gives two values the same rank. Both writes are accepted, and
-- registers with the one and the other keep them for ever: neither merge changes anything.
pub merge-diverges :
    (v w : String) (t n : ℕ) (r : LwwRegister)
    → r.timestamp ≤ t
    → let first_ = write v t n r in
      let second = write w t n first_.1 in
      (first_.0 ≡ ok tt)
      × (second.0 ≡ ok tt)
      × (first_.1.value ≡ v)
      × (second.1.value ≡ w)
      × (merge second.1 first_.1 ≡ (false, first_.1))
      × (merge first_.1 second.1 ≡ (false, second.1))
unfolding merge outranks write
merge-diverges v w t n r h = ground (arith, h)
