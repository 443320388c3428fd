-- ===== src/Consensus/LogMatching/Agreement.antt =====
-- After an append the follower's log is the leader's.
use event_stream_broker.Prelude.{
  ℕ, ◌≤◌, ◌<◌, ◌≡◌, refl, sym, ap, ◌∙◌, ◌⊎◌, inl, inr, true, Option, none, some, [], ◌∷◌, arith,
  ltb, leb, nat_beq_iff, nat_eq, All, Bool-cases, if◌then◌else◌, leb→le, ltb→lt, ==_iff, ◌==◌,
}
use event_stream_broker.Failure.{Result, ok, err, invalid}
use event_stream_broker.Dict.{Dict, get, put, get-put, get-put-some, get-put_self, get-put_ne}
use event_stream_broker.Consensus.LogMatching.{FollowerLog, is_term, update, up_to, append}

-- Every entry of the one log is one of the other.
abbrev pub Matches : Dict ℕ ℕ → Dict ℕ ℕ → Type 0
Matches d leader = (i t : ℕ) → get i d ≡ some t → get i leader ≡ some t

-- The entries sent are the leader's.
abbrev pub Sent : Dict ℕ ℕ → Dict ℕ ℕ → Type 0
Sent leader = All (λ (e : ℕ × ℕ). get e.0 leader ≡ some e.1)

get-up_to : (n i : ℕ) (d : Dict ℕ ℕ) → get i (up_to n d) ≡ (if leb i n then get i d else none)
unfolding get up_to
get-up_to n i [] = ground arith
get-up_to n i ((j, t) ∷ d) = ground (arith, nat_beq_iff j i, get-up_to n i d)

put-Matches :
    (leader : Dict ℕ ℕ) (i t : ℕ) (d : Dict ℕ ℕ)
    → get i leader ≡ some t
    → Matches d leader
    → Matches (put i t d) leader
put-Matches leader i t d at h j u found = elim (get-put-some i j t d found) [
  | inl (same, value) ↦ ap (λ k. get k leader) (sym same) ∙ at ∙ ap some value
  | inr (other, old) ↦ h j u old
]

update-Matches :
    (leader new d : Dict ℕ ℕ) → Sent leader new → Matches d leader → Matches (update new d) leader
unfolding update
update-Matches leader [] d sent h = h
update-Matches leader ((i, t) ∷ new) d sent h =
    update-Matches leader new (put i t d) sent.1 (put-Matches leader i t d sent.0 h)

put-has :
    (leader : Dict ℕ ℕ) (i t j u : ℕ) (d : Dict ℕ ℕ)
    → get j leader ≡ some u
    → get i leader ≡ some t
    → get i d ≡ some t
    → get i (put j u d) ≡ some t
put-has leader i t j u d theirs own has = elim (Bool-cases (j == i)) [
  | inl same ↦
      let at : get i leader ≡ some u =
        ap (λ k. get k leader) (sym ((==_iff j i).0 same)) ∙ theirs in
      get-put j i u d ∙ rw same (sym at ∙ own)
  | inr other ↦ get-put_ne j i u d other ∙ has
]

update-has :
    (leader new d : Dict ℕ ℕ) (i t : ℕ)
    → Sent leader new
    → get i leader ≡ some t
    → get i d ≡ some t
    → get i (update new d) ≡ some t
unfolding update
update-has leader [] d i t sent own has = has
update-has leader ((j, u) ∷ new) d i t sent own has =
    update-has leader new (put j u d) i t sent.1 own (put-has leader i t j u d sent.0 own has)

update-holds :
    (leader new d : Dict ℕ ℕ)
    → Sent leader new
    → All (λ (e : ℕ × ℕ). get e.0 (update new d) ≡ some e.1) new
unfolding update
update-holds leader [] d sent = tt
update-holds leader ((i, t) ∷ new) d sent = (
  update-has leader new (put i t d) i t sent.1 sent.0 (get-put_self i t d),
  update-holds leader new (put i t d) sent.1,
)

is_term-some : (o : Option ℕ) (term : ℕ) → is_term o term ≡ true → o ≡ some term
unfolding is_term
is_term-some none term h = cc
is_term-some (some t) term h = ap some ((nat_beq_iff t term).0 h)

-- Two logs with the same term at an index have the same entries up to it.
abbrev pub LogMatching : Dict ℕ ℕ → Dict ℕ ℕ → Type 0
LogMatching d leader =
    (i t : ℕ) → get i d ≡ some t → get i leader ≡ some t → (j : ℕ) → j ≤ i → get j d ≡ get j leader

up_to-Matches :
    (leader d : Dict ℕ ℕ) (n : ℕ)
    → ((j : ℕ) → j ≤ n → get j d ≡ none ⊎ get j d ≡ get j leader)
    → Matches (up_to n d) leader
up_to-Matches leader d n h i t found = elim (Bool-cases (leb i n)) [
  | inl low ↦
      let at : get i d ≡ some t = sym (get-up_to n i d ∙ rw low refl) ∙ found in
      elim (h i (leb→le i n low)) [ inl absent ↦ cc | inr same ↦ sym same ∙ at ]
  | inr high ↦ let gone : get i (up_to n d) ≡ none = get-up_to n i d ∙ rw high refl in cc
]

-- Let the two logs have the log matching property, the follower have no entry at index 0, and the
-- leader send its own entries and its own term at the index before them. Then an append is refused
-- and changes nothing, or it is taken and every entry of the follower is the leader's, those that
-- were sent among them.
pub append-Matches :
    (prev_index prev_term : ℕ) (new leader : Dict ℕ ℕ) (f : FollowerLog)
    → LogMatching f.entries leader
    → get 0 f.entries ≡ none
    → (0 < prev_index → get prev_index leader ≡ some prev_term)
    → Sent leader new
    → let (result, f') = append prev_index prev_term new f in
      ((result ≡ err invalid) × (f' ≡ f))
      ⊎ ((result ≡ ok tt)
          × Matches f'.entries leader
          × All (λ (e : ℕ × ℕ). get e.0 f'.entries ≡ some e.1) new)
unfolding append
append-Matches prev_index prev_term new leader f matching bottom own sent =
    elim (Bool-cases (ltb 0 prev_index)) [
      | inr start ↦
          rw start
            (taken (λ j low. inl (ap (λ k. get k f.entries) (ground (arith, start, low)) ∙ bottom)))
      | inl inside ↦ elim (Bool-cases (is_term (get prev_index f.entries) prev_term)) [
        | inr differs ↦ rw (inside, differs) (inl (refl, refl))
        | inl agrees_ ↦
            let at = is_term-some (get prev_index f.entries) prev_term agrees_ in
            rw (inside, agrees_)
              (taken (λ j low.
                inr (matching prev_index prev_term at (own (ltb→lt 0 prev_index inside)) j low)))
      ]
    ]
  where
    after : Dict ℕ ℕ
    after = update new (up_to prev_index f.entries)

    taken :
        {B : Type 0}
        → ((j : ℕ) → j ≤ prev_index → get j f.entries ≡ none ⊎ get j f.entries ≡ get j leader)
        → B
          ⊎ ((◌≡◌ {A = Result (Unit {0})} (ok tt) (ok tt))
              × Matches after leader
              × All (λ (e : ℕ × ℕ). get e.0 after ≡ some e.1) new)
    taken low = inr (
      refl,
      update-Matches leader new (up_to prev_index f.entries) sent
          (up_to-Matches leader f.entries prev_index low),
      update-holds leader new (up_to prev_index f.entries) sent,
    )
