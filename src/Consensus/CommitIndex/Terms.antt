-- ===== src/Consensus/CommitIndex/Terms.antt =====
-- Only entries of the leader's own term carry the commit index, and they do so uncounted.
use event_stream_broker.Prelude.{
  List, [], ◌∷◌, ℕ, ◌≤◌, ◌≡◌, refl, ap, ◌∙◌, subst, ◌⊎◌, inl, inr, true, Option, none, some, arith,
  ltb, nat_eq, max, Bool-cases,
}
use event_stream_broker.Dict.{get}
use event_stream_broker.Consensus.CommitIndex.{
  CommitIndex, majority, advance_at, try_advance, is_current, commit_prior_via_current,
}

-- The methods that change a commit index, refused calls included.
pub data Step : CommitIndex → CommitIndex → Type 0 where
  advances :
      (index replica_count : ℕ) (c : CommitIndex) → Step c (try_advance index replica_count c).1
  carries :
      (prior current : ℕ) (c : CommitIndex) → Step c (commit_prior_via_current prior current c).1

pub data Reach : CommitIndex → CommitIndex → Type 0 where
  here : (c : CommitIndex) → Reach c c
  next : {c d e : CommitIndex} → Reach c d → Step d e → Reach c e

-- Between two states of one term: the term and the entries stay, the index does not move back, and
-- where it moved it stands at an entry that is not of an earlier term.
pub record Committed (c d : CommitIndex) : Type 0 where
  pub term : d.current_term ≡ c.current_term
  pub entries : d.entry_terms ≡ c.entry_terms
  pub forward : c.commit_index ≤ d.commit_index
  pub own :
      (d.commit_index ≡ c.commit_index)
      ⊎ (t : ℕ) × (get d.commit_index c.entry_terms ≡ some t) × (c.current_term ≤ t)

unmoved : (c : CommitIndex) → Committed c c
unmoved c = record { term = refl; entries = refl; forward = omega arith; own = inl refl }

moved :
    (c : CommitIndex) (index t : ℕ)
    → get index c.entry_terms ≡ some t
    → c.current_term ≤ t
    → Committed c (record c { commit_index = max c.commit_index index })
moved c index t at young = record {
  term = refl;
  entries = refl;
  forward = omega arith;
  own = elim (Bool-cases (ltb c.commit_index index)) [
    | inl further ↦ inr (t, ap (λ n. get n c.entry_terms) (ground (arith, further)) ∙ at, young)
    | inr behind ↦ inl (ground (arith, behind))
  ];
}

advance_at-Committed :
    (index replica_count : ℕ) (o : Option ℕ) (c : CommitIndex)
    → get index c.entry_terms ≡ o
    → Committed c (advance_at index replica_count o c).1
unfolding advance_at
advance_at-Committed index replica_count none c at = unmoved c
advance_at-Committed index replica_count (some t) c at =
    elim (Bool-cases (ltb replica_count (majority c))) [
      | inl few ↦ rw few (unmoved c)
      | inr enough ↦ elim (Bool-cases (ltb t c.current_term)) [
        | inl old ↦ rw (enough, old) (unmoved c)
        | inr young ↦ rw (enough, young) (moved c index t at (ground (arith, young)))
      ]
    ]

current-some :
    (o : Option ℕ) (term : ℕ) → is_current o term ≡ true → (t : ℕ) × (o ≡ some t) × (term ≤ t)
unfolding is_current
current-some none term h = cc
current-some (some t) term h = (t, refl, ground (arith, h))

carry-Committed :
    (prior current : ℕ) (c : CommitIndex) → Committed c (commit_prior_via_current prior current c).1
unfolding commit_prior_via_current
carry-Committed prior current c =
    elim (Bool-cases (is_current (get current c.entry_terms) c.current_term)) [
      | inr other ↦ rw other (unmoved c)
      | inl same ↦ elim (Bool-cases (ltb current prior)) [
        | inl before_ ↦ rw (same, before_) (unmoved c)
        | inr beyond ↦
            let (t, at, young) = current-some (get current c.entry_terms) c.current_term same in
            rw (same, beyond) (moved c current t at young)
      ]
    ]

Step-Committed : {c d : CommitIndex} → Step c d → Committed c d
unfolding try_advance
Step-Committed (advances index replica_count c) =
    advance_at-Committed index replica_count (get index c.entry_terms) c refl
Step-Committed (carries prior current c) = carry-Committed prior current c

join : {c d e : CommitIndex} → Committed c d → Committed d e → Committed c e
join {c} {d} {e} h k = record {
  term = k.term ∙ h.term;
  entries = k.entries ∙ h.entries;
  forward = omega (arith, h.forward, k.forward);
  own = elim k.own [
    | inr (t, at, young) ↦
        inr (
          t,
          subst (λ d'. get e.commit_index d' ≡ some t) h.entries at,
          omega (arith, young, h.term),
        )
    | inl stays ↦ elim h.own [
      | inl still ↦ inl (stays ∙ still)
      | inr (t, at, young) ↦ inr (t, ap (λ n. get n c.entry_terms) stays ∙ at, young)
    ]
  ];
}

-- Whatever calls a leader makes in its term, refused ones included, its commit index does not move
-- back, and if it moved it stands at an entry that is not of an earlier term: no entry of an earlier
-- term is ever committed by itself.
pub Reach-Committed : {c d : CommitIndex} → Reach c d → Committed c d
Reach-Committed (here c) = unmoved c
Reach-Committed (next r s) = join (Reach-Committed r) (Step-Committed s)

-- Direct commits, one after the other, each with the number of replicas that hold its index.
abbrev pub try_all : List (ℕ × ℕ) → CommitIndex → CommitIndex
try_all [] c = c
try_all ((index, replica_count) ∷ calls) c = try_all calls (try_advance index replica_count c).1
