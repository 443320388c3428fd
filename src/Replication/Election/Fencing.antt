-- ===== src/Replication/Election/Fencing.antt =====
-- A deposed leader stays deposed.
use event_stream_broker.Prelude.{
  ℕ, suc, ◌≤◌, ◌<◌, ◌≡◌, refl, sym, ap, ◌∙◌, subst, inl, inr, Bool, List, [], ◌∷◌, arith, lt→ltb,
}
use event_stream_broker.Failure.{Result, ok, err, fenced}
use event_stream_broker.Replication.Election.{
  Candidate, ElectionResult, PartitionElector, elect, accept_from,
}
use event_stream_broker.Replication.Election.Safety.{elect-Elects}

-- Elections one after another, refused ones included.
abbrev pub run : List (List Candidate × Bool) → PartitionElector → PartitionElector
run [] e = e
run ((cs, allow_unclean) ∷ rest) e = run rest (elect cs allow_unclean e).1

abbrev Told : PartitionElector → Result ElectionResult × PartitionElector → Type 0
Told e (result, e') =
    (e.epoch ≤ e'.epoch) × ((r : ElectionResult) → result ≡ ok r → r.epoch ≡ e'.epoch)

crowned :
    (e : PartitionElector) (r : ElectionResult) {outcome : Result ElectionResult × PartitionElector}
    → outcome ≡ (ok r, record e { epoch = suc e.epoch })
    → r.epoch ≡ suc e.epoch
    → Told e outcome
crowned e r ran term = subst (Told e) (sym ran) (
  omega arith,
  λ r' h. let same : r ≡ r' = cc in ap (λ (q : ElectionResult). q.epoch) (sym same) ∙ term,
)

-- An election that goes through takes the next epoch and tells it; a refused one keeps the epoch.
elect-epoch :
    (cs : List Candidate) (allow_unclean : Bool) (e : PartitionElector)
    → Told e (elect cs allow_unclean e)
unfolding elect
elect-epoch [] allow_unclean e = (omega arith, λ r h. cc)
elect-epoch (c ∷ cs) allow_unclean e = elim (elect-Elects c cs allow_unclean e) [
  | inl (r, w, ran, wins, _, _, _) ↦ crowned e r ran wins.term
  | inr (inl (_, _, ran)) ↦ subst (Told e) (sym ran) (omega arith, λ r h. cc)
  | inr (inr (_, _, r, w, ran, wins, _)) ↦ crowned e r ran wins.term
]

run-epoch :
    (calls : List (List Candidate × Bool)) (e : PartitionElector) → e.epoch ≤ (run calls e).epoch
run-epoch [] e = omega arith
run-epoch ((cs, allow_unclean) ∷ rest) e =
    omega (arith, (elect-epoch cs allow_unclean e).0, run-epoch rest (elect cs allow_unclean e).1)

-- Once an election has gone through, every message from an earlier epoch is fenced, whatever
-- elections follow, and changes nothing.
pub deposed_forever :
    (cs : List Candidate) (allow_unclean : Bool) (e : PartitionElector) {r : ElectionResult}
    → (elect cs allow_unclean e).0 ≡ ok r
    → (calls : List (List Candidate × Bool)) (old : ℕ) → old < r.epoch
    → let later = run calls (elect cs allow_unclean e).1 in
      accept_from old later ≡ (err fenced, later)
unfolding accept_from
deposed_forever cs allow_unclean e {r} won calls old behind =
    let e' = (elect cs allow_unclean e).1 in
    let told = (elect-epoch cs allow_unclean e).1 r won in
    rw (lt→ltb old (run calls e').epoch (omega (arith, behind, told, run-epoch calls e'))) refl
