-- ===== src/Transactions/Transaction/Visible.antt =====
-- A read-committed consumer sees all records of a transaction or none.
use event_stream_broker.Prelude.{
  ℕ, ◌≡◌, refl, ap, ◌∙◌, List, [], ◌∷◌, ◌++◌, if◌then◌else◌, Bool-cases, inl, inr, arith,
}
use event_stream_broker.Transactions.Transaction.{
  State, Transaction, is_committed, visible_to_read_committed,
}

-- The log's records, each with the state of its transaction, one transaction after another.
abbrev pub tagged : State → List (ℕ × ℕ) → List (ℕ × ℕ × State)
tagged s [] = []
tagged s ((partition, offset) ∷ rs) = (partition, offset, s) ∷ tagged s rs

abbrev pub on_log : List Transaction → List (ℕ × ℕ × State)
on_log [] = []
on_log (t ∷ ts) = tagged t.state t.records ++ on_log ts

abbrev pub promised : List Transaction → List (ℕ × ℕ)
promised [] = []
promised (t ∷ ts) = (if is_committed t.state then t.records else []) ++ promised ts

visible-append :
    (xs ys : List (ℕ × ℕ × State))
    → visible_to_read_committed (xs ++ ys)
      ≡ visible_to_read_committed xs ++ visible_to_read_committed ys
unfolding visible_to_read_committed
visible-append [] ys = refl
visible-append ((p, o, s) ∷ xs) ys = elim (Bool-cases (is_committed s)) [
  | inl yes_ ↦ simp yes_ (ap (λ l. (p, o) ∷ l) (visible-append xs ys))
  | inr no_ ↦ simp no_ (visible-append xs ys)
]

visible-tagged :
    (s : State) (rs : List (ℕ × ℕ))
    → visible_to_read_committed (tagged s rs) ≡ (if is_committed s then rs else [])
unfolding visible_to_read_committed
visible-tagged s [] = ground arith
visible-tagged s ((p, o) ∷ rs) = elim (Bool-cases (is_committed s)) [
  | inl yes_ ↦
      let rest : visible_to_read_committed (tagged s rs) ≡ rs = visible-tagged s rs ∙ rw yes_ in
      simp yes_ (ap (λ l. (p, o) ∷ l) rest)
  | inr no_ ↦
      let rest : visible_to_read_committed (tagged s rs) ≡ [] = visible-tagged s rs ∙ rw no_ in
      simp no_ rest
]

visible-nil : visible_to_read_committed [] ≡ []
unfolding visible_to_read_committed
visible-nil = refl

-- Of transactions that follow one another on the log, exactly the committed ones are visible, each
-- with all of its records and in the order of the log.
pub visible-on_log : (ts : List Transaction) → visible_to_read_committed (on_log ts) ≡ promised ts
visible-on_log [] = visible-nil
visible-on_log (t ∷ ts) =
    visible-append (tagged t.state t.records) (on_log ts)
    ∙ ap (λ l. l ++ visible_to_read_committed (on_log ts)) (visible-tagged t.state t.records)
    ∙ ap (λ l. (if is_committed t.state then t.records else []) ++ l) (visible-on_log ts)
