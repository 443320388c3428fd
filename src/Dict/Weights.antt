-- ===== src/Dict/Weights.antt =====
-- Dictionaries with a weight on each value: what a write or a removal does to the total.
use event_stream_broker.Prelude.{
  ℕ, ◌+◌, ◌≡◌, refl, true, false, none, some, [], ◌∷◌, arith, Eq, ◌==◌, if◌then◌else◌, sym, ap, ◌∙◌,
  inl, inr, Bool-cases, ==_self, All,
}
use mathlib.Core.Option.{some-injective}
use event_stream_broker.Prelude.Sets.{mem, Distinct}
use event_stream_broker.Dict.{Dict, keys, values, get, put, remove}

module _ {ℓ κ} {K : Type ℓ} {V : Type κ} (weight : V → ℕ) where
  unfoldable pub total : Dict K V → ℕ
  total [] = 0
  total ((k, v) ∷ d) = weight v + total d

module _ {ℓ κ} {K : Type ℓ} {V : Type κ} ⦃e : Eq K⦄ where
  mem-put :
      (k j : K) (v : V) (d : Dict K V)
      → mem j (keys (put k v d)) ≡ (if k == j then true else mem j (keys d))
  unfolding mem put
  mem-put k j v [] = refl
  mem-put k j v ((i, w) ∷ d) =
      ground (arith, e.same_iff k j, e.same_iff i k, e.same_iff i j, mem-put k j v d)

  mem-remove : (k j : K) (d : Dict K V) → mem j (keys d) ≡ false → mem j (keys (remove k d)) ≡ false
  unfolding mem remove
  mem-remove k j [] h = h
  mem-remove k j ((i, w) ∷ d) h = ground (arith, h, mem-remove k j d)

  remove-missing : (k : K) (d : Dict K V) → mem k (keys d) ≡ false → remove k d ≡ d
  unfolding mem remove
  remove-missing k [] h = refl
  remove-missing k ((i, w) ∷ d) h = ground (arith, h, remove-missing k d)

  -- A key is set once in a dict that writes make.
  pub Distinct-put :
      (k : K) (v : V) (d : Dict K V) → Distinct (keys d) → Distinct (keys (put k v d))
  unfolding put mem
  Distinct-put k v [] h = (refl, tt)
  Distinct-put k v ((i, w) ∷ d) h = elim (Bool-cases (i == k)) [
    | inl same ↦ rw same h
    | inr other ↦
        let new : mem i (keys (put k v d)) ≡ false =
          ground (arith, other, h.0, mem-put k i v d, e.same_iff k i, e.same_iff i k) in
        rw other (new, Distinct-put k v d h.1)
  ]

  pub Distinct-remove : (k : K) (d : Dict K V) → Distinct (keys d) → Distinct (keys (remove k d))
  unfolding remove
  Distinct-remove k [] h = h
  Distinct-remove k ((i, w) ∷ d) h = elim (Bool-cases (i == k)) [
    | inl same ↦ rw same (Distinct-remove k d h.1)
    | inr other ↦ rw other (mem-remove k i d h.0, Distinct-remove k d h.1)
  ]

  pub get-mem : (k : K) (v : V) (d : Dict K V) → get k d ≡ some v → mem k (keys d) ≡ true
  unfolding get mem
  get-mem k v [] h = cc
  get-mem k v ((i, w) ∷ d) h = elim (Bool-cases (i == k)) [
    | inl same ↦ rw same refl
    | inr other ↦ rw other (get-mem k v d (rw other at h))
  ]

module _ {ℓ κ} {K : Type ℓ} {V : Type κ} ⦃e : Eq K⦄ (weight : V → ℕ) where
  pub total-put_new :
      (k : K) (v : V) (d : Dict K V)
      → get k d ≡ none
      → total weight (put k v d) ≡ total weight d + weight v
  unfolding get put total
  total-put_new k v [] h = omega arith
  total-put_new k v ((i, w) ∷ d) h = ground (arith, h, total-put_new k v d)

  pub total-put_old :
      (k : K) (v w : V) (d : Dict K V)
      → get k d ≡ some w
      → total weight (put k v d) + weight w ≡ total weight d + weight v
  unfolding get put total
  total-put_old k v w [] h = cc
  total-put_old k v w ((i, u) ∷ d) h = elim (Bool-cases (i == k)) [
    | inl same ↦
        let is : u ≡ w = some-injective u w (rw same at h) in rw same (omega (arith, ap weight is))
    | inr other ↦ rw other (omega (arith, total-put_old k v w d (rw other at h)))
  ]

  pub total-remove :
      (k : K) (w : V) (d : Dict K V)
      → Distinct (keys d)
      → get k d ≡ some w
      → total weight (remove k d) + weight w ≡ total weight d
  unfolding get remove total
  total-remove k w [] h at = cc
  total-remove k w ((i, u) ∷ d) h at = elim (Bool-cases (i == k)) [
    | inl same ↦
        let is : u ≡ w = some-injective u w (rw same at at) in
        let key : i ≡ k = (e.same_iff i k).0 same in
        let gone = remove-missing k d (ap (λ j. mem j (keys d)) (sym key) ∙ h.0) in
        rw same (omega (arith, ap weight is, ap (total weight) gone))
    | inr other ↦ rw other (omega (arith, total-remove k w d h.1 (rw other at at)))
  ]

module _ {ℓ κ μ} {K : Type ℓ} {V : Type κ} ⦃e : Eq K⦄ (P : V → Type μ) where
  -- What holds of every value that is found holds of all values, where the keys are distinct.
  pub All-values :
      (d : Dict K V)
      → Distinct (keys d)
      → ((k : K) (v : V) → get k d ≡ some v → P v)
      → All P (values d)
  unfolding get
  All-values [] h p = tt
  All-values ((k, v) ∷ d) h p = (p k v (rw (==_self k) refl), All-values d h.1 later)
    where
      later : (j : K) (w : V) → get j d ≡ some w → P w
      later j w at = elim (Bool-cases (k == j)) [
        | inl same ↦
            let key : k ≡ j = (e.same_iff k j).0 same in
            let there = get-mem j w d at in absurd (cc (h.0, key, there))
        | inr other ↦ p j w (rw other at)
      ]
