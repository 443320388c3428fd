-- ===== src/Dict.antt =====
-- Python's `dict`, in insertion order. Its laws are stated with the key test, so that they serve
-- whatever the key type is.
pub mod Weights
use event_stream_broker.Prelude.{
  ◌≡◌, refl, Bool, true, false, not, Option, none, some, List, [], ◌∷◌, map, ap, arith, Eq, ◌==◌,
  if◌then◌else◌, keep, sym, ◌∙◌, ◌⊎◌, inl, inr, Bool-cases, ==_self, All, subst,
}
use mathlib.Core.Option.{some-injective}

abbrev pub Dict {ℓ κ} : Type ℓ → Type κ → Type (ℓ ⊔ κ)
Dict K V = List (K × V)

module _ {ℓ κ} {K : Type ℓ} {V : Type κ} where
  -- d.values(), d.keys()
  abbrev pub values : Dict K V → List V
  values = map (λ e. e.1)

  abbrev pub keys : Dict K V → List K
  keys = map (λ e. e.0)

module _ {ℓ κ} {K : Type ℓ} {V : Type κ} ⦃e : Eq K⦄ where
  -- d.get(k)
  unfoldable pub get : K → Dict K V → Option V
  get k [] = none
  get k ((j, v) ∷ d) = if j == k then some v else get k d

  -- d[k] = v
  unfoldable pub put : K → V → Dict K V → Dict K V
  put k v [] = (k, v) ∷ []
  put k v ((j, w) ∷ d) = if j == k then (j, v) ∷ d else (j, w) ∷ put k v d

  -- del d[k]
  unfoldable pub remove : K → Dict K V → Dict K V
  remove k d = keep (λ entry. not (entry.0 == k)) d

  -- k in d
  abbrev pub contains : K → Dict K V → Bool
  contains k d = elim (get k d) [ none ↦ false | some _ ↦ true ]

  pub get-put :
      (k j : K) (v : V) (d : Dict K V) → get j (put k v d) ≡ (if k == j then some v else get j d)
  unfolding get put
  get-put k j v [] = refl
  get-put k j v ((i, w) ∷ d) =
      ground (arith, e.same_iff k j, e.same_iff i k, e.same_iff i j, get-put k j v d)

  pub get-remove :
      (k j : K) (d : Dict K V) → get j (remove k d) ≡ (if k == j then none else get j d)
  unfolding get remove
  get-remove k j [] = ground arith
  get-remove k j ((i, w) ∷ d) =
      ground (arith, e.same_iff k j, e.same_iff i k, e.same_iff i j, get-remove k j d)

-- The values changed where they stand.
abbrev pub map_values {ℓ κ μ} :
    {K : Type ℓ} {V : Type κ} {W : Type μ} → (V → W) → Dict K V → Dict K W
map_values f = map (λ entry. (entry.0, f entry.1))

pub get-map_values-some {ℓ κ μ} :
    {K : Type ℓ} {V : Type κ} {W : Type μ} ⦃e : Eq K⦄ (f : V → W) (k : K) (d : Dict K V) {v : V}
    → get k d ≡ some v
    → get k (map_values f d) ≡ some (f v)
unfolding get
get-map_values-some f k [] h = cc
get-map_values-some f k ((j, w) ∷ d) h = elim (Bool-cases (j == k)) [
  | inl same ↦ rw same (ap (λ u. some (f u)) (some-injective _ _ (rw same at h)))
  | inr other ↦ rw other (get-map_values-some f k d (rw other at h))
]

pub get-map_values-none {ℓ κ μ} :
    {K : Type ℓ} {V : Type κ} {W : Type μ} ⦃e : Eq K⦄ (f : V → W) (k : K) (d : Dict K V)
    → get k d ≡ none
    → get k (map_values f d) ≡ none
unfolding get
get-map_values-none f k [] h = refl
get-map_values-none f k ((j, w) ∷ d) h = elim (Bool-cases (j == k)) [
  | inl same ↦ absurd (cc (rw same at h))
  | inr other ↦ rw other (get-map_values-none f k d (rw other at h))
]

module _ {ℓ κ} {K : Type ℓ} {V : Type κ} ⦃e : Eq K⦄ where
  -- A value that is found after a write is the one written or an older one.
  pub get-put-some :
      (k j : K) (v : V) (d : Dict K V) {w : V}
      → get j (put k v d) ≡ some w
      → ((k ≡ j) × (v ≡ w)) ⊎ (((k == j) ≡ false) × (get j d ≡ some w))
  get-put-some k j v d at = elim (Bool-cases (k == j)) [
    | inl same ↦ inl ((e.same_iff k j).0 same, some-injective _ _ (sym (found same) ∙ at))
    | inr other ↦ inr (other, sym (missed other) ∙ at)
  ]
    where
      found : (k == j) ≡ true → get j (put k v d) ≡ some v
      found same = rw (get-put k j v d) (rw same)

      missed : (k == j) ≡ false → get j (put k v d) ≡ get j d
      missed other = rw (get-put k j v d) (rw other)

  pub get-put_self : (k : K) (v : V) (d : Dict K V) → get k (put k v d) ≡ some v
  get-put_self k v d = rw (get-put k k v d) (rw (==_self k))

  pub get-put_ne : (k j : K) (v : V) (d : Dict K V) → (k == j) ≡ false → get j (put k v d) ≡ get j d
  get-put_ne k j v d other = rw (get-put k j v d) (rw other)

module _ {ℓ κ μ} {K : Type ℓ} {V : Type κ} ⦃e : Eq K⦄ (P : V → Type μ) where
  -- What holds of all values holds of the one that is found, and of those that a removal leaves.
  pub All-values-get : (k : K) (d : Dict K V) {v : V} → All P (values d) → get k d ≡ some v → P v
  unfolding get
  All-values-get k [] h at = cc
  All-values-get k ((j, w) ∷ d) {v} h at = elim (Bool-cases (j == k)) [
    | inl same ↦ subst P (some-injective w v (sym (if_true same) ∙ at)) h.0
    | inr other ↦ All-values-get k d h.1 (sym (if_false other) ∙ at)
  ]
    where
      if_true : (j == k) ≡ true → (if j == k then some w else get k d) ≡ some w
      if_true same = rw same

      if_false : (j == k) ≡ false → (if j == k then some w else get k d) ≡ get k d
      if_false other = rw other

  pub All-values-remove : (k : K) (d : Dict K V) → All P (values d) → All P (values (remove k d))
  unfolding remove
  All-values-remove k [] h = h
  All-values-remove k ((j, w) ∷ d) h = elim (Bool-cases (j == k)) [
    | inl same ↦ rw same (All-values-remove k d h.1)
    | inr other ↦ rw other (h.0, All-values-remove k d h.1)
  ]

pub ruleset dict_laws = (get-put, get-remove)
