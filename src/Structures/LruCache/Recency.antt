-- ===== src/Structures/LruCache/Recency.antt =====
-- The cache against a plain list of what was used, the latest last.
use event_stream_broker.Prelude.{
  ℕ, suc, ◌-◌, ◌≤◌, ◌<◌, ◌≡◌, refl, ap, subst, inl, inr, none, some, [], ◌∷◌, ◌++◌, String,
  string_eq, ◌==◌, ==_self, arith, Bool-cases, length, drop,
}
use event_stream_broker.Prelude.Sets.{Distinct}
use event_stream_broker.Dict.{Dict, keys, get, put, remove, get-remove}
use event_stream_broker.Dict.Weights.{total, total-remove, Distinct-put, Distinct-remove}
use event_stream_broker.Structures.LruCache.{LruCache}

module _ {V : Type 0} where
  -- The entry as the one used last.
  abbrev pub recent : String → V → Dict String V → Dict String V
  recent key value d = remove key d ++ (key, value) ∷ []

  -- The last entries, as many as there is room for.
  abbrev pub trimmed : ℕ → Dict String V → Dict String V
  trimmed n d = drop (length d - n) d

  pub record IsCache (c : LruCache V) : Type 0 where
    pub some_ : 0 < c.capacity
    pub distinct : Distinct (keys c.store)
    pub bounded : length c.store ≤ c.capacity

  pub remove_absent : (key : String) (d : Dict String V) → get key d ≡ none → remove key d ≡ d
  unfolding get remove
  remove_absent key [] h = refl
  remove_absent key ((k, v) ∷ d) h = elim (Bool-cases (k == key)) [
    | inl same ↦ absurd (cc (rw same at h))
    | inr other ↦ rw other (ap (λ l. (k, v) ∷ l) (remove_absent key d (rw other at h)))
  ]

  pub put_absent :
      (key : String) (value : V) (d : Dict String V)
      → get key d ≡ none
      → put key value d ≡ d ++ (key, value) ∷ []
  unfolding get put
  put_absent key value [] h = refl
  put_absent key value ((k, v) ∷ d) h = elim (Bool-cases (k == key)) [
    | inl same ↦ absurd (cc (rw same at h))
    | inr other ↦ rw other (ap (λ l. (k, v) ∷ l) (put_absent key value d (rw other at h)))
  ]

  pub put_last :
      (key : String) (old value : V) (d : Dict String V)
      → get key d ≡ none
      → put key value (d ++ (key, old) ∷ []) ≡ d ++ (key, value) ∷ []
  unfolding get put
  put_last key old value [] h = rw (==_self key) refl
  put_last key old value ((k, v) ∷ d) h = elim (Bool-cases (k == key)) [
    | inl same ↦ absurd (cc (rw same at h))
    | inr other ↦ rw other (ap (λ l. (k, v) ∷ l) (put_last key old value d (rw other at h)))
  ]

  pub get_last :
      (key : String) (value : V) (d : Dict String V)
      → get key d ≡ none
      → get key (d ++ (key, value) ∷ []) ≡ some value
  unfolding get
  get_last key value [] h = rw (==_self key) refl
  get_last key value ((k, v) ∷ d) h = elim (Bool-cases (k == key)) [
    | inl same ↦ absurd (cc (rw same at h))
    | inr other ↦ rw other (get_last key value d (rw other at h))
  ]

  pub get_removed : (key : String) (d : Dict String V) → get key (remove key d) ≡ none
  get_removed key d = rw (get-remove key key d, ==_self key) refl

  pub length-removed :
      (key : String) (d : Dict String V) {v : V}
      → Distinct (keys d)
      → get key d ≡ some v
      → suc (length (remove key d)) ≡ length d
  unfolding total
  length-removed key d {v} h at =
      omega (arith, total-remove (λ _. 1) key v d h at, count d, count (remove key d))
    where
      count : (e : Dict String V) → total (λ _. 1) e ≡ length e
      count [] = refl
      count (entry ∷ e) = omega (arith, count e)

  pub Distinct-recent :
      (key : String) (value : V) (d : Dict String V)
      → Distinct (keys d)
      → Distinct (keys (recent key value d))
  Distinct-recent key value d h =
      subst (λ l. Distinct (keys l)) (put_absent key value (remove key d) (get_removed key d))
        (Distinct-put key value (remove key d) (Distinct-remove key d h))
