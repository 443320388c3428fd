-- ===== src/Structures/LruCache/Uses.antt =====
-- What a put and a look-up do to the cache.
use event_stream_broker.Prelude.{
  suc, ◌-◌, ◌≤◌, ◌<◌, ◌≡◌, refl, sym, ap, ◌∙◌, subst, inl, inr, Option, none, some, [], ◌∷◌, ◌++◌,
  String, string_eq, arith, ltb, if◌then◌else◌, Bool-cases, Option-cases, length, length-append,
  drop, length-drop, ltb→lt,
}
use event_stream_broker.Prelude.Sets.{Distinct}
use event_stream_broker.Dict.{Dict, keys, get, put, remove}
use event_stream_broker.Structures.LruCache.{LruCache, move_to_end, look_up, pop_first, insert}
use event_stream_broker.Structures.LruCache.Recency.{
  recent, trimmed, IsCache, remove_absent, put_absent, put_last, get_last, get_removed,
  length-removed, Distinct-recent,
}

module _ {V : Type 0} where
  insert-some :
      (key : String) (value : V) (c : LruCache V) {old : V}
      → get key c.store ≡ some old
      → insert key value c
        ≡ (none, record c { store = put key value (move_to_end key old c.store) })
  unfolding insert
  insert-some key value c at = rw (at, insert) refl

  insert-none :
      (key : String) (value : V) (c : LruCache V)
      → get key c.store ≡ none
      → insert key value c ≡ (
          if ltb c.capacity (length (put key value c.store))
          then (
            (pop_first (put key value c.store)).0,
            record c { store = (pop_first (put key value c.store)).1 },
          )
          else (none, record c { store = put key value c.store }))
  unfolding insert
  insert-none key value c absent = rw (absent, insert) refl

  pop_first-drop : (d : Dict String V) → (pop_first d).1 ≡ drop 1 d
  unfolding pop_first
  pop_first-drop [] = refl
  pop_first-drop ((k, v) ∷ d) = refl

  Distinct-drop : (d : Dict String V) → Distinct (keys d) → Distinct (keys (drop 1 d))
  Distinct-drop [] h = h
  Distinct-drop ((k, v) ∷ d) h = h.1

  -- The cache with a store that is given.
  abbrev pub holding : LruCache V → Dict String V → LruCache V
  holding c d = record c { store = d }

  overflow :
      (key : String) (value : V) (c : LruCache V)
      → IsCache c
      → get key c.store ≡ none
      → c.capacity < length (recent key value c.store)
      → let d = drop 1 (recent key value c.store) in
        IsCache (holding c d) × (d ≡ trimmed c.capacity (recent key value c.store))
  overflow key value c h absent over =
      let all = recent key value c.store in
      let grown : length all ≡ suc (length c.store) = omega (
        arith,
        length-append (remove key c.store) ((key, value) ∷ []),
        ap length (remove_absent key c.store absent),
      ) in
      let one : length all - c.capacity ≡ 1 = omega (arith, grown, over, h.bounded) in
      (
        record {
          some_ = h.some_;
          distinct = Distinct-drop all (Distinct-recent key value c.store h.distinct);
          bounded = omega (arith, length-drop 1 all, grown, h.bounded);
        },
        ap (λ n. drop n all) (sym one),
      )

  room :
      (key : String) (value : V) (c : LruCache V)
      → IsCache c
      → length (recent key value c.store) ≤ c.capacity
      → let d = recent key value c.store in
        IsCache (holding c d) × (d ≡ trimmed c.capacity (recent key value c.store))
  room key value c h fits =
      let all = recent key value c.store in
      let none_ : length all - c.capacity ≡ 0 = omega (arith, fits) in
      (
        record {
          some_ = h.some_;
          distinct = Distinct-recent key value c.store h.distinct;
          bounded = fits;
        },
        ap (λ n. drop n all) (sym none_),
      )

  -- A put keeps the cache within its capacity, and leaves the entries that were used last, this one the
  -- latest of them, as many as the capacity allows.
  pub insert-trimmed :
      (key : String) (value : V) (c : LruCache V)
      → IsCache c
      → let c' = (insert key value c).1 in
        IsCache c' × (c'.store ≡ trimmed c.capacity (recent key value c.store))
  unfolding move_to_end
  insert-trimmed key value c h = elim (Option-cases (get key c.store)) [
    | inr (old, at) ↦
        let is = put_last key old value (remove key c.store) (get_removed key c.store) in
        let fits : length (recent key value c.store) ≤ c.capacity = omega (
          arith,
          length-append (remove key c.store) ((key, value) ∷ []),
          length-removed key c.store h.distinct at,
          h.bounded,
        ) in
        rw (insert-some key value c at) (
          subst (λ d. IsCache (holding c d) × (d ≡ trimmed c.capacity (recent key value c.store)))
            (sym is) (room key value c h fits))
    | inl absent ↦
        let plain = remove_absent key c.store absent in
        let is : put key value c.store ≡ recent key value c.store =
          put_absent key value c.store absent ∙ ap (λ d. d ++ (key, value) ∷ []) (sym plain) in
        rw (insert-none key value c absent, is)
          (elim (Bool-cases (ltb c.capacity (length (recent key value c.store)))) [
            | inl over ↦
                rw (over, pop_first-drop (recent key value c.store))
                  (overflow key value c h absent (ltb→lt _ _ over))
            | inr fits ↦ rw fits (room key value c h (ground (arith, fits)))
          ])
  ]

  -- What a look-up has done: a hit returns the value and makes its entry the one used last, a miss
  -- changes nothing, and each is counted.
  abbrev pub LookedUp : String → LruCache V → Option V × LruCache V → Type 0
  LookedUp key c (none, c') =
      (get key c.store ≡ none)
      × (c'.store ≡ c.store)
      × (c'.misses ≡ suc c.misses)
      × (c'.hits ≡ c.hits)
  LookedUp key c (some v, c') =
      (get key c.store ≡ some v)
      × (c'.store ≡ recent key v c.store)
      × (c'.hits ≡ suc c.hits)
      × (c'.misses ≡ c.misses)

  look_up-hit :
      (key : String) (c : LruCache V) {v : V}
      → get key c.store ≡ some v
      → look_up key c ≡ (
        get key (recent key v c.store),
        record c { hits = suc c.hits; store = recent key v c.store },
      )
  unfolding look_up move_to_end
  look_up-hit key c at = rw (at, look_up) refl

  look_up-miss :
      (key : String) (c : LruCache V)
      → get key c.store ≡ none
      → look_up key c ≡ (none, record c { misses = suc c.misses })
  unfolding look_up
  look_up-miss key c absent = rw (absent, look_up) refl

  -- A look-up finds exactly what is in the cache. A hit makes its entry the one used last, a miss
  -- changes no entry, each is counted, and the cache stays within its capacity.
  pub look_up-LookedUp :
      (key : String) (c : LruCache V)
      → IsCache c
      → LookedUp key c (look_up key c) × IsCache (look_up key c).1
  look_up-LookedUp key c h = elim (Option-cases (get key c.store)) [
    | inl absent ↦ rw (look_up-miss key c absent) (
      (absent, refl, refl, refl),
      record { some_ = h.some_; distinct = h.distinct; bounded = h.bounded },
    )
    | inr (v, at) ↦
        let back = get_last key v (remove key c.store) (get_removed key c.store) in
        let grown = length-append (remove key c.store) ((key, v) ∷ []) in
        rw (look_up-hit key c at, back)
          (
            (at, refl, refl, refl),
            record {
              some_ = h.some_;
              distinct = Distinct-recent key v c.store h.distinct;
              bounded = omega (arith, grown, length-removed key c.store h.distinct at, h.bounded);
            },
          )
  ]
