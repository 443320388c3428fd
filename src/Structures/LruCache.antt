-- ===== src/Structures/LruCache.antt =====
-- relay/lrucache.py: a bounded cache that lets go of what was used longest ago. The code never looks at
-- a value, so they are of any type.
pub mod Recency
pub mod Uses
use event_stream_broker.Prelude.{
  ℕ, suc, ◌+◌, Bool, true, false, Option, none, some, List, [], ◌∷◌, ◌++◌, String, string_eq, ltb,
  if◌then◌else◌, length, drop,
}
use event_stream_broker.Failure.{Result, ok, err, invalid}
use event_stream_broker.Dict.{Dict, get, put, remove}

pub record LruCache (V : Type 0) : Type 0 where
  pub capacity : ℕ
  pub store : Dict String V
  pub hits : ℕ
  pub misses : ℕ

module _ {V : Type 0} where
  unfoldable pub make_cache : ℕ → Result (LruCache V)
  make_cache capacity =
      if ltb capacity 1
      then err invalid
      else ok (record { capacity = capacity; store = []; hits = 0; misses = 0 })

  -- `OrderedDict.move_to_end` of a key that is there.
  unfoldable pub move_to_end : String → V → Dict String V → Dict String V
  move_to_end key value d = remove key d ++ (key, value) ∷ []

  unfoldable pub look_up : String → LruCache V → Option V × LruCache V
  unfolding move_to_end
  look_up key c = elim (get key c.store) [
    | none ↦ (none, record c { misses = suc c.misses })
    | some value ↦
        let store' = move_to_end key value c.store in
        (get key store', record c { hits = suc c.hits; store = store' })
  ]

  -- `popitem(last=False)`: the key at the front, and the rest.
  unfoldable pub pop_first : Dict String V → Option String × Dict String V
  pop_first [] = (none, [])
  pop_first ((key, value) ∷ d) = (some key, d)

  -- The key that is evicted, if one is.
  unfoldable pub insert : String → V → LruCache V → Option String × LruCache V
  unfolding move_to_end pop_first
  insert key value c = elim (get key c.store) [
    | some old ↦ (none, record c { store = put key value (move_to_end key old c.store) })
    | none ↦
        let store' = put key value c.store in
        let (evicted, rest) = pop_first store' in
        if ltb c.capacity (length store')
        then (evicted, record c { store = rest })
        else (none, record c { store = store' })
  ]
