-- ===== src/Structures/Tests.antt =====
-- The theorems of the structures on concrete inputs, and runs of the code.
use event_stream_broker.Prelude.{ℕ, ◌≡◌, refl, some, List, [], ◌∷◌, false, string_eq, arith, ltb}
use event_stream_broker.Prelude.Sets.{mem}
use event_stream_broker.Failure.{ok, err, invalid}
use event_stream_broker.Dict.{get, put, remove}
use event_stream_broker.Structures.RingBuffer.{
  RingBuffer, make_buffer, append, contents, size, set_at,
}
use event_stream_broker.Structures.RingBuffer.History.{append_all, append_all-last}
use event_stream_broker.Structures.LruCache.{LruCache, insert, look_up, make_cache}
use event_stream_broker.Structures.LruCache.Recency.{IsCache, trimmed, recent}
use event_stream_broker.Structures.LruCache.Uses.{insert-trimmed}

abbrev five : List ℕ
five = 1 ∷ 2 ∷ 3 ∷ 4 ∷ 5 ∷ []

append_all-last_example :
    (r : RingBuffer ℕ) × (make_buffer 3 ≡ ok r)
    × ((append_all five r).0 ≡ ok tt)
    × (contents (append_all five r).1 ≡ 3 ∷ 4 ∷ 5 ∷ [])
    × (size (append_all five r).1 ≡ 3)
    × ((append_all five r).1.wrapped ≡ ltb 3 5)
append_all-last_example = append_all-last 3 five (omega arith)

abbrev young : RingBuffer ℕ
young = record { capacity = 3; data_ = 1 ∷ 2 ∷ []; position = 2; wrapped = false }

ring_runs : contents (append 4 (append 3 young).1).1 ≡ 2 ∷ 3 ∷ 4 ∷ []
unfolding append contents set_at
ring_runs = refl

abbrev two_entries : LruCache ℕ
two_entries = record { capacity = 2; store = ("a", 1) ∷ ("b", 2) ∷ []; hits = 0; misses = 0 }

two_entries-IsCache : IsCache two_entries
unfolding mem
two_entries-IsCache = record {
  some_ = omega arith;
  distinct = (refl, (refl, tt));
  bounded = omega arith;
}

insert-trimmed_example :
    let c = (insert "c" 3 two_entries).1 in
    IsCache c × (c.store ≡ trimmed 2 (recent "c" 3 two_entries.store))
insert-trimmed_example = insert-trimmed "c" 3 two_entries two_entries-IsCache

lru_runs :
    ((insert "c" 3 two_entries).0 ≡ some "a")
    × ((insert "c" 3 (look_up "a" two_entries).1).0 ≡ some "b")
unfolding insert look_up get put remove
lru_runs = (refl, refl)

make_runs : (make_buffer {A = ℕ} 0 ≡ err invalid) × (make_cache {V = ℕ} 0 ≡ err invalid)
unfolding make_buffer make_cache
make_runs = (refl, refl)
