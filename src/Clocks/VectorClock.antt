-- ===== src/Clocks/VectorClock.antt =====
-- relay/vectorclock.py: a counter for each node, and what two of them say about each other.
pub mod Order
use event_stream_broker.Prelude.{
  ℕ, ◌+◌, Bool, true, false, ◌&&◌, ◌||◌, List, [], ◌∷◌, ◌++◌, String, string_eq, ltb, if◌then◌else◌,
}
use event_stream_broker.Dict.{keys, put}
use event_stream_broker.Clocks.Vector.{Vector, count, merge_into}

pub data Comparison : Type 0 where
  before after equal concurrent : Comparison

pub record VectorClock : Type 0 where
  pub node_id : String
  pub vector : Vector

-- The clock's vector with its own entry one higher.
unfoldable pub ticked : String → Vector → Vector
unfolding count
ticked node d = put node (count node d + 1) d

unfoldable pub tick : VectorClock → Vector × VectorClock
unfolding ticked
tick c = let v = ticked c.node_id c.vector in (v, record c { vector = v })

unfoldable pub merge : Vector → VectorClock → Vector × VectorClock
unfolding ticked merge_into
merge other c = let v = ticked c.node_id (merge_into other c.vector) in (v, record c { vector = v })

-- The loop of compare, with the flags so far.
unfoldable pub flags : Vector → Vector → List String → Bool → Bool → Bool × Bool
unfolding count
flags a b [] less greater = (less, greater)
flags a b (n ∷ nodes) less greater =
    let av = count n a in
    let bv = count n b in flags a b nodes (less || ltb av bv) (greater || ltb bv av)

-- The answer to the two flags.
unfoldable pub judged : Bool × Bool → Comparison
judged (true, true) = concurrent
judged (true, false) = before
judged (false, true) = after
judged (false, false) = equal

-- The order in which a set is walked does not matter to the flags, nor does a node that comes twice.
unfoldable pub compare : Vector → Vector → Comparison
unfolding flags judged
compare a b = judged (flags a b (keys a ++ keys b) false false)

unfoldable pub is_concurrent : Comparison → Bool
is_concurrent concurrent = true
is_concurrent before = false
is_concurrent after = false
is_concurrent equal = false

unfoldable pub conflict : Vector → Vector → Bool
unfolding compare is_concurrent
conflict a b = is_concurrent (compare a b)
