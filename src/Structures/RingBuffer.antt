-- ===== src/Structures/RingBuffer.antt =====
-- relay/ringbuffer.py: the last `capacity` values. The code never looks at a value, so they are of any
-- type.
pub mod Window
pub mod Rounds
pub mod History
use event_stream_broker.Prelude.{
  ℕ, zero, suc, ◌+◌, ◌%◌, Bool, true, false, Option, none, some, List, [], ◌∷◌, ◌++◌, ltb,
  if◌then◌else◌, length, take, drop,
}
use event_stream_broker.Failure.{Result, ok, err, invalid, index_error}
use event_stream_broker.Failure.Method.{Method}

pub record RingBuffer (A : Type 0) : Type 0 where
  pub capacity : ℕ
  pub data_ : List A
  pub position : ℕ
  pub wrapped : Bool

module _ {A : Type 0} where
  unfoldable pub make_buffer : ℕ → Result (RingBuffer A)
  make_buffer capacity =
      if ltb capacity 1
      then err invalid
      else ok (record { capacity = capacity; data_ = []; position = 0; wrapped = false })

  -- `xs[i] = v`, if there is such a place.
  unfoldable pub set_at : ℕ → A → List A → Option (List A)
  set_at i v [] = none
  set_at zero v (x ∷ xs) = some (v ∷ xs)
  set_at (suc i) v (x ∷ xs) = elim (set_at i v xs) [ none ↦ none | some ys ↦ some (x ∷ ys) ]

  unfoldable pub append : A → Method (RingBuffer A) (Unit {0})
  unfolding set_at
  append value r =
      let next = (r.position + 1) % r.capacity in
      if ltb (length r.data_) r.capacity
      then (ok tt, record r { data_ = r.data_ ++ value ∷ []; position = next })
      else elim (set_at r.position value r.data_) [
        | none ↦ (err index_error, r)
        | some data' ↦ (ok tt, record r { data_ = data'; position = next; wrapped = true })
      ]

  unfoldable pub contents : RingBuffer A → List A
  contents r = if r.wrapped then drop r.position r.data_ ++ take r.position r.data_ else r.data_

  unfoldable pub size : RingBuffer A → ℕ
  size r = length r.data_
