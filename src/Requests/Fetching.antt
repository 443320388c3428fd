-- ===== src/Requests/Fetching.antt =====
-- relay/fetching.py: how much of what is available a fetch gets, and whether it waits for more.
pub mod Plans
use event_stream_broker.Prelude.{
  ℕ, ◌+◌, Bool, true, false, ◌||◌, ◌&&◌, List, [], ◌∷◌, ◌++◌, ltb, leb, if◌then◌else◌, length,
}
use event_stream_broker.Prelude.Int.{ℤ, pos, pos_part, ltb_ℤ}
use event_stream_broker.Failure.{Result, ok, err, invalid, fail_if, ◌>>◌}

pub record FetchRequest : Type 0 where
  pub min_bytes : ℕ
  pub max_bytes : ℕ
  pub max_wait_ticks : ℕ

-- The checks leave no number below zero.
unfoldable pub make_request : ℤ → ℤ → ℤ → Result FetchRequest
make_request min_bytes max_bytes max_wait_ticks = do
  fail_if (ltb_ℤ min_bytes (pos 0) || ltb_ℤ max_bytes (pos 1)) invalid
  fail_if (ltb_ℤ max_bytes min_bytes) invalid
  fail_if (ltb_ℤ max_wait_ticks (pos 0)) invalid
  ok (record {
    min_bytes = pos_part min_bytes;
    max_bytes = pos_part max_bytes;
    max_wait_ticks = pos_part max_wait_ticks;
  })

pub data Reason : Type 0 where
  alone enough expired holding : Reason

pub record FetchResult : Type 0 where
  pub records_returned : ℕ
  pub bytes_returned : ℕ
  pub reason : Reason

-- The loop returns from the function, or ends with the batch and its total.
pub data Ended : Type 0 where
  returned : FetchResult → Ended
  left : List ℕ → ℕ → Ended

result : ℕ → ℕ → Reason → FetchResult
result n bytes why = record { records_returned = n; bytes_returned = bytes; reason = why }

unfoldable pub fetch_loop : FetchRequest → List ℕ → List ℕ → ℕ → Ended
unfolding result
fetch_loop request batch [] total = left batch total
fetch_loop request batch (size ∷ sizes) total =
    let batch' = batch ++ size ∷ [] in
    let rest = fetch_loop request batch' sizes (total + size) in
    if ltb 0 (length batch) && ltb request.max_bytes (total + size)
    then left batch total
    else if ltb request.max_bytes size
    then returned (result 1 size alone)
    else if leb request.min_bytes (total + size)
    then returned (result (length batch') (total + size) enough)
    else rest

-- What follows the loop.
unfoldable pub after_loop : FetchRequest → ℕ → Ended → FetchResult
unfolding result
after_loop request now_wait (returned r) = r
after_loop request now_wait (left batch total) =
    if leb request.max_wait_ticks now_wait
    then result (length batch) total expired
    else result 0 0 holding

unfoldable pub plan_fetch : FetchRequest → List ℕ → ℕ → FetchResult
unfolding fetch_loop after_loop
plan_fetch request available_sizes now_wait =
    after_loop request now_wait (fetch_loop request [] available_sizes 0)
