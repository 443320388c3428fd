-- ===== src/Requests/Tests.antt =====
-- The theorems of the requests on concrete inputs, and runs of the code.
use event_stream_broker.Prelude.{
  ◌+◌, ◌≤◌, ◌<◌, ◌≡◌, refl, inl, List, [], ◌∷◌, arith, take, sum, All,
}
use event_stream_broker.Prelude.Int.{pos, negsuc}
use event_stream_broker.Failure.{ok, err, invalid}
use event_stream_broker.Prelude.Sorting.{sorted}
use event_stream_broker.Dict.{values, get, put}
use event_stream_broker.Requests.Fetching.{
  FetchRequest, enough, expired, holding, alone, make_request, plan_fetch,
}
use event_stream_broker.Requests.Fetching.Plans.{
  Promised, plan_fetch-Promised, plan_fetch-progress, plan_fetch-held,
}
use event_stream_broker.Requests.Purgatory.{empty_purgatory, park, on_progress, on_tick, pending}
use event_stream_broker.Requests.Purgatory.Deadlines.{IsPurgatory, on_tick-clears}
use event_stream_broker.Requests.Purgatory.Calls.{Call, parks, progresses, run, run-Conserves}

abbrev request : FetchRequest
request = record { min_bytes = 5; max_bytes = 6; max_wait_ticks = 10 }

make_request_runs :
    (make_request (pos 5) (pos 6) (pos 10) ≡ ok request)
    × (make_request (pos 7) (pos 6) (pos 10) ≡ err invalid)
    × (make_request (negsuc 0) (pos 6) (pos 10) ≡ err invalid)
unfolding make_request
make_request_runs = (refl, refl, refl)

plan_fetch-Promised_example :
    let r = plan_fetch request (2 ∷ 3 ∷ 9 ∷ []) 0 in
    (r.records_returned ≤ 3)
    × (r.bytes_returned ≡ sum (take r.records_returned (2 ∷ 3 ∷ 9 ∷ [])))
    × Promised request 0 r.reason r
plan_fetch-Promised_example = plan_fetch-Promised request (2 ∷ 3 ∷ 9 ∷ []) 0

plan_fetch_runs :
    (plan_fetch request (2 ∷ 3 ∷ 9 ∷ []) 0
      ≡ record { records_returned = 2; bytes_returned = 5; reason = enough })
    × (plan_fetch request (9 ∷ []) 0
        ≡ record { records_returned = 1; bytes_returned = 9; reason = alone })
    × (plan_fetch request (4 ∷ []) 3
        ≡ record { records_returned = 0; bytes_returned = 0; reason = holding })
    × (plan_fetch request (4 ∷ []) 10
        ≡ record { records_returned = 1; bytes_returned = 4; reason = expired })
unfolding plan_fetch
plan_fetch_runs = (refl, refl, refl, refl)

plan_fetch-progress_example : 0 < (plan_fetch request (4 ∷ 4 ∷ []) 10).records_returned
plan_fetch-progress_example = plan_fetch-progress request 4 (4 ∷ []) 10 (inl (omega arith))

held_runs : (plan_fetch request (4 ∷ 4 ∷ []) 3).reason ≡ holding
held_runs = plan_fetch-held request 4 4 [] 3 (omega arith) (omega arith) (omega arith) (omega arith)

abbrev calls : List Call
calls = parks "p0" "a" 8 40 ∷ parks "p0" "b" 9 20 ∷ parks "p1" "c" 5 30 ∷ progresses "p0" 8 ∷ []

run-Conserves_example :
    let p = run calls empty_purgatory in
    IsPurgatory p × (p.completed_by_event + p.completed_by_timeout + pending p ≡ 3)
run-Conserves_example = run-Conserves calls

calls_runs :
    ((run calls empty_purgatory).completed_by_event ≡ 1) × (pending (run calls empty_purgatory) ≡ 2)
unfolding empty_purgatory park on_progress pending get put
calls_runs = (refl, refl)

on_tick-clears_example :
    let p = (on_tick 20 (run calls empty_purgatory)).1 in
    IsPurgatory p × All (All (λ r. 20 < r.deadline)) (values p.requests)
on_tick-clears_example = on_tick-clears 20 (run calls empty_purgatory) (run-Conserves calls).0

on_tick_runs : (on_tick 20 (run calls empty_purgatory)).0 ≡ "b" ∷ []
unfolding empty_purgatory park on_progress on_tick sorted get put
on_tick_runs = refl
