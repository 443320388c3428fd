-- ===== src/Clocks/GCounter.antt =====
-- relay/gcounter.py: a counter that only grows, each node with an entry of its own.
use event_stream_broker.Prelude.{ℕ, ◌+◌, String, string_eq, ltb, if◌then◌else◌}
use event_stream_broker.Failure.{ok, err, invalid}
use event_stream_broker.Failure.Method.{Method}
use event_stream_broker.Dict.{put}
use event_stream_broker.Dict.Weights.{total}
use event_stream_broker.Clocks.Vector.{Vector, count, merge_into}

pub record GCounter : Type 0 where
  pub node_id : String
  pub entries : Vector

unfoldable pub value : GCounter → ℕ
unfolding total
value g = total (λ n. n) g.entries

unfoldable pub increment : ℕ → Method GCounter ℕ
unfolding value count
increment amount g =
    let g' = record g { entries = put g.node_id (count g.node_id g.entries + amount) g.entries } in
    if ltb amount 1 then (err invalid, g) else (ok (value g'), g')

unfoldable pub merge : Vector → GCounter → ℕ × GCounter
unfolding value merge_into
merge other g = let g' = record g { entries = merge_into other g.entries } in (value g', g')
