-- ===== src/Clocks/Tests.antt =====
-- The theorems of the clocks on concrete inputs, and runs of the code.
use event_stream_broker.Prelude.{◌≡◌, refl, true, false, [], ◌∷◌, string_eq, arith}
use event_stream_broker.Prelude.Sets.{mem}
use event_stream_broker.Dict.{get, put}
use event_stream_broker.Failure.{ok}
use event_stream_broker.Clocks.Vector.{Vector, count, merge_all, Sound, merge_all-converges}
use event_stream_broker.Clocks.GCounter
use event_stream_broker.Clocks.GCounter.{GCounter}
use event_stream_broker.Clocks.VectorClock.{concurrent, compare, conflict}
use event_stream_broker.Clocks.VectorClock.Order.{Compared, compare-Compared}
use event_stream_broker.Clocks.LwwRegister.{empty_register, write, merge}
use event_stream_broker.Clocks.LwwRegister.Merging.{merge-diverges}

abbrev here_ : Vector
here_ = ("a", 3) ∷ ("b", 1) ∷ []

abbrev there : Vector
there = ("b", 2) ∷ []

here-Sound : Sound here_
unfolding mem
here-Sound = (refl, (refl, tt))

there-Sound : Sound there
unfolding mem
there-Sound = (refl, tt)

merge_all-converges_example :
    count "b" (merge_all (here_ ∷ there ∷ []) [])
    ≡ count "b" (merge_all (there ∷ here_ ∷ there ∷ []) [])
merge_all-converges_example =
    merge_all-converges (here_ ∷ there ∷ []) (there ∷ here_ ∷ there ∷ []) [] "b"
      (here-Sound, (there-Sound, tt)) (there-Sound, (here-Sound, (there-Sound, tt)))
      ((1, refl), ((0, refl), tt)) ((1, refl), ((0, refl), ((1, refl), tt)))

counter_runs :
    (GCounter.increment 2 (record { node_id = "a"; entries = here_ })
      ≡ (ok 6, record { node_id = "a"; entries = ("a", 5) ∷ ("b", 1) ∷ [] }))
    × ((GCounter.merge there (record { node_id = "a"; entries = here_ })).0 ≡ 5)
unfolding GCounter.increment GCounter.merge get put
counter_runs = (refl, refl)

compare-Compared_example : Compared here_ there (compare here_ there)
compare-Compared_example = compare-Compared here_ there

compare_runs : (compare here_ there ≡ concurrent) × (conflict here_ there ≡ true)
unfolding compare conflict get
compare_runs = (refl, refl)

lww_runs :
    let x = write "x" 4 1 empty_register in
    let y = write "y" 4 1 x.1 in
    (x.0 ≡ ok tt)
    × (y.0 ≡ ok tt)
    × (x.1.value ≡ "x")
    × (y.1.value ≡ "y")
    × (merge y.1 x.1 ≡ (false, x.1))
    × (merge x.1 y.1 ≡ (false, y.1))
unfolding empty_register
lww_runs = merge-diverges "x" "y" 4 1 empty_register (omega arith)
