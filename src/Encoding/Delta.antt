-- ===== src/Encoding/Delta.antt =====
-- relay/deltaencoding.py: a sorted list of numbers as its first one and the gaps.
pub mod RoundTrip
use event_stream_broker.Prelude.{ℕ, Bool, true, false, List, [], ◌∷◌, ◌++◌, if◌then◌else◌}
use event_stream_broker.Prelude.Int.{ℤ, ◌+ℤ◌, ◌-ℤ◌, ltb_ℤ}
use event_stream_broker.Failure.{Result, ok, err, invalid}

-- The first loop of encode: whether a value is below the one before it.
unfoldable pub falls : ℤ → List ℤ → Bool
falls last [] = false
falls last (v ∷ vs) = if ltb_ℤ v last then true else falls v vs

-- The second loop, after a value.
unfoldable pub gaps : ℤ → List ℤ → List ℤ
gaps last [] = []
gaps last (v ∷ vs) = (v -ℤ last) ∷ gaps v vs

unfoldable pub encode : List ℤ → Result (List ℤ)
unfolding falls gaps
encode [] = ok []
encode (v ∷ vs) = if falls v vs then err invalid else ok (v ∷ gaps v vs)

-- The loop of decode, after a value.
unfoldable pub sums : ℤ → List ℤ → List ℤ
sums last [] = []
sums last (d ∷ ds) = (last +ℤ d) ∷ sums (last +ℤ d) ds

unfoldable pub decode : List ℤ → List ℤ
unfolding sums
decode [] = []
decode (d ∷ ds) = d ∷ sums d ds
