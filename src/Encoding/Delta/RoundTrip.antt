-- ===== src/Encoding/Delta/RoundTrip.antt =====
-- The gaps give the list back, and no gap is negative.
use event_stream_broker.Prelude.{
  ◌≡◌, ◌⊎◌, refl, sym, ap, ◌∙◌, inl, inr, false, List, [], ◌∷◌, arith, Bool-cases, All,
}
use event_stream_broker.Prelude.Int.{ℤ, pos, ◌+ℤ◌, ◌-ℤ◌, ◌≤ℤ◌, eq_of_parts, +ℤ_parts, -ℤ_parts}
use event_stream_broker.Failure.{ok, err, invalid}
use event_stream_broker.Encoding.Delta.{falls, gaps, encode, sums, decode}

-- Each value is at least the one before it.
abbrev pub Rises : ℤ → List ℤ → Type 0
Rises last [] = Unit
Rises last (v ∷ vs) = (last ≤ℤ v) × Rises v vs

falls-Rises : (last : ℤ) (vs : List ℤ) → falls last vs ≡ false → Rises last vs
unfolding falls
falls-Rises last [] h = tt
falls-Rises last (v ∷ vs) h = (ground (arith, h), falls-Rises v vs (ground (arith, h)))

Rises-falls : (last : ℤ) (vs : List ℤ) → Rises last vs → falls last vs ≡ false
unfolding falls
Rises-falls last [] h = refl
Rises-falls last (v ∷ vs) h = ground (arith, h, Rises-falls v vs h.1)

gap_back : (a b : ℤ) → a +ℤ (b -ℤ a) ≡ b
gap_back a b = omega (arith, +ℤ_parts a (b -ℤ a), -ℤ_parts b a, eq_of_parts (a +ℤ (b -ℤ a)) b)

sums-gaps : (last : ℤ) (vs : List ℤ) → sums last (gaps last vs) ≡ vs
unfolding sums gaps
sums-gaps last [] = refl
sums-gaps last (v ∷ vs) = rw (gap_back last v) (ap (λ l. v ∷ l) (sums-gaps v vs))

gaps-positive : (last : ℤ) (vs : List ℤ) → Rises last vs → All (λ d. pos 0 ≤ℤ d) (gaps last vs)
unfolding gaps
gaps-positive last [] h = tt
gaps-positive last (v ∷ vs) h = (omega (arith, h.0, -ℤ_parts v last), gaps-positive v vs h.1)

abbrev pub Sorted : List ℤ → Type 0
Sorted [] = Unit
Sorted (v ∷ vs) = Rises v vs

-- Everything after the first element.
abbrev pub rest : List ℤ → List ℤ
rest [] = []
rest (v ∷ vs) = vs

-- A list is encoded exactly if it is sorted, and refused otherwise. Decoding then gives it back, and
-- no gap is negative.
pub decode-encode_gaps :
    (vs : List ℤ)
    → ((encode vs ≡ err invalid) × ¬ Sorted vs)
      ⊎ (Sorted vs
          × (ds : List ℤ) × (encode vs ≡ ok ds)
          × (decode ds ≡ vs)
          × All (λ d. pos 0 ≤ℤ d) (rest ds))
unfolding encode decode
decode-encode_gaps [] = inr (tt, [], refl, refl, tt)
decode-encode_gaps (v ∷ vs) = elim (Bool-cases (falls v vs)) [
  | inl down ↦ inl (rw down refl, λ up. cc (sym down ∙ Rises-falls v vs up))
  | inr up ↦
      let sorted_ = falls-Rises v vs up in
      inr (
        sorted_,
        v ∷ gaps v vs,
        rw up refl,
        ap (λ l. v ∷ l) (sums-gaps v vs),
        gaps-positive v vs sorted_,
      )
]
