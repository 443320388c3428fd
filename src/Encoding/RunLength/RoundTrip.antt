-- ===== src/Encoding/RunLength/RoundTrip.antt =====
-- The two directions are inverse to one another.
use event_stream_broker.Prelude.{
  ℕ, zero, suc, ◌+◌, ◌<◌, ◌≡◌, refl, sym, ap, ◌∙◌, inl, inr, false, List, [], ◌∷◌, ◌++◌, Eq, ◌==◌,
  ==_iff, arith, le→ltb, append-nil, append_assoc, Bool-cases, ==_self,
}
use event_stream_broker.Failure.{ok}
use event_stream_broker.Encoding.RunLength.{replicate, decode_loop, decode, encode_loop, encode}

module _ {ℓ} {A : Type ℓ} where
  -- What a list of runs stands for.
  abbrev pub expand : List (A × ℕ) → List A
  expand [] = []
  expand ((x, n) ∷ runs) = replicate n x ++ expand runs

  -- Every run has a value at least.
  abbrev pub Filled : List (A × ℕ) → Type 0
  Filled [] = Unit
  Filled ((x, n) ∷ runs) = (0 < n) × Filled runs

  expand-append : (rs ss : List (A × ℕ)) → expand (rs ++ ss) ≡ expand rs ++ expand ss
  expand-append [] ss = refl
  expand-append ((x, n) ∷ rs) ss =
      ap (λ l. replicate n x ++ l) (expand-append rs ss)
      ∙ sym (append_assoc (replicate n x) (expand rs) (expand ss))

  Filled-append : (rs ss : List (A × ℕ)) → Filled rs → Filled ss → Filled (rs ++ ss)
  Filled-append [] ss h k = k
  Filled-append ((x, n) ∷ rs) ss h k = (h.0, Filled-append rs ss h.1 k)

  decode_loop-expand :
      (runs : List (A × ℕ)) (out : List A)
      → Filled runs
      → decode_loop runs out ≡ ok (out ++ expand runs)
  unfolding decode_loop
  decode_loop-expand [] out h = ap ok (sym (append-nil out))
  decode_loop-expand ((x, n) ∷ runs) out h = rw (le→ltb n 1 h.0) (
      decode_loop-expand runs (out ++ replicate n x) h.1
      ∙ ap ok (append_assoc out (replicate n x) (expand runs)))

  replicate_snoc :
      (n : ℕ) (x : A) (xs : List A) → replicate n x ++ (x ∷ xs) ≡ x ∷ (replicate n x ++ xs)
  unfolding replicate
  replicate_snoc zero x xs = refl
  replicate_snoc (suc n) x xs = ap (λ l. x ∷ l) (replicate_snoc n x xs)

module _ {ℓ} {A : Type ℓ} ⦃e : Eq A⦄ where
  encode_loop-expand :
      (current : A) (count : ℕ) (vs : List A) (out : List (A × ℕ))
      → expand (encode_loop current count vs out) ≡ expand out ++ (replicate count current ++ vs)
  unfolding encode_loop replicate
  encode_loop-expand current count [] out = expand-append out ((current, count) ∷ [])
  encode_loop-expand current count (v ∷ vs) out = elim (Bool-cases (v == current)) [
    | inl same ↦ rw same (
        encode_loop-expand current (suc count) vs out
        ∙ ap (λ l. expand out ++ l) (sym (replicate_snoc count current vs))
        ∙ ap (λ x. expand out ++ (replicate count current ++ (x ∷ vs)))
            (sym ((==_iff v current).0 same)))
    | inr other ↦ rw other (
        encode_loop-expand v 1 vs (out ++ (current, count) ∷ [])
        ∙ ap (λ l. l ++ (v ∷ vs)) (expand-append out ((current, count) ∷ []))
        ∙ simp (append_assoc, append-nil))
  ]

  encode_loop-Filled :
      (current : A) (count : ℕ) (vs : List A) (out : List (A × ℕ))
      → 0 < count
      → Filled out
      → Filled (encode_loop current count vs out)
  unfolding encode_loop
  encode_loop-Filled current count [] out some_ h =
      Filled-append out ((current, count) ∷ []) h (some_, tt)
  encode_loop-Filled current count (v ∷ vs) out some_ h = elim (Bool-cases (v == current)) [
    | inl same ↦ rw same (encode_loop-Filled current (suc count) vs out (omega arith) h)
    | inr other ↦ rw other (
        encode_loop-Filled v 1 vs (out ++ (current, count) ∷ []) (omega arith)
          (Filled-append out ((current, count) ∷ []) h (some_, tt)))
  ]

  encode_loop-replicate :
      (k : ℕ) (x : A) (count : ℕ) (ys : List A) (out : List (A × ℕ))
      → encode_loop x count (replicate k x ++ ys) out ≡ encode_loop x (k + count) ys out
  unfolding encode_loop replicate
  encode_loop-replicate zero x count ys out = ap (λ n. encode_loop x n ys out) (omega arith)
  encode_loop-replicate (suc k) x count ys out = rw (==_self x) (
      encode_loop-replicate k x (suc count) ys out ∙ ap (λ n. encode_loop x n ys out) (omega arith))

  -- Runs that no encoder could shorten: each has a value, and neighbours differ.
  abbrev pub Canonical : List (A × ℕ) → Type 0
  Canonical [] = Unit
  Canonical ((x, n) ∷ []) = 0 < n
  Canonical ((x, n) ∷ (y, m) ∷ runs) = (0 < n) × ((y == x) ≡ false) × Canonical ((y, m) ∷ runs)

  encode_loop-Canonical :
      (x : A) (n : ℕ) (runs : List (A × ℕ)) (out : List (A × ℕ))
      → Canonical ((x, n) ∷ runs)
      → encode_loop x n (expand runs) out ≡ out ++ (x, n) ∷ runs
  unfolding encode_loop replicate
  encode_loop-Canonical x n [] out h = refl
  encode_loop-Canonical x n ((y, zero) ∷ []) out h = absurd (omega (arith, h.2))
  encode_loop-Canonical x n ((y, zero) ∷ z ∷ runs) out h = absurd (omega (arith, h.2.0))
  encode_loop-Canonical x n ((y, suc m) ∷ runs) out h = rw h.1 (
      encode_loop-replicate m y 1 (expand runs) (out ++ (x, n) ∷ [])
      ∙ ap (λ k. encode_loop y k (expand runs) (out ++ (x, n) ∷ [])) (omega arith)
      ∙ encode_loop-Canonical y (suc m) runs (out ++ (x, n) ∷ []) h.2
      ∙ append_assoc out ((x, n) ∷ []) ((y, suc m) ∷ runs))

  -- Decoding takes an encoded list back to itself. And where no run is empty and neighbours differ,
  -- runs decode to a list that encodes to the same runs.
  pub decode-encode_runs :
      ((xs : List A) → decode (encode xs) ≡ ok xs)
      × ((runs : List (A × ℕ))
          → Canonical runs
          → (xs : List A) × (decode runs ≡ ok xs) × (encode xs ≡ runs))
  unfolding decode encode
  decode-encode_runs =
      (back, λ runs h. (expand runs, decode_loop-expand runs [] (filled runs h), forth runs h))
    where
      back : (xs : List A) → decode (encode xs) ≡ ok xs
      back [] = refl
      back (x ∷ xs) =
          decode_loop-expand (encode_loop x 1 xs []) []
            (encode_loop-Filled x 1 xs [] (omega arith) tt)
          ∙ ap ok (encode_loop-expand x 1 xs [])

      filled : (runs : List (A × ℕ)) → Canonical runs → Filled runs
      filled [] h = tt
      filled ((x, n) ∷ []) h = (h, tt)
      filled ((x, n) ∷ r ∷ runs) h = (h.0, filled (r ∷ runs) h.2)

      forth : (runs : List (A × ℕ)) → Canonical runs → encode (expand runs) ≡ runs
      forth [] h = refl
      forth ((x, zero) ∷ []) h = absurd (omega (arith, h))
      forth ((x, zero) ∷ r ∷ runs) h = absurd (omega (arith, h.0))
      forth ((x, suc n) ∷ runs) h =
          encode_loop-replicate n x 1 (expand runs) []
          ∙ ap (λ k. encode_loop x k (expand runs) []) (omega arith)
          ∙ encode_loop-Canonical x (suc n) runs [] h
