-- ===== src/Encoding/Varint/RoundTrip.antt =====
-- What is encoded comes back, as far as the width goes.
use Prim.Native.Nat.{bit_xor, bit_xor-bitwise, digits, differ}
use native.Mathlib.Nat.{div-add-mod}
use native.Mathlib.Numerals.{towards_suc}
use event_stream_broker.Prelude.{
  ℕ, zero, suc, ◌+◌, ◌*◌, ◌/◌, ◌%◌, ◌^◌, ◌≤◌, ◌<◌, ◌≡◌, refl, ap, ◌∙◌, inl, inr, true, false, [],
  ◌∷◌, ◌++◌, arith, ltb, leb, nat_beq, Bool-cases, length, lt→ltb,
}
use event_stream_broker.Prelude.Int.{ℤ, pos, negsuc}
use event_stream_broker.Failure.{ok}
use event_stream_broker.Log.Records.{Bytes}
use event_stream_broker.Encoding.Varint.{
  max_bytes, zigzag_encode, zigzag_decode, encode_loop, encode_varint, decode_loop, decode_varint,
}

differ-zero : (x : ℕ) → differ x 0 ≡ x
differ-zero zero = refl
differ-zero (suc x) = refl

xor_digits-zero : (n a : ℕ) → a ≤ n → digits (λ b. b) differ n a 0 ≡ a
xor_digits-zero zero zero h = refl
xor_digits-zero zero (suc a) h = absurd (omega arith)
xor_digits-zero (suc n) zero h = refl
xor_digits-zero (suc n) (suc a) h =
    omega (arith, differ-zero (suc a % 2), xor_digits-zero n (suc a / 2) (omega arith))

bit_xor-zero : (a : ℕ) → bit_xor a 0 ≡ a
bit_xor-zero a = omega (arith, bit_xor-bitwise a 0, xor_digits-zero a a (omega arith))

-- The lowest bit of an odd number goes.
bit_xor_odd : (n : ℕ) → bit_xor (suc (n * 2)) 1 ≡ n * 2
bit_xor_odd n =
    let odd : suc (n * 2) % 2 ≡ 1 = omega arith in
    let none_ : differ (suc (n * 2) % 2) 1 ≡ 0 = rw odd refl in
    omega (
      arith,
      bit_xor-bitwise (suc (n * 2)) 1,
      none_,
      xor_digits-zero (n * 2) (suc (n * 2) / 2) (omega arith),
    )

le→leb_no : (i : ℕ) → i < 10 → leb max_bytes i ≡ false
le→leb_no i h = ground (arith, h)

zigzag_back : (n : ℕ) → (zigzag_decode (n * 2) ≡ pos n) × (zigzag_decode (suc (n * 2)) ≡ negsuc n)
unfolding zigzag_decode
zigzag_back n = (ground arith, ground arith)

-- The values that the decoder's ten bytes can hold and that zigzag keeps apart.
abbrev pub InWidth : ℤ → Type 0
InWidth (pos n) = n < 2 ^ 69
InWidth (negsuc n) = n < 2 ^ 63

zigzag_narrow :
    (v : ℤ) → InWidth v → (zigzag_decode (zigzag_encode v) ≡ v) × (zigzag_encode v < 2 ^ 70)
unfolding zigzag_encode
zigzag_narrow (pos n) h = ((zigzag_back n).0, omega arith)
zigzag_narrow (negsuc n) h =
    let none_ : n / 2 ^ 63 ≡ 0 = omega arith in
    rw none_ (rw (bit_xor-zero (suc (n * 2))) ((zigzag_back n).1, omega arith))

-- Seven bits further up.
place_up : (n : ℕ) → 2 ^ (n + 7) ≡ 2 ^ n * 128
place_up n = simp towards_suc (omega arith)

-- The group that a round reads and those that follow add up to the value, in any place.
regroup : (place value : ℕ) → place * (value % 128) + place * 128 * (value / 128) ≡ place * value
regroup place value = omega (arith, ap (λ (q : ℕ). place * q) (div-add-mod value 128))

decode_last :
    (w i result shift : ℕ) (rest : Bytes)
    → w < 128
    → i < 10
    → decode_loop (w ∷ rest) i result shift ≡ ok (zigzag_decode (result + w * 2 ^ shift), suc i)
unfolding decode_loop
decode_last w i result shift rest small early =
    let same : w % 128 ≡ w = omega arith in rw (le→leb_no i early, lt→ltb w 128 small, same) refl

decode_inner :
    (g i result shift : ℕ) (rest : Bytes)
    → g < 128
    → i < 10
    → decode_loop ((g + 128) ∷ rest) i result shift
      ≡ decode_loop rest (suc i) (result + g * 2 ^ shift) (shift + 7)
unfolding decode_loop
decode_inner g i result shift rest small early =
    let same : (g + 128) % 128 ≡ g = omega arith in
    let high : ltb (g + 128) 128 ≡ false = ground arith in rw (le→leb_no i early, high, same) refl

only :
    (w i result shift : ℕ) (rest : Bytes)
    → w < 128
    → i < 10
    → decode_loop (((w % 128) ∷ []) ++ rest) i result shift
      ≡ ok (zigzag_decode (result + w * 2 ^ shift), i + 1)
only w i result shift rest small early =
    let same : w % 128 ≡ w = omega arith in
    let count : suc i ≡ i + 1 = omega arith in
    rw same (decode_last w i result shift rest small early ∙ rw count refl)

one_group : (z : ℕ) → 0 + z * 2 ^ 0 ≡ z
one_group z = omega arith

zero_add : (n : ℕ) → 0 + n ≡ n
zero_add n = omega arith

decode_loop-encode :
    (k w fuel i result shift : ℕ) (rest : Bytes)
    → w < 128 ^ suc k
    → i + k < 10
    → w < fuel
    → decode_loop (encode_loop fuel w ++ rest) i result shift
      ≡ ok (zigzag_decode (result + w * 2 ^ shift), i + length (encode_loop fuel w))
unfolding encode_loop
decode_loop-encode k w zero i result shift rest hw hi hf = absurd (omega arith)
decode_loop-encode zero w (suc fuel) i result shift rest hw hi hf =
    let last : nat_beq (w / 128) 0 ≡ true = ground (arith, hw) in
    rw last (only w i result shift rest (omega arith) (omega arith))
decode_loop-encode (suc k) w (suc fuel) i result shift rest hw hi hf =
    elim (Bool-cases (nat_beq (w / 128) 0)) [
      | inl last ↦ rw last (only w i result shift rest (ground (arith, last)) (omega arith))
      | inr more ↦
          let big : 0 < w / 128 = ground (arith, more) in
          let sum : result + w % 128 * 2 ^ shift + w / 128 * 2 ^ (shift + 7)
              ≡ result + w * 2 ^ shift =
            omega (arith, regroup (2 ^ shift) w, ap (λ (q : ℕ). q * (w / 128)) (place_up shift)) in
          let count : suc i + length (encode_loop fuel (w / 128))
              ≡ i + suc (length (encode_loop fuel (w / 128))) =
            omega arith in
          rw more (
            decode_inner (w % 128) i result shift (encode_loop fuel (w / 128) ++ rest) (omega arith)
              (omega arith)
            ∙ decode_loop-encode k (w / 128) fuel (suc i) (result + w % 128 * 2 ^ shift) (shift + 7)
                rest (omega arith) (omega arith) (omega arith)
            ∙ rw (sum, count) refl)
    ]

-- Every value within the width is read back from its encoding, whatever bytes follow, together with
-- the number of bytes that it took.
pub decode-encode_varint :
    (v : ℤ) (rest : Bytes)
    → InWidth v
    → decode_varint (encode_varint v ++ rest) ≡ ok (v, length (encode_varint v))
unfolding decode_varint encode_varint
decode-encode_varint v rest h =
    let (back, fits) = zigzag_narrow v h in
    let z = zigzag_encode v in
    decode_loop-encode 9 z (suc z) 0 0 0 rest (omega (arith, fits)) (omega arith) (omega arith)
    ∙ rw (one_group z, back) (ap (λ k. ok (v, k)) (zero_add (length (encode_loop (suc z) z))))

-- Below -(2^63), down to -(2^64), the sign is lost: the value is encoded without complaint and comes
-- back as a positive one.
pub decode-encode_wide :
    (n : ℕ) (rest : Bytes)
    → 2 ^ 63 ≤ n
    → n < 2 ^ 64
    → (k : ℕ) × (decode_varint (encode_varint (negsuc n) ++ rest) ≡ ok (pos n, k))
unfolding decode_varint encode_varint zigzag_encode
decode-encode_wide n rest low high =
    let one : n / 2 ^ 63 ≡ 1 = omega arith in
    let z : bit_xor (suc (n * 2)) (n / 2 ^ 63) ≡ n * 2 = rw one (bit_xor_odd n) in
    (
      length (encode_loop (suc (n * 2)) (n * 2)),
      rw z (
          decode_loop-encode 9 (n * 2) (suc (n * 2)) 0 0 0 rest (omega arith) (omega arith)
            (omega arith)
          ∙ rw (one_group (n * 2), (zigzag_back n).0)
              (ap (λ k. ok (pos n, k)) (zero_add (length (encode_loop (suc (n * 2)) (n * 2)))))),
    )
