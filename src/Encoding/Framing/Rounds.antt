-- ===== src/Encoding/Framing/Rounds.antt =====
-- One round of the loop of feed, and that its fuel is enough.
use event_stream_broker.Prelude.{
  ℕ, zero, suc, ◌≤◌, ◌<◌, ◌≡◌, refl, sym, ap, ◌∙◌, ◌⊎◌, inl, inr, false, List, [], ◌∷◌, ◌++◌, arith,
  ltb, leb, length, take, drop, length-append, length-drop, take-append_left, drop-append_left,
}
use event_stream_broker.Failure.{Result, ok, err, invalid}
use event_stream_broker.Log.Records.{Bytes}
use event_stream_broker.Encoding.Framing.{
  Found, waiting, refused, frame, carve, carve_at, big_endian, before, feed_loop,
}

pub Found-cases :
    (f : Found) → (f ≡ waiting) ⊎ (f ≡ refused) ⊎ ((p : Bytes) × (r : Bytes) × (f ≡ frame p r))
Found-cases waiting = inl refl
Found-cases refused = inr (inl refl)
Found-cases (frame p r) = inr (inr (p, r, refl))

-- What a carved frame says of its header.
carve_at-frame :
    (m first size : ℕ) (rest : Bytes) {p r : Bytes}
    → carve_at m first size rest ≡ frame p r
    → (leb 128 first ≡ false)
      × (ltb m size ≡ false)
      × (size ≤ length rest)
      × (p ≡ take size rest)
      × (r ≡ drop size rest)
unfolding carve_at
carve_at-frame m first size rest e = ground (arith, e)

carve_at-append :
    (m first size : ℕ) (rest more : Bytes) {p r : Bytes}
    → carve_at m first size rest ≡ frame p r
    → carve_at m first size (rest ++ more) ≡ frame p (r ++ more)
unfolding carve_at
carve_at-append m first size rest more e =
    let (plus_, fits, all, front, back) = carve_at-frame m first size rest e in
    ground (
      arith,
      plus_,
      fits,
      all,
      front,
      back,
      length-append rest more,
      take-append_left size rest more all,
      drop-append_left size rest more all,
    )

carve_at-refused :
    (m first size : ℕ) (rest more : Bytes)
    → carve_at m first size rest ≡ refused
    → carve_at m first size (rest ++ more) ≡ refused
unfolding carve_at
carve_at-refused m first size rest more e = ground (arith, e)

-- A frame is longer than what follows it.
pub carve_shorter : (m : ℕ) (b : Bytes) {p r : Bytes} → carve m b ≡ frame p r → length r < length b
unfolding carve
carve_shorter m (a ∷ b ∷ c ∷ d ∷ rest) e =
    let (plus_, fits, all, front, back) = carve_at-frame m a (big_endian a b c d) rest e in
    omega (arith, ap length back, length-drop (big_endian a b c d) rest)
carve_shorter m [] e = cc
carve_shorter m (a ∷ []) e = cc
carve_shorter m (a ∷ b ∷ []) e = cc
carve_shorter m (a ∷ b ∷ c ∷ []) e = cc

-- More bytes change nothing in a frame that is there, nor in a refusal.
pub carve-append_frame :
    (m : ℕ) (b more : Bytes) {p r : Bytes}
    → carve m b ≡ frame p r
    → carve m (b ++ more) ≡ frame p (r ++ more)
unfolding carve
carve-append_frame m (a ∷ b ∷ c ∷ d ∷ rest) more e =
    carve_at-append m a (big_endian a b c d) rest more e
carve-append_frame m [] more e = cc
carve-append_frame m (a ∷ []) more e = cc
carve-append_frame m (a ∷ b ∷ []) more e = cc
carve-append_frame m (a ∷ b ∷ c ∷ []) more e = cc

pub carve-append_refused :
    (m : ℕ) (b more : Bytes) → carve m b ≡ refused → carve m (b ++ more) ≡ refused
unfolding carve
carve-append_refused m (a ∷ b ∷ c ∷ d ∷ rest) more e =
    carve_at-refused m a (big_endian a b c d) rest more e
carve-append_refused m [] more e = cc
carve-append_refused m (a ∷ []) more e = cc
carve-append_refused m (a ∷ b ∷ []) more e = cc
carve-append_refused m (a ∷ b ∷ c ∷ []) more e = cc

pub loop_waiting : (n m : ℕ) (b : Bytes) → carve m b ≡ waiting → feed_loop (suc n) m b ≡ (ok [], b)
unfolding feed_loop
loop_waiting n m b e = rw (e, feed_loop) refl

pub loop_refused :
    (n m : ℕ) (b : Bytes) → carve m b ≡ refused → feed_loop (suc n) m b ≡ (err invalid, b)
unfolding feed_loop
loop_refused n m b e = rw (e, feed_loop) refl

pub loop_frame :
    (n m : ℕ) (b : Bytes) {p r : Bytes}
    → carve m b ≡ frame p r
    → feed_loop (suc n) m b ≡ before (p ∷ []) (feed_loop n m r)
unfolding feed_loop
loop_frame n m b e = rw (e, feed_loop) refl

-- Fuel above the length of the buffer is enough: the loop ends by itself.
pub feed_loop-fuel :
    (n k m : ℕ) (b : Bytes) → length b < n → length b < k → feed_loop n m b ≡ feed_loop k m b
feed_loop-fuel zero k m b p q = absurd (omega arith)
feed_loop-fuel (suc n) zero m b p q = absurd (omega arith)
feed_loop-fuel (suc n) (suc k) m b p q = elim (Found-cases (carve m b)) [
  | inl e ↦ loop_waiting n m b e ∙ sym (loop_waiting k m b e)
  | inr (inl e) ↦ loop_refused n m b e ∙ sym (loop_refused k m b e)
  | inr (inr (payload, rest, e)) ↦
      let shorter = carve_shorter m b e in
      loop_frame n m b e
      ∙ ap (before (payload ∷ []))
          (feed_loop-fuel n k m rest (omega (arith, shorter, p)) (omega (arith, shorter, q)))
      ∙ sym (loop_frame k m b e)
]

-- The loop with all the fuel that it needs.
abbrev pub run : ℕ → Bytes → Result (List Bytes) × Bytes
run m b = feed_loop (suc (length b)) m b

pub run_frame :
    (m : ℕ) (b : Bytes) {p r : Bytes} → carve m b ≡ frame p r → run m b ≡ before (p ∷ []) (run m r)
run_frame m b {p} {r} e =
    loop_frame (length b) m b e
    ∙ ap (before (p ∷ []))
        (feed_loop-fuel (length b) (suc (length r)) m r (carve_shorter m b e) (omega arith))
