-- ===== src/Encoding/Framing/Chunks.antt =====
-- However the stream is cut into chunks, the same frames come out.
use event_stream_broker.Prelude.{
  ℕ, zero, suc, ◌<◌, ◌≡◌, refl, sym, subst, append-nil, ap, ◌∙◌, ◌⊎◌, inl, inr, List, [], ◌∷◌, ◌++◌,
  arith, length, append_assoc,
}
use event_stream_broker.Failure.{Result, ok, err, invalid}
use event_stream_broker.Log.Records.{Bytes}
use event_stream_broker.Encoding.Framing.{FrameReader, carve, before, feed_loop, feed}
use event_stream_broker.Encoding.Framing.Rounds.{
  Found-cases, carve_shorter, carve-append_frame, carve-append_refused, loop_waiting, loop_refused,
  loop_frame, run, run_frame,
}

before-before :
    (fs gs : List Bytes) (o : Result (List Bytes) × Bytes)
    → before fs (before gs o) ≡ before (fs ++ gs) o
before-before fs gs (ok hs, b) = rw (append_assoc fs gs hs) refl
before-before fs gs (err e, b) = refl

before-nil : (o : Result (List Bytes) × Bytes) → before [] o ≡ o
before-nil (ok hs, b) = refl
before-nil (err e, b) = refl

before-ok :
    (p : Bytes) (o : Result (List Bytes) × Bytes) {fs : List Bytes} {left : Bytes}
    → before (p ∷ []) o ≡ (ok fs, left)
    → (gs : List Bytes) × (fs ≡ p ∷ gs) × (o ≡ (ok gs, left))
before-ok p (ok gs, b) e = (gs, ground (arith, e), ground (arith, e))
before-ok p (err r, b) e = cc

before-err :
    (p : Bytes) (o : Result (List Bytes) × Bytes) {left : Bytes}
    → before (p ∷ []) o ≡ (err invalid, left)
    → o ≡ (err invalid, left)
before-err p (ok gs, b) e = cc
before-err p (err r, b) e = e

before-then :
    (p : Bytes) (o : Result (List Bytes) × Bytes) {gs : List Bytes}
    → o.0 ≡ ok gs
    → (before (p ∷ []) o).0 ≡ ok (p ∷ gs)
before-then p (ok hs, b) e = ground (arith, e)
before-then p (err r, b) e = cc

before-still :
    (p : Bytes) (o : Result (List Bytes) × Bytes)
    → o.0 ≡ err invalid
    → (before (p ∷ []) o).0 ≡ err invalid
before-still p (ok gs, b) e = cc
before-still p (err r, b) e = e

-- A first part of the bytes, then the rest with what the first part left.
run-append :
    (n m : ℕ) (b more : Bytes) {fs : List Bytes} {left : Bytes}
    → length b < n
    → feed_loop n m b ≡ (ok fs, left)
    → run m (b ++ more) ≡ before fs (run m (left ++ more))
run-append zero m b more long e = absurd (omega arith)
run-append (suc n) m b more {fs} {left} long e = elim (Found-cases (carve m b)) [
  | inl w ↦
      let at = sym (loop_waiting n m b w) ∙ e in
      let none_ : [] ≡ fs = cc in
      let same : b ≡ left = cc in
      subst (λ l. run m (b ++ more) ≡ before fs (run m (l ++ more))) same
        (subst (λ hs. run m (b ++ more) ≡ before hs (run m (b ++ more))) none_
          (sym (before-nil (run m (b ++ more)))))
  | inr (inl r) ↦ absurd (cc (sym (loop_refused n m b r) ∙ e))
  | inr (inr (payload, rest, f)) ↦
      let (gs, same, inner) =
        before-ok payload (feed_loop n m rest) (sym (loop_frame n m b f) ∙ e) in
      let ih = run-append n m rest more (omega (arith, carve_shorter m b f, long)) inner in
      run_frame m (b ++ more) (carve-append_frame m b more f)
      ∙ ap (before (payload ∷ [])) ih
      ∙ before-before (payload ∷ []) gs (run m (left ++ more))
      ∙ ap (λ hs. before hs (run m (left ++ more))) (sym same)
]

-- A refusal in the first part is one of the whole.
run-refused :
    (n m : ℕ) (b more : Bytes) {left : Bytes}
    → length b < n
    → feed_loop n m b ≡ (err invalid, left)
    → (run m (b ++ more)).0 ≡ err invalid
run-refused zero m b more long e = absurd (omega arith)
run-refused (suc n) m b more {left} long e = elim (Found-cases (carve m b)) [
  | inl w ↦ absurd (cc (sym (loop_waiting n m b w) ∙ e))
  | inr (inl r) ↦
      ap (λ o. o.0)
        (loop_refused (length (b ++ more)) m (b ++ more) (carve-append_refused m b more r))
  | inr (inr (payload, rest, f)) ↦
      let inner = before-err payload (feed_loop n m rest) (sym (loop_frame n m b f) ∙ e) in
      let ih = run-refused n m rest more (omega (arith, carve_shorter m b f, long)) inner in
      ap (λ o. o.0) (run_frame m (b ++ more) (carve-append_frame m b more f))
      ∙ before-still payload (run m (rest ++ more)) ih
]

loop-outcome :
    (n m : ℕ) (b : Bytes)
    → ((fs : List Bytes) × ((feed_loop n m b).0 ≡ ok fs)) ⊎ ((feed_loop n m b).0 ≡ err invalid)
unfolding feed_loop
loop-outcome zero m b = inl ([], refl)
loop-outcome (suc n) m b = elim (Found-cases (carve m b)) [
  | inl e ↦ inl ([], ap (λ o. o.0) (loop_waiting n m b e))
  | inr (inl e) ↦ inr (ap (λ o. o.0) (loop_refused n m b e))
  | inr (inr (payload, rest, e)) ↦
      let at = ap (λ o. o.0) (loop_frame n m b e) in
      elim (loop-outcome n m rest) [
        | inl (gs, inner) ↦ inl (payload ∷ gs, at ∙ before-then payload (feed_loop n m rest) inner)
        | inr bad ↦ inr (at ∙ before-still payload (feed_loop n m rest) bad)
      ]
]

-- The buffer goes back into the reader.
abbrev into : FrameReader → Result (List Bytes) × Bytes → Result (List Bytes) × FrameReader
into r o = (o.0, record r { buffer = o.1 })

into-before :
    (r : FrameReader) (fs : List Bytes) (o : Result (List Bytes) × Bytes)
    → into r (before fs o) ≡ before fs (into r o)
into-before r fs (ok gs, b) = refl
into-before r fs (err e, b) = refl

-- A chunk either gives frames or is refused.
pub feed-outcome :
    (a : Bytes) (r : FrameReader)
    → ((fs : List Bytes) × ((feed a r).0 ≡ ok fs)) ⊎ ((feed a r).0 ≡ err invalid)
unfolding feed
feed-outcome a r = loop-outcome (suc (length (r.buffer ++ a))) r.max_size (r.buffer ++ a)

-- A chunk, and then another, as one.
pub feed-append :
    (a b : Bytes) (r : FrameReader) {fs : List Bytes}
    → (feed a r).0 ≡ ok fs
    → feed (a ++ b) r ≡ before fs (feed b (feed a r).1)
unfolding feed
feed-append a b r {fs} e =
    let start = r.buffer ++ a in
    let whole : run r.max_size start ≡ (ok fs, (run r.max_size start).1) =
      ap (λ o. (o, (run r.max_size start).1)) e in
    ap (λ l. into r (run r.max_size l)) (sym (append_assoc r.buffer a b))
    ∙ ap (into r) (run-append (suc (length start)) r.max_size start b (omega arith) whole)
    ∙ into-before r fs (run r.max_size ((run r.max_size start).1 ++ b))

-- A chunk that is refused has the whole refused.
pub feed-refused :
    (a b : Bytes) (r : FrameReader) → (feed a r).0 ≡ err invalid → (feed (a ++ b) r).0 ≡ err invalid
unfolding feed
feed-refused a b r e =
    let start = r.buffer ++ a in
    let whole : run r.max_size start ≡ (err invalid, (run r.max_size start).1) =
      ap (λ o. (o, (run r.max_size start).1)) e in
    ap (λ l. (run r.max_size l).0) (sym (append_assoc r.buffer a b))
    ∙ run-refused (suc (length start)) r.max_size start b (omega arith) whole

-- The chunks in order, with the frames of all; the first refusal ends it.
abbrev pub feed_each : Bytes → List Bytes → FrameReader → Result (List Bytes) × FrameReader
feed_each a [] r = feed a r
feed_each a (b ∷ bs) r = elim (feed a r).0 [
  | ok fs ↦ before fs (feed_each b bs (feed a r).1)
  | err e ↦ (err e, (feed a r).1)
]

abbrev pub concat : List Bytes → Bytes
concat [] = []
concat (b ∷ bs) = b ++ concat bs

before-inner :
    (fs : List Bytes) (o : Result (List Bytes) × FrameReader) {gs : List Bytes} {r' : FrameReader}
    → before fs o ≡ (ok gs, r')
    → (hs : List Bytes) × (gs ≡ fs ++ hs) × (o ≡ (ok hs, r'))
before-inner fs (ok hs, s) e = (hs, ground (arith, e), ground (arith, e))
before-inner fs (err x, s) e = cc

-- If the whole gives frames, then so do the chunks, the same ones, and the reader ends the same.
pub feed_each-concat :
    (a : Bytes) (bs : List Bytes) (r : FrameReader) {fs : List Bytes} {r' : FrameReader}
    → feed (a ++ concat bs) r ≡ (ok fs, r')
    → feed_each a bs r ≡ (ok fs, r')
feed_each-concat a [] r e = ap (λ l. feed l r) (sym (append-nil a)) ∙ e
feed_each-concat a (b ∷ bs) r {fs} {r'} e = elim (feed-outcome a r) [
  | inr bad ↦ let clash = sym (feed-refused a (b ++ concat bs) r bad) ∙ ap (λ o. o.0) e in cc
  | inl (gs, good) ↦
      let (hs, same, inner) =
        before-inner gs (feed (b ++ concat bs) (feed a r).1)
          (sym (feed-append a (b ++ concat bs) r good) ∙ e) in
      let ih = feed_each-concat b bs (feed a r).1 inner in
      rw (good, feed_each) (ap (before gs) ih ∙ ap (λ l. (ok l, r')) (sym same))
]
