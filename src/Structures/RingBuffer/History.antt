-- ===== src/Structures/RingBuffer/History.antt =====
-- However many values have been appended, the buffer holds the last of them, oldest first.
use event_stream_broker.Prelude.{
  ℕ, ◌-◌, ◌<◌, ◌≡◌, refl, sym, ap, ◌∙◌, subst, inl, inr, false, List, [], ◌∷◌, ◌++◌, append-nil,
  append_assoc, arith, ltb, length, drop, le→ltb, lt→ltb, min,
}
use event_stream_broker.Failure.Method
use event_stream_broker.Failure.{Result, ok}
use event_stream_broker.Structures.RingBuffer.{RingBuffer, make_buffer, append, contents, size}
use event_stream_broker.Structures.RingBuffer.Window.{window}
use event_stream_broker.Structures.RingBuffer.Rounds.{Holds, fill, turn}

module _ {A : Type 0} where
  unfoldable pub append_all : List A → RingBuffer A → Result (Unit {0}) × RingBuffer A
  append_all [] r = (ok tt, r)
  append_all (v ∷ vs) r = Method.◌>>◌ (append v) (append_all vs) r

  append-Holds :
      (n : ℕ) (vs : List A) (v : A) (r : RingBuffer A)
      → Holds n vs r
      → let o = append v r in (o.0 ≡ ok tt) × Holds n (vs ++ v ∷ []) o.1
  append-Holds n vs v r (size_, inl h) = fill n vs v r size_ h
  append-Holds n vs v r (size_, inr h) = turn n vs v r size_ h

  append_all-Holds :
      (n : ℕ) (vs ws : List A) (r : RingBuffer A)
      → Holds n vs r
      → let o = append_all ws r in (o.0 ≡ ok tt) × Holds n (vs ++ ws) o.1
  unfolding append_all
  append_all-Holds n vs [] r h = (refl, subst (λ l. Holds n l r) (sym (append-nil vs)) h)
  append_all-Holds n vs (w ∷ ws) r h =
      let (fine, held) = append-Holds n vs w r h in
      let whole : append w r ≡ (ok tt, (append w r).1) = ap (λ o. (o, (append w r).1)) fine in
      let step : append_all (w ∷ ws) r ≡ append_all ws (append w r).1 =
        ap (λ o. Method.continue o (λ (_ : Unit {0}). append_all ws)) whole in
      let rest = append_all-Holds n (vs ++ w ∷ []) ws (append w r).1 held in
      rw (step, sym (append_assoc vs (w ∷ []) ws)) rest

  Holds-contents :
      (n : ℕ) (vs : List A) (r : RingBuffer A)
      → Holds n vs r
      → (contents r ≡ drop (length vs - n) vs)
        × (size r ≡ min (length vs) n)
        × (r.wrapped ≡ ltb n (length vs))
  unfolding contents size window
  Holds-contents n vs r (size_, inl h) =
      let none_ : length vs - n ≡ 0 = omega (arith, h.room) in
      (
        rw (h.straight, none_) h.kept,
        omega (arith, ap length h.kept, h.room),
        h.straight ∙ sym (le→ltb n (length vs) (omega (arith, h.room))),
      )
  Holds-contents n vs r (size_, inr h) =
      let used : length r.data_ ≡ min (length vs) n = omega (arith, h.all_used, h.many) in
      elim h.turned [
        | inl (over, more) ↦ (rw over h.seen, used, over ∙ sym (lt→ltb n (length vs) more))
        | inr (straight, start, even) ↦ (
          rw straight (sym (append-nil r.data_) ∙ ap (λ k. window k r.data_) (sym start) ∙ h.seen),
          used,
          straight ∙ sym (le→ltb n (length vs) (omega (arith, even))),
        )
      ]

  -- A buffer of `n` places takes any number of values without an error. It then holds exactly the last
  -- `n` of them, or all if they are fewer, oldest first, and it says that it has wrapped exactly if one
  -- has been overwritten.
  pub append_all-last :
      (n : ℕ) (vs : List A)
      → 0 < n
      → (r : RingBuffer A) × (make_buffer n ≡ ok r)
        × ((append_all vs r).0 ≡ ok tt)
        × (contents (append_all vs r).1 ≡ drop (length vs - n) vs)
        × (size (append_all vs r).1 ≡ min (length vs) n)
        × ((append_all vs r).1.wrapped ≡ ltb n (length vs))
  unfolding make_buffer
  append_all-last n vs h =
      let r : RingBuffer A = record { capacity = n; data_ = []; position = 0; wrapped = false } in
      let (fine, held) =
        append_all-Holds n [] vs r
          (refl, inl record { room = h; kept = refl; at_end = refl; straight = refl }) in
      let some_ : ltb n 1 ≡ false = ground (arith, h) in
      let (shown, many, turned) = Holds-contents n vs (append_all vs r).1 held in
      (r, rw some_ refl, fine, shown, many, turned)
