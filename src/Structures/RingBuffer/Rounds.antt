-- ===== src/Structures/RingBuffer/Rounds.antt =====
-- One append to a buffer with room, and one to a full buffer.
use event_stream_broker.Prelude.{
  ℕ, suc, ◌+◌, ◌-◌, ◌%◌, ◌≤◌, ◌<◌, ◌≡◌, refl, sym, ap, ◌∙◌, ◌⊎◌, inl, inr, true, false, List, [],
  ◌∷◌, ◌++◌, append-nil, arith, length, drop, length-append, le→ltb, lt→ltb,
}
use event_stream_broker.Failure.{ok}
use event_stream_broker.Structures.RingBuffer.{RingBuffer, append}
use event_stream_broker.Structures.RingBuffer.Window.{
  next-cases, set_at-split, window, written, length-written, window-written, window_round,
  last-append,
}

module _ {A : Type 0} where
  -- Fewer values than there are places, and none has been overwritten.
  pub record IsFilling (n : ℕ) (vs : List A) (r : RingBuffer A) : Type 0 where
    pub room : length vs < n
    pub kept : r.data_ ≡ vs
    pub at_end : r.position ≡ length vs
    pub straight : r.wrapped ≡ false

  pub record IsFull (n : ℕ) (vs : List A) (r : RingBuffer A) : Type 0 where
    pub many : n ≤ length vs
    pub all_used : length r.data_ ≡ n
    pub inside : r.position < n
    pub seen : window r.position r.data_ ≡ drop (length vs - n) vs
    pub turned :
        ((r.wrapped ≡ true) × (n < length vs))
        ⊎ ((r.wrapped ≡ false) × (r.position ≡ 0) × (length vs ≡ n))

  -- The buffer of `n` places after the values.
  abbrev pub Holds : ℕ → List A → RingBuffer A → Type 0
  Holds n vs r = (r.capacity ≡ n) × (IsFilling n vs r ⊎ IsFull n vs r)

  zero_left : (vs : List A) (v : A) (n : ℕ) → suc (length vs) ≡ n → length (vs ++ v ∷ []) - n ≡ 0
  zero_left vs v n e = omega (arith, length-append vs (v ∷ []))

  -- The next place, and what is seen from it.
  wrap_next :
      (p n : ℕ) (xs : List A)
      → p < n
      → length xs ≡ n
      → ((p + 1) % n < n) × (window ((p + 1) % n) xs ≡ window (suc p) xs)
  wrap_next p n xs h long = elim (next-cases p n h) [
    | inl (next, more) ↦ (omega (arith, next, more), ap (λ k. window k xs) next)
    | inr (next, end_) ↦
        let last_ : length xs ≡ suc p = omega (arith, end_, long) in
        (
          omega (arith, next, h),
          ap (λ k. window k xs) next ∙ sym (window_round xs) ∙ ap (λ k. window k xs) last_,
        )
  ]

  append-room :
      (v : A) (r : RingBuffer A)
      → length r.data_ < r.capacity
      → append v r
        ≡ (ok tt, record r { data_ = r.data_ ++ v ∷ []; position = (r.position + 1) % r.capacity })
  unfolding append
  append-room v r room = let some_ = lt→ltb (length r.data_) r.capacity room in rw some_ refl

  last_place :
      (n : ℕ) (vs : List A) (v : A) (r : RingBuffer A)
      → (r.position + 1) % r.capacity ≡ 0
      → suc (length vs) ≡ n
      → r.data_ ≡ vs
      → window ((r.position + 1) % r.capacity) (r.data_ ++ v ∷ [])
        ≡ drop (length (vs ++ v ∷ []) - n) (vs ++ v ∷ [])
  unfolding window
  last_place n vs v r next end_ kept =
      ap (λ k. window k (r.data_ ++ v ∷ [])) next
      ∙ append-nil (r.data_ ++ v ∷ [])
      ∙ ap (λ xs. xs ++ v ∷ []) kept
      ∙ ap (λ k. drop k (vs ++ v ∷ [])) (sym (zero_left vs v n end_))

  pub fill :
      (n : ℕ) (vs : List A) (v : A) (r : RingBuffer A)
      → r.capacity ≡ n
      → IsFilling n vs r
      → let o = append v r in (o.0 ≡ ok tt) × Holds n (vs ++ v ∷ []) o.1
  fill n vs v r size_ h =
      let grown = length-append vs (v ∷ []) in
      let used : length r.data_ ≡ length vs = ap length h.kept in
      let room : length r.data_ < r.capacity = omega (arith, used, h.room, size_) in
      let same : (r.position + 1) % r.capacity ≡ (r.position + 1) % n =
        ap (λ (k : ℕ). (r.position + 1) % k) size_ in
      rw (append-room v r room) (
        refl,
        (
          size_,
          elim (next-cases r.position n (omega (arith, h.at_end, h.room))) [
            | inl (next, more) ↦ inl record {
              room = omega (arith, grown, more, h.at_end);
              kept = ap (λ xs. xs ++ v ∷ []) h.kept;
              at_end = omega (arith, same, next, grown, h.at_end);
              straight = h.straight;
            }
            | inr (next, end_) ↦
                let full : suc (length vs) ≡ n = omega (arith, end_, h.at_end) in
                inr record {
                  many = omega (arith, grown, full);
                  all_used = omega (arith, used, length-append r.data_ (v ∷ []), full);
                  inside = omega (arith, same, next, h.room);
                  seen = last_place n vs v r (same ∙ next) full h.kept;
                  turned = inr (h.straight, same ∙ next, omega (arith, grown, full));
                }
          ],
        ),
      )

  append-full :
      (v : A) (r : RingBuffer A)
      → length r.data_ ≡ r.capacity
      → r.position < r.capacity
      → append v r ≡ (
        ok tt,
        record r {
          data_ = written r.position v r.data_;
          position = (r.position + 1) % r.capacity;
          wrapped = true;
        },
      )
  unfolding append written
  append-full v r all_used inside =
      let full = le→ltb (length r.data_) r.capacity (omega (arith, all_used)) in
      rw (full, set_at-split r.position v r.data_ (omega (arith, all_used, inside)), append) refl

  -- A full buffer lets go of the oldest value.
  seen_next :
      (n : ℕ) (vs : List A) (v : A) (r : RingBuffer A)
      → 0 < n
      → IsFull n vs r
      → window (suc r.position) (written r.position v r.data_)
        ≡ drop (length (vs ++ v ∷ []) - n) (vs ++ v ∷ [])
  seen_next n vs v r some_ h =
      let later : suc (length vs - n) ≡ length (vs ++ v ∷ []) - n =
        omega (arith, length-append vs (v ∷ []), h.many) in
      window-written r.position v r.data_ (omega (arith, h.inside, h.all_used))
      ∙ ap (λ xs. drop 1 xs ++ v ∷ []) h.seen
      ∙ last-append (length vs - n) vs v (omega (arith, h.many, some_))
      ∙ ap (λ k. drop k (vs ++ v ∷ [])) later

  pub turn :
      (n : ℕ) (vs : List A) (v : A) (r : RingBuffer A)
      → r.capacity ≡ n
      → IsFull n vs r
      → let o = append v r in (o.0 ≡ ok tt) × Holds n (vs ++ v ∷ []) o.1
  turn n vs v r size_ h =
      let some_ : 0 < n = omega (arith, h.inside) in
      let grown = length-append vs (v ∷ []) in
      let data' = written r.position v r.data_ in
      let used : length data' ≡ n =
        length-written r.position v r.data_ (omega (arith, h.inside, h.all_used)) ∙ h.all_used in
      let same : (r.position + 1) % r.capacity ≡ (r.position + 1) % n =
        ap (λ (k : ℕ). (r.position + 1) % k) size_ in
      let (inside, seen) = wrap_next r.position n data' h.inside used in
      rw (append-full v r (h.all_used ∙ sym size_) (omega (arith, size_, h.inside))) (
        refl,
        (
          size_,
          inr record {
            many = omega (arith, grown, h.many);
            all_used = used;
            inside = omega (arith, same, inside);
            seen = ap (λ k. window k data') same ∙ seen ∙ seen_next n vs v r some_ h;
            turned = inl (refl, omega (arith, grown, h.many));
          },
        ),
      )
