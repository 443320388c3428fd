-- ===== src/Structures/RingBuffer/Window.antt =====
-- A list that is written at one place and seen from there, all the way round.
use native.Mathlib.Nat.{mod-eq_of_lt, mod_self}
use event_stream_broker.Prelude.{
  ℕ, zero, suc, ◌+◌, ◌%◌, ◌<◌, ◌≡◌, refl, sym, ap, ◌∙◌, ◌⊎◌, inl, inr, some, List, [], ◌∷◌, ◌++◌,
  append-nil, append_assoc, arith, ltb, Bool-cases, length, take, drop, drop-append_left,
}
use event_stream_broker.Structures.RingBuffer.{set_at}

pub next-cases :
    (p n : ℕ) → p < n → (((p + 1) % n ≡ suc p) × (suc p < n)) ⊎ (((p + 1) % n ≡ 0) × (suc p ≡ n))
next-cases p n h = elim (Bool-cases (ltb (p + 1) n)) [
  | inl more ↦
      let below : p + 1 < n = ground (arith, more) in
      inl (omega (arith, mod-eq_of_lt below), omega arith)
  | inr end_ ↦
      let same : p + 1 ≡ n = ground (arith, end_, h) in
      inr (ap (λ (k : ℕ). k % n) same ∙ mod_self n, omega arith)
]

module _ {A : Type 0} where
  pub set_at-split :
      (i : ℕ) (v : A) (xs : List A)
      → i < length xs
      → set_at i v xs ≡ some (take i xs ++ v ∷ drop (suc i) xs)
  unfolding set_at
  set_at-split i v [] h = absurd (omega arith)
  set_at-split zero v (x ∷ xs) h = refl
  set_at-split (suc i) v (x ∷ xs) h = rw (set_at-split i v xs (omega arith), set_at) refl

  -- What the list looks like from a place on, and round to it.
  unfoldable pub window : ℕ → List A → List A
  window i xs = drop i xs ++ take i xs

  unfoldable pub written : ℕ → A → List A → List A
  written i v xs = take i xs ++ v ∷ drop (suc i) xs

  pub length-written :
      (i : ℕ) (v : A) (xs : List A) → i < length xs → length (written i v xs) ≡ length xs
  unfolding written
  length-written i v [] h = absurd (omega arith)
  length-written zero v (x ∷ xs) h = refl
  length-written (suc i) v (x ∷ xs) h = omega (arith, length-written i v xs (omega arith))

  drop-written :
      (i : ℕ) (v : A) (xs : List A)
      → i < length xs
      → drop (suc i) (written i v xs) ≡ drop (suc i) xs
  unfolding written
  drop-written i v [] h = absurd (omega arith)
  drop-written zero v (x ∷ xs) h = refl
  drop-written (suc i) v (x ∷ xs) h = drop-written i v xs (omega arith)

  take-written :
      (i : ℕ) (v : A) (xs : List A)
      → i < length xs
      → take (suc i) (written i v xs) ≡ take i xs ++ v ∷ []
  unfolding written
  take-written i v [] h = absurd (omega arith)
  take-written zero v (x ∷ xs) h = refl
  take-written (suc i) v (x ∷ xs) h = ap (λ l. x ∷ l) (take-written i v xs (omega arith))

  drop-one :
      (i : ℕ) (xs ys : List A) → i < length xs → drop 1 (drop i xs ++ ys) ≡ drop (suc i) xs ++ ys
  drop-one i [] ys h = absurd (omega arith)
  drop-one zero (x ∷ xs) ys h = refl
  drop-one (suc i) (x ∷ xs) ys h = drop-one i xs ys (omega arith)

  -- The place after the one that is written sees everything but the oldest, and the new value last.
  pub window-written :
      (i : ℕ) (v : A) (xs : List A)
      → i < length xs
      → window (suc i) (written i v xs) ≡ drop 1 (window i xs) ++ v ∷ []
  unfolding window
  window-written i v xs h =
      rw (drop-written i v xs h, take-written i v xs h, drop-one i xs (take i xs) h)
        (sym (append_assoc (drop (suc i) xs) (take i xs) (v ∷ [])))

  pub window_round : (xs : List A) → window (length xs) xs ≡ window 0 xs
  unfolding window
  window_round xs = rw (drop_whole xs, take_whole xs) (sym (append-nil xs))
    where
      drop_whole : (ys : List A) → drop (length ys) ys ≡ []
      drop_whole [] = refl
      drop_whole (y ∷ ys) = drop_whole ys

      take_whole : (ys : List A) → take (length ys) ys ≡ ys
      take_whole [] = refl
      take_whole (y ∷ ys) = ap (λ l. y ∷ l) (take_whole ys)

  -- The last values, when one more has come.
  pub last-append :
      (m : ℕ) (vs : List A) (v : A)
      → m < length vs
      → drop 1 (drop m vs) ++ v ∷ [] ≡ drop (suc m) (vs ++ v ∷ [])
  last-append m vs v h =
      let rest = drop-one m vs [] h in
      let plain : drop 1 (drop m vs) ≡ drop (suc m) vs = simp append-nil at rest in
      rw plain (sym (drop-append_left (suc m) vs (v ∷ []) (omega arith)))
