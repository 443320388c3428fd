-- ===== src/Prelude/Sorting.antt =====
-- Python's `sorted` with a key: a stable sort by a strict test.
use mathlib.Core.Path.{◌≡◌, refl, subst}
use mathlib.Core.Logic.{inl, inr}
use mathlib.Core.List.{List, [], ◌∷◌}
use mathlib.Core.Bool.{Bool, true, false}
use event_stream_broker.Prelude.Tests.{if◌then◌else◌, Bool-cases}
use event_stream_broker.Prelude.Lists.{All}

module _ {ℓ} {A : Type ℓ} where
  -- `sorted(xs)[0]` of a list that has elements.
  unfoldable pub first : A → List A → A
  first x [] = x
  first x (y ∷ ys) = y

module _ {ℓ} {A : Type ℓ} (less : A → A → Bool) where
  -- Before the first element that is not less, so equal keys keep their order.
  unfoldable pub insert_by : A → List A → List A
  insert_by x [] = x ∷ []
  insert_by x (y ∷ ys) = let rest = insert_by x ys in if less y x then y ∷ rest else x ∷ y ∷ ys

  unfoldable pub sorted : List A → List A
  unfolding insert_by
  sorted [] = []
  sorted (x ∷ xs) = insert_by x (sorted xs)

  pub All-insert_by {κ} :
      (P : A → Type κ) (x : A) (ys : List A) → P x → All P ys → All P (insert_by x ys)
  unfolding insert_by
  All-insert_by P x [] hx h = (hx, tt)
  All-insert_by P x (y ∷ ys) hx h = elim (Bool-cases (less y x)) [
    | inl lower ↦ rw lower (h.0, All-insert_by P x ys hx h.1)
    | inr other ↦ rw other (hx, h)
  ]

  insert_by-All {κ} :
      (P : A → Type κ) (x : A) (ys : List A) → All P (insert_by x ys) → P x × All P ys
  unfolding insert_by
  insert_by-All P x [] h = h
  insert_by-All P x (y ∷ ys) h = elim (Bool-cases (less y x)) [
    | inl lower ↦
        let tail = rw lower at h in
        let (hx, rest) = insert_by-All P x ys tail.1 in (hx, (tail.0, rest))
    | inr other ↦ rw other at h
  ]

  -- Sorting neither adds nor loses an element.
  pub sorted-All {κ} : (P : A → Type κ) (xs : List A) → All P (sorted xs) → All P xs
  unfolding sorted
  sorted-All P [] h = h
  sorted-All P (x ∷ xs) h =
      let (hx, rest) = insert_by-All P x (sorted xs) h in (hx, sorted-All P xs rest)

  pub All-sorted {κ} : (P : A → Type κ) (xs : List A) → All P xs → All P (sorted xs)
  unfolding sorted
  All-sorted P [] h = h
  All-sorted P (x ∷ xs) h = All-insert_by P x (sorted xs) h.0 (All-sorted P xs h.1)

  insert_by-pick {κ} :
      (P : A → Type κ) (d x : A) (ys : List A) → P x → All P ys → P (first d (insert_by x ys))
  unfolding insert_by first
  insert_by-pick P d x [] hx h = hx
  insert_by-pick P d x (y ∷ ys) hx h = elim (Bool-cases (less y x)) [
    | inl lower ↦ rw lower h.0
    | inr other ↦ rw other hx
  ]

  -- What stands first is one of the elements.
  pub first-All {κ} :
      (P : A → Type κ) (d x : A) (xs : List A) → All P (x ∷ xs) → P (first d (sorted (x ∷ xs)))
  unfolding sorted
  first-All P d x xs h = insert_by-pick P d x (sorted xs) h.0 (All-sorted P xs h.1)

  -- The same of a list that may be empty, where the default is one of them.
  pub first-All_default {κ} :
      (P : A → Type κ) (d : A) (xs : List A) → P d → All P xs → P (first d (sorted xs))
  unfolding first sorted
  first-All_default P d [] hd h = hd
  first-All_default P d (x ∷ xs) hd h = first-All P d x xs h

-- A relation that the test decides, whatever else it looks at.
module _ {ℓ κ} {A : Type ℓ} (less : A → A → Bool) (R : A → A → Type κ) (R_refl : (x : A) → R x x)
    (R_trans : (x y z : A) → R x y → R y z → R x z) (after : (x y : A) → less y x ≡ true → R x y)
    (before : (x y : A) → less y x ≡ false → R y x) where
  raise_All : (y z : A) (xs : List A) → R y z → All (λ x. R x y) xs → All (λ x. R x z) xs
  raise_All y z [] h k = tt
  raise_All y z (x ∷ xs) h k = (R_trans x y z k.0 h, raise_All y z xs h k.1)

  insert-first :
      (x d : A) (ys xs : List A)
      → All (λ z. R z (first x ys)) xs
      → All (λ z. R z (first d (insert_by less x ys))) (x ∷ xs)
  unfolding insert_by first
  insert-first x d [] xs h = (R_refl x, h)
  insert-first x d (y ∷ ys) xs h = elim (Bool-cases (less y x)) [
    | inl lower ↦
        let at : y ≡ first d (insert_by less x (y ∷ ys)) = rw lower refl in
        subst (λ f. All (λ z. R z f) (x ∷ xs)) at (after x y lower, h)
    | inr other ↦
        let at : x ≡ first d (insert_by less x (y ∷ ys)) = rw other refl in
        subst (λ f. All (λ z. R z f) (x ∷ xs)) at (R_refl x, raise_All y x xs (before x y other) h)
  ]

  -- What stands first is related to everything that is sorted.
  pub first-sorted : (d : A) (xs : List A) → All (λ y. R y (first d (sorted less xs))) xs
  unfolding sorted
  first-sorted d [] = tt
  first-sorted d (x ∷ xs) = insert-first x d (sorted less xs) xs (first-sorted x xs)
