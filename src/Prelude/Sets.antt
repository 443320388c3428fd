-- ===== src/Prelude/Sets.antt =====
-- Python's `set` as a list without repetitions.
use Prim.Native.Nat.{suc, ◌+◌, ◌≤◌}
use mathlib.Core.Path.{◌≡◌, refl, sym, ap, ◌∙◌, subst}
use mathlib.Core.Logic.{◌⊎◌, inl, inr}
use mathlib.Core.List.{List, [], ◌∷◌, ◌++◌}
use mathlib.Core.Bool.{Bool, true, false, not}
use native.Mathlib.Omega.{arith}
use event_stream_broker.Prelude.Tests.{if◌then◌else◌, Bool-cases, Eq, ◌==◌, ==_self}
use event_stream_broker.Prelude.Lists.{All, All-mono, All-keep, keep, length}

module _ {ℓ} {A : Type ℓ} ⦃e : Eq A⦄ where
  -- x in xs
  unfoldable pub mem : A → List A → Bool
  mem x [] = false
  mem x (y ∷ ys) = if y == x then true else mem x ys

  abbrev pub Distinct : List A → Type 0
  Distinct [] = Unit
  Distinct (x ∷ xs) = (mem x xs ≡ false) × Distinct xs

  -- Every element of the one is in the other.
  abbrev pub Within : List A → List A → Type 0
  Within xs ys = All (λ x. mem x ys ≡ true) xs

  without : A → List A → List A
  without x [] = []
  without x (y ∷ ys) = if y == x then ys else y ∷ without x ys

  length-without : (x : A) (ys : List A) → mem x ys ≡ true → suc (length (without x ys)) ≡ length ys
  unfolding without mem
  length-without x [] h = cc
  length-without x (y ∷ ys) h = elim (Bool-cases (y == x)) [
    | inl same ↦ rw same refl
    | inr other ↦ rw other (omega (arith, length-without x ys (rw other at h)))
  ]

  mem-without :
      (x z : A) (ys : List A) → (x == z) ≡ false → mem z ys ≡ true → mem z (without x ys) ≡ true
  unfolding without mem
  mem-without x z [] apart h = h
  mem-without x z (y ∷ ys) apart h =
      ground
        (arith, h, apart, e.same_iff y x, e.same_iff y z, e.same_iff x z, mem-without x z ys apart)

  Within-without :
      (x : A) (xs ys : List A) → mem x xs ≡ false → Within xs ys → Within xs (without x ys)
  unfolding mem
  Within-without x [] ys new h = tt
  Within-without x (z ∷ zs) ys new h =
      let other : (x == z) ≡ false = ground (arith, new, e.same_iff z x, e.same_iff x z) in
      let rest : mem x zs ≡ false = ground (arith, new) in
      (mem-without x z ys other h.0, Within-without x zs ys rest h.1)

  -- A set within another is no larger.
  pub length-Within : (xs ys : List A) → Distinct xs → Within xs ys → length xs ≤ length ys
  length-Within [] ys d h = omega arith
  length-Within (x ∷ xs) ys d h = omega (
    arith,
    length-without x ys h.0,
    length-Within xs (without x ys) d.1 (Within-without x xs ys d.0 h.1),
  )

  mem-append :
      (x : A) (xs ys : List A) → mem x xs ≡ false → mem x ys ≡ false → mem x (xs ++ ys) ≡ false
  unfolding mem
  mem-append x [] ys h k = k
  mem-append x (z ∷ zs) ys h k = ground (arith, h, mem-append x zs ys)

  -- Sets without a common element.
  pub Distinct-append :
      (xs ys : List A)
      → Distinct xs
      → Distinct ys
      → All (λ x. mem x ys ≡ false) xs
      → Distinct (xs ++ ys)
  Distinct-append [] ys d k h = k
  Distinct-append (x ∷ xs) ys d k h = (mem-append x xs ys d.0 h.0, Distinct-append xs ys d.1 k h.1)

  pub mem-keep : (p : A → Bool) (x : A) (xs : List A) → mem x xs ≡ false → mem x (keep p xs) ≡ false
  unfolding mem
  mem-keep p x [] h = h
  mem-keep p x (y ∷ ys) h = ground (arith, h, mem-keep p x ys)

  pub Distinct-keep : (p : A → Bool) (xs : List A) → Distinct xs → Distinct (keep p xs)
  Distinct-keep p [] d = tt
  Distinct-keep p (x ∷ xs) d = elim (Bool-cases (p x)) [
    | inl yes_ ↦ rw yes_ (mem-keep p x xs d.0, Distinct-keep p xs d.1)
    | inr no_ ↦ rw no_ (Distinct-keep p xs d.1)
  ]

  pub length-keep :
      (p : A → Bool) (xs : List A)
      → length (keep p xs) + length (keep (λ x. not (p x)) xs) ≡ length xs
  length-keep p [] = omega arith
  length-keep p (x ∷ xs) = ground (arith, length-keep p xs)

  mem-kept :
      (p : A → Bool) (x : A) (xs : List A) → p x ≡ true → mem x xs ≡ true → mem x (keep p xs) ≡ true
  unfolding mem
  mem-kept p x [] h k = k
  mem-kept p x (y ∷ ys) h k = elim (Bool-cases (y == x)) [
    | inl same ↦
        let stays : p y ≡ true = ap p ((e.same_iff y x).0 same) ∙ h in rw (stays, same) refl
    | inr other ↦ let rest = mem-kept p x ys h (rw other at k) in ground (arith, other, rest)
  ]

  -- What a test leaves of a set is within what it leaves of a larger one.
  pub Within-keep : (p : A → Bool) (xs ys : List A) → Within xs ys → Within (keep p xs) (keep p ys)
  Within-keep p xs ys h =
      All-mono (keep p xs) (λ x k. mem-kept p x ys k.0 k.1) (All-keep (λ x. mem x ys ≡ true) p xs h)

  pub mem-All {κ} : (P : A → Type κ) (x : A) (xs : List A) → mem x xs ≡ true → All P xs → P x
  unfolding mem
  mem-All P x [] h k = cc
  mem-All P x (y ∷ ys) h k = elim (Bool-cases (y == x)) [
    | inl same ↦ subst P ((e.same_iff y x).0 same) k.0
    | inr other ↦ mem-All P x ys (rw other at h) k.1
  ]

  mem-Within : (x : A) (ys zs : List A) → mem x ys ≡ true → Within ys zs → mem x zs ≡ true
  unfolding mem
  mem-Within x [] zs h k = cc
  mem-Within x (y ∷ ys) zs h k = elim (Bool-cases (y == x)) [
    | inl same ↦ ap (λ z. mem z zs) (sym ((e.same_iff y x).0 same)) ∙ k.0
    | inr other ↦ mem-Within x ys zs (rw other at h) k.1
  ]

  pub Within-trans : (xs ys zs : List A) → Within xs ys → Within ys zs → Within xs zs
  Within-trans xs ys zs h k = All-mono xs (λ x there. mem-Within x ys zs there k) h

  pub Within-more : (x : A) (xs ys : List A) → Within xs ys → Within xs (x ∷ ys)
  unfolding mem
  Within-more x [] ys h = tt
  Within-more x (z ∷ zs) ys h = (ground (arith, h.0), Within-more x zs ys h.1)

  pub Within-self : (xs : List A) → Within xs xs
  unfolding mem
  Within-self [] = tt
  Within-self (x ∷ xs) = (rw (==_self x) refl, Within-more x xs xs (Within-self xs))

  -- Either the sets meet or they are apart.
  pub meet :
      (xs ys : List A)
      → ((x : A) × (mem x xs ≡ true) × (mem x ys ≡ true)) ⊎ All (λ x. mem x ys ≡ false) xs
  unfolding mem
  meet [] ys = inr tt
  meet (x ∷ xs) ys = elim (Bool-cases (mem x ys)) [
    | inl both ↦ inl (x, rw (==_self x) refl, both)
    | inr apart ↦ elim (meet xs ys) [
      | inl (z, here_, there) ↦ inl (z, ground (arith, here_), there)
      | inr rest ↦ inr (apart, rest)
    ]
  ]
