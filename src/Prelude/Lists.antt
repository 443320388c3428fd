-- ===== src/Prelude/Lists.antt =====
-- Lists measured and indexed by native numbers, under the library's names.
use Prim.Native.Nat.{ℕ, zero, suc, ◌+◌, ◌-◌, ◌<◌, ◌≤◌, min}
use mathlib.Core.Logic.{◌↔◌, ◌⊎◌, inl, inr}
use mathlib.Core.Path.{◌≡◌, refl, ap, ◌∙◌, subst}
use mathlib.Core.List.{List, [], ◌∷◌, ◌++◌, map}
use mathlib.Core.Option.{Option, none, some, some-injective}
use mathlib.Core.Bool.{Bool, true, false, ◌&&◌}
use native.Mathlib.Omega.{arith}
use event_stream_broker.Prelude.Tests.{if◌then◌else◌, Bool-cases}

module _ {ℓ} {A : Type ℓ} where
  abbrev pub length : List A → ℕ
  length [] = 0
  length (x ∷ xs) = suc (length xs)

  abbrev pub get_elem? : List A → ℕ → Option A
  get_elem? [] i = none
  get_elem? (x ∷ xs) zero = some x
  get_elem? (x ∷ xs) (suc i) = get_elem? xs i

  abbrev pub drop : ℕ → List A → List A
  drop zero xs = xs
  drop (suc n) [] = []
  drop (suc n) (x ∷ xs) = drop n xs

  abbrev pub take : ℕ → List A → List A
  take zero xs = []
  take (suc n) [] = []
  take (suc n) (x ∷ xs) = x ∷ take n xs

  -- `xs[-1]`, if there is one.
  abbrev pub get_last? : List A → Option A
  get_last? [] = none
  get_last? (x ∷ []) = some x
  get_last? (x ∷ y ∷ ys) = get_last? (y ∷ ys)

  -- `xs[-1] = v` on a list that has elements.
  abbrev pub set_last : List A → A → List A
  set_last [] v = []
  set_last (x ∷ []) v = v ∷ []
  set_last (x ∷ y ∷ ys) v = x ∷ set_last (y ∷ ys) v

  -- A comprehension's `if`; the decision procedures of the library's `filter` are not wanted here.
  abbrev pub keep : (A → Bool) → List A → List A
  keep p [] = []
  keep p (x ∷ xs) = if p x then x ∷ keep p xs else keep p xs

  unfoldable pub any : (A → Bool) → List A → Bool
  any p [] = false
  any p (x ∷ xs) = if p x then true else any p xs

  abbrev pub All {κ} : (A → Type κ) → List A → Type κ
  All P [] = Unit
  All P (x ∷ xs) = P x × All P xs

  pub length-append : (xs ys : List A) → length (xs ++ ys) ≡ length xs + length ys
  length-append [] ys = omega arith
  length-append (x ∷ xs) ys = omega (arith, length-append xs ys)

  pub get_elem?-append_left :
      (xs ys : List A) (i : ℕ) → i < length xs → get_elem? (xs ++ ys) i ≡ get_elem? xs i
  get_elem?-append_left [] ys i h = elim h [ ]
  get_elem?-append_left (x ∷ xs) ys zero h = refl
  get_elem?-append_left (x ∷ xs) ys (suc i) h = get_elem?-append_left xs ys i (omega arith)

  pub get_elem?-append_right :
      (xs ys : List A) (i : ℕ)
      → length xs ≤ i
      → get_elem? (xs ++ ys) i ≡ get_elem? ys (i - length xs)
  get_elem?-append_right [] ys i h = ap (get_elem? ys) (omega arith)
  get_elem?-append_right (x ∷ xs) ys zero h = absurd (omega arith)
  get_elem?-append_right (x ∷ xs) ys (suc i) h =
      get_elem?-append_right xs ys i (omega arith) ∙ ap (get_elem? ys) (omega arith)

  pub get_elem?_end : (xs : List A) (i : ℕ) → length xs ≤ i → get_elem? xs i ≡ none
  get_elem?_end [] i h = refl
  get_elem?_end (x ∷ xs) zero h = absurd (omega arith)
  get_elem?_end (x ∷ xs) (suc i) h = get_elem?_end xs i (omega arith)

  pub get_elem?_inside : (xs : List A) (i : ℕ) → i < length xs → (x : A) × (get_elem? xs i ≡ some x)
  get_elem?_inside [] i h = elim h [ ]
  get_elem?_inside (x ∷ xs) zero h = (x, refl)
  get_elem?_inside (x ∷ xs) (suc i) h = get_elem?_inside xs i (omega arith)

  pub drop-append : (xs ys : List A) (n m : ℕ) → m ≡ length xs + n → drop m (xs ++ ys) ≡ drop n ys
  drop-append [] ys n m e = let same : m ≡ n = omega arith in ap (λ k. drop k ys) same
  drop-append (x ∷ xs) ys n zero e = absurd (omega arith)
  drop-append (x ∷ xs) ys n (suc m) e = drop-append xs ys n m (omega arith)

  pub take-append_left : (n : ℕ) (xs ys : List A) → n ≤ length xs → take n (xs ++ ys) ≡ take n xs
  take-append_left zero xs ys h = refl
  take-append_left (suc n) [] ys h = absurd (omega arith)
  take-append_left (suc n) (x ∷ xs) ys h = ap (λ l. x ∷ l) (take-append_left n xs ys (omega arith))

  pub take_all : (xs ys : List A) → take (length xs) (xs ++ ys) ≡ xs
  take_all [] ys = refl
  take_all (x ∷ xs) ys = ap (λ l. x ∷ l) (take_all xs ys)

  pub drop-append_left :
      (n : ℕ) (xs ys : List A) → n ≤ length xs → drop n (xs ++ ys) ≡ drop n xs ++ ys
  drop-append_left zero xs ys h = refl
  drop-append_left (suc n) [] ys h = absurd (omega arith)
  drop-append_left (suc n) (x ∷ xs) ys h = drop-append_left n xs ys (omega arith)

  pub length-take : (n : ℕ) (xs : List A) → n ≤ length xs → length (take n xs) ≡ n
  length-take zero xs h = refl
  length-take (suc n) [] h = absurd (omega arith)
  length-take (suc n) (x ∷ xs) h = omega (arith, length-take n xs (omega arith))

  pub length-drop : (n : ℕ) (xs : List A) → length (drop n xs) ≡ length xs - n
  length-drop zero xs = omega arith
  length-drop (suc n) [] = omega arith
  length-drop (suc n) (x ∷ xs) = omega (arith, length-drop n xs)

  pub lt-length_of_get_elem? :
      (xs : List A) (i : ℕ) {x : A} → get_elem? xs i ≡ some x → i < length xs
  lt-length_of_get_elem? [] i e = cc
  lt-length_of_get_elem? (x ∷ xs) zero e = omega arith
  lt-length_of_get_elem? (x ∷ xs) (suc i) e = omega (arith, lt-length_of_get_elem? xs i e)

  pub get_elem?-drop :
      (n : ℕ) (xs : List A) (i : ℕ) → get_elem? (drop n xs) i ≡ get_elem? xs (n + i)
  get_elem?-drop zero xs i = let same : i ≡ zero + i = omega arith in ap (get_elem? xs) same
  get_elem?-drop (suc n) [] i = refl
  get_elem?-drop (suc n) (x ∷ xs) i =
      let step : suc (n + i) ≡ suc n + i = omega arith in
      get_elem?-drop n xs i ∙ ap (get_elem? (x ∷ xs)) step

  pub All-append {κ} : (P : A → Type κ) (xs ys : List A) → All P xs → All P ys → All P (xs ++ ys)
  All-append P [] ys hx hy = hy
  All-append P (x ∷ xs) ys hx hy = (hx.0, All-append P xs ys hx.1 hy)

pub All-mono {ℓ κ μ} :
    {A : Type ℓ} {P : A → Type κ} {Q : A → Type μ} (xs : List A)
    → ((x : A) → P x → Q x)
    → All P xs
    → All Q xs
All-mono [] f h = tt
All-mono (x ∷ xs) f h = (f x h.0, All-mono xs f h.1)

-- What `any` has found, or that there is nothing to find.
pub any-cases {ℓ} :
    {A : Type ℓ} (p : A → Bool) (xs : List A)
    → ((any p xs ≡ true) × (x : A) × (i : ℕ) × (get_elem? xs i ≡ some x) × (p x ≡ true))
      ⊎ ((any p xs ≡ false) × All (λ x. p x ≡ false) xs)
unfolding any
any-cases p [] = inr (refl, tt)
any-cases p (x ∷ xs) = elim (Bool-cases (p x)) [
  | inl yes_ ↦ inl (rw yes_ refl, x, 0, refl, yes_)
  | inr no_ ↦ elim (any-cases p xs) [
    | inl (found, y, i, at, is) ↦ inl (rw no_ found, y, suc i, at, is)
    | inr (none_, rest) ↦ inr (rw no_ none_, (no_, rest))
  ]
]

pub keep-append {ℓ} :
    {A : Type ℓ} (p : A → Bool) (xs ys : List A) → keep p (xs ++ ys) ≡ keep p xs ++ keep p ys
keep-append p [] ys = refl
keep-append p (x ∷ xs) ys = elim (Bool-cases (p x)) [
  | inl yes_ ↦ rw yes_ (ap (λ l. x ∷ l) (keep-append p xs ys))
  | inr no_ ↦ rw no_ (keep-append p xs ys)
]

pub any-keep {ℓ} :
    {A : Type ℓ} (p q : A → Bool) (xs : List A) → any q (keep p xs) ≡ any (λ x. p x && q x) xs
unfolding any
any-keep p q [] = refl
any-keep p q (x ∷ xs) = elim (Bool-cases (p x)) [
  | inl yes_ ↦ rw yes_ (ap (λ b. if q x then true else b) (any-keep p q xs))
  | inr no_ ↦ rw no_ (any-keep p q xs)
]

-- An element stands somewhere in the list.
abbrev pub Mem {ℓ} : {A : Type ℓ} → A → List A → Type ℓ
Mem x xs = (i : ℕ) × (get_elem? xs i ≡ some x)

pub All-Mem {ℓ} : {A : Type ℓ} (xs : List A) → All (λ x. Mem x xs) xs
All-Mem [] = tt
All-Mem (x ∷ xs) = ((0, refl), All-mono xs (λ y (i, at). (suc i, at)) (All-Mem xs))

pub Mem-All {ℓ κ} : {A : Type ℓ} (P : A → Type κ) (xs : List A) {x : A} → Mem x xs → All P xs → P x
Mem-All P [] (i, at) h = cc
Mem-All P (y ∷ ys) (zero, at) h = subst P (some-injective _ _ at) h.0
Mem-All P (y ∷ ys) (suc i, at) h = Mem-All P ys (i, at) h.1

pub All-keep {ℓ κ} :
    {A : Type ℓ} (P : A → Type κ) (p : A → Bool) (xs : List A)
    → All P xs
    → All (λ x. (p x ≡ true) × P x) (keep p xs)
All-keep P p [] h = tt
All-keep P p (x ∷ xs) h = elim (Bool-cases (p x)) [
  | inl yes_ ↦ rw yes_ ((yes_, h.0), All-keep P p xs h.1)
  | inr no_ ↦ rw no_ (All-keep P p xs h.1)
]

pub keep-Mem {ℓ} :
    {A : Type ℓ} (p : A → Bool) (xs : List A) {x : A} → Mem x xs → p x ≡ true → Mem x (keep p xs)
keep-Mem p [] (i, at) yes_ = cc
keep-Mem p (y ∷ ys) {x} (zero, at) yes_ =
    let there : p y ≡ true = ap p (some-injective _ _ at) ∙ yes_ in rw there (0, at)
keep-Mem p (y ∷ ys) (suc i, at) yes_ = elim (Bool-cases (p y)) [
  | inl stays ↦ let (j, there) = keep-Mem p ys (i, at) yes_ in rw stays (suc j, there)
  | inr goes ↦ rw goes (keep-Mem p ys (i, at) yes_)
]

-- An element in the middle of a list has what all have.
pub middle-All {ℓ κ} :
    {A : Type ℓ} (P : A → Type κ) (xs : List A) (a : A) (ys : List A) → All P (xs ++ a ∷ ys) → P a
middle-All P [] a ys h = h.0
middle-All P (x ∷ xs) a ys h = middle-All P xs a ys h.1

-- What holds of the images of all elements, and the other way round.
pub All-map {ℓ κ μ} :
    {A : Type ℓ} {B : Type κ} (f : A → B) (P : B → Type μ) (xs : List A)
    → All P (map f xs)
    → All (λ x. P (f x)) xs
All-map f P [] h = tt
All-map f P (x ∷ xs) h = (h.0, All-map f P xs h.1)

pub map-All {ℓ κ μ} :
    {A : Type ℓ} {B : Type κ} (f : A → B) (P : B → Type μ) (xs : List A)
    → All (λ x. P (f x)) xs
    → All P (map f xs)
map-All f P [] h = tt
map-All f P (x ∷ xs) h = (h.0, map-All f P xs h.1)

unfoldable pub sum : List ℕ → ℕ
sum [] = 0
sum (n ∷ ns) = n + sum ns

-- `min(n, *ms)`
unfoldable pub min_all : ℕ → List ℕ → ℕ
min_all n [] = n
min_all n (m ∷ ms) = min_all (min n m) ms

-- A bound is below the minimum exactly when it is below every part.
pub le-min_all : (n hw : ℕ) (ms : List ℕ) → (n ≤ min_all hw ms) ↔ ((n ≤ hw) × All (λ m. n ≤ m) ms)
unfolding min_all
le-min_all n hw [] = ((λ h. (h, tt)), (λ h. h.0))
le-min_all n hw (m ∷ ms) = (
  (λ h.
      let (low, rest) = (le-min_all n (min hw m) ms).0 h in
      (omega (arith, low), (omega (arith, low), rest))),
  (λ h. (le-min_all n (min hw m) ms).1 (omega (arith, h), h.1.1)),
)
