-- ===== src/Clocks/Vector.antt =====
-- What relay/gcounter.py and relay/vectorclock.py share: a count for each node, merged by the greater.
use event_stream_broker.Prelude.{
  ℕ, ◌≤◌, ◌≡◌, refl, sym, ap, ◌∙◌, ◌↔◌, inl, inr, false, Option, none, some, List, [], ◌∷◌, String,
  string_eq, ◌==◌, ==_iff, arith, if◌then◌else◌, Bool-cases, max, All, All-mono, Mem, Mem-All,
}
use event_stream_broker.Prelude.Sets.{mem, Distinct}
use event_stream_broker.Dict.{Dict, keys, get, put, get-put}

abbrev pub Vector : Type 0
Vector = Dict String ℕ

abbrev pub or_zero : Option ℕ → ℕ
or_zero none = 0
or_zero (some n) = n

-- `d.get(node, 0)`
unfoldable pub count : String → Vector → ℕ
count node d = or_zero (get node d)

-- The loop of a merge.
unfoldable pub merge_into : Vector → Vector → Vector
unfolding count
merge_into [] d = d
merge_into ((node, n) ∷ other) d = merge_into other (put node (max (count node d) n) d)

pub count-put :
    (node j : String) (n : ℕ) (d : Vector)
    → count j (put node n d) ≡ (if node == j then n else count j d)
unfolding count
count-put node j n d = elim (Bool-cases (node == j)) [
  | inl same ↦ ap or_zero (get-put node j n d) ∙ rw same refl
  | inr other ↦ ap or_zero (get-put node j n d) ∙ rw other refl
]

pub count-absent : (j : String) (d : Vector) → mem j (keys d) ≡ false → count j d ≡ 0
unfolding count get mem
count-absent j [] h = refl
count-absent j ((node, n) ∷ d) h = elim (Bool-cases (node == j)) [
  | inl same ↦ absurd (cc (rw same at h))
  | inr other ↦ rw other (count-absent j d (rw other at h))
]

count-cons :
    (node j : String) (n : ℕ) (d : Vector)
    → count j ((node, n) ∷ d) ≡ (if node == j then n else count j d)
unfolding count get
count-cons node j n d = elim (Bool-cases (node == j)) [
  | inl same ↦ rw same refl
  | inr other ↦ rw other refl
]

-- A merge takes the greater count of each node.
pub count-merge :
    (j : String) (other d : Vector)
    → Distinct (keys other)
    → count j (merge_into other d) ≡ max (count j d) (count j other)
unfolding merge_into mem
count-merge j [] d h = let none_ : count j [] ≡ 0 = count-absent j [] refl in omega (arith, none_)
count-merge j ((node, n) ∷ other) d h =
    let rest = count-merge j other (put node (max (count node d) n) d) h.1 in
    let now = count-put node j (max (count node d) n) d in
    let there = count-cons node j n other in
    elim (Bool-cases (node == j)) [
      | inl same ↦
          let key : node ≡ j = (==_iff node j).0 same in
          let mine : count node d ≡ count j d = ap (λ k. count k d) key in
          let gone : count j other ≡ 0 =
            count-absent j other (ap (λ k. mem k (keys other)) (sym key) ∙ h.0) in
          let now' : count j (put node (max (count node d) n) d) ≡ max (count node d) n =
            rw same at now in
          let there' : count j ((node, n) ∷ other) ≡ n = rw same at there in
          omega (arith, rest, now', there', mine, gone)
      | inr apart ↦
          let now' : count j (put node (max (count node d) n) d) ≡ count j d = rw apart at now in
          let there' : count j ((node, n) ∷ other) ≡ count j other = rw apart at there in
          omega (arith, rest, now', there')
    ]

-- Received one after another.
unfoldable pub merge_all : List Vector → Vector → Vector
unfolding merge_into
merge_all [] d = d
merge_all (other ∷ others) d = merge_all others (merge_into other d)

abbrev pub Sound : Vector → Type 0
Sound d = Distinct (keys d)

-- A bound on a node's count after the updates is one on it before and in each of them.
merge_all-le :
    (j : String) (b : ℕ) (others : List Vector) (d : Vector)
    → All Sound others
    → (count j (merge_all others d) ≤ b) ↔ ((count j d ≤ b) × All (λ o. count j o ≤ b) others)
unfolding merge_all
merge_all-le j b [] d h = ((λ k. (k, tt)), (λ k. k.0))
merge_all-le j b (other ∷ others) d h =
    let one = count-merge j other d h.0 in
    let (there, back) = merge_all-le j b others (merge_into other d) h.1 in
    (
      (λ k.
          let (low, rest) = there k in (omega (arith, one, low), (omega (arith, one, low), rest))),
      (λ k. back (omega (arith, one, k.0, k.1.0), k.1.1)),
    )

merge_all-below :
    (j : String) (others others' : List Vector) (d : Vector)
    → All Sound others
    → All Sound others'
    → All (λ o. Mem o others') others
    → count j (merge_all others d) ≤ count j (merge_all others' d)
merge_all-below j others others' d h h' within =
    let b = count j (merge_all others' d) in
    let (low, each) = (merge_all-le j b others' d h').0 (omega arith) in
    (merge_all-le j b others d h).1
      (low, All-mono others (λ o at. Mem-All (λ u. count j u ≤ b) others' at each) within)

-- Two replicas that begin alike and received the same updates agree on every node's count, in whatever
-- order the updates came and however often each was delivered.
pub merge_all-converges :
    (others others' : List Vector) (d : Vector) (j : String)
    → All Sound others
    → All Sound others'
    → All (λ o. Mem o others') others
    → All (λ o. Mem o others) others'
    → count j (merge_all others d) ≡ count j (merge_all others' d)
merge_all-converges others others' d j h h' within within' = omega (
  arith,
  merge_all-below j others others' d h h' within,
  merge_all-below j others' others d h' h within',
)
