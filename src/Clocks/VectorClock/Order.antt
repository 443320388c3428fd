-- ===== src/Clocks/VectorClock/Order.antt =====
-- A comparison is the order of the counts, node by node, and each event comes after what it has seen.
use event_stream_broker.Prelude.{
  ◌+◌, ◌≤◌, ◌<◌, ◌≡◌, refl, ap, ◌∙◌, inl, inr, Bool, false, ◌||◌, List, [], ◌∷◌, ◌++◌, String,
  string_eq, ◌==◌, ==_iff, ==_self, arith, ltb, ltb→lt, Bool-cases, any, any-cases, All,
}
use event_stream_broker.Prelude.Sets.{mem-All, mem}
use event_stream_broker.Dict.{keys, put}
use event_stream_broker.Clocks.Vector.{
  Vector, Sound, count, count-put, count-absent, merge_into, count-merge,
}
use event_stream_broker.Clocks.VectorClock.{
  Comparison, before, after, equal, concurrent, VectorClock, ticked, tick, merge, flags, judged,
  compare,
}

below : Vector → Vector → String → Bool
below a b n = ltb (count n a) (count n b)

flags-any :
    (a b : Vector) (ns : List String) (l g : Bool)
    → flags a b ns l g ≡ (l || any (below a b) ns, g || any (below b a) ns)
unfolding flags any below
flags-any a b [] l g = ground arith
flags-any a b (n ∷ ns) l g = flags-any a b ns (l || below a b n) (g || below b a n) ∙ ground arith

mem-right :
    (j : String) (xs ys : List String)
    → mem j (xs ++ ys) ≡ false
    → (mem j xs ≡ false) × (mem j ys ≡ false)
unfolding mem
mem-right j [] ys h = (refl, h)
mem-right j (x ∷ xs) ys h = elim (Bool-cases (x == j)) [
  | inl same ↦ absurd (cc (rw same at h))
  | inr other ↦ let (l, r) = mem-right j xs ys (rw other at h) in (rw other l, r)
]

no_less :
    (p q : Vector) (ns : List String)
    → All (λ n. below p q n ≡ false) ns
    → ((j : String) → mem j ns ≡ false → (count j p ≡ 0) × (count j q ≡ 0))
    → (j : String) → count j q ≤ count j p
unfolding below
no_less p q ns h unmet j = elim (Bool-cases (mem j ns)) [
  | inl there ↦
      let at = mem-All (λ n. ltb (count n p) (count n q) ≡ false) j ns there h in ground (arith, at)
  | inr absent ↦ let (l, r) = unmet j absent in omega (arith, l, r)
]

-- A node that neither has met counts as zero in both.
unmet_zero :
    (a b : Vector) (j : String)
    → mem j (keys a ++ keys b) ≡ false
    → (count j a ≡ 0) × (count j b ≡ 0)
unmet_zero a b j absent =
    let (l, r) = mem-right j (keys a) (keys b) absent in (count-absent j a l, count-absent j b r)

-- What each answer says of the counts.
abbrev pub Compared : Vector → Vector → Comparison → Type 0
Compared a b before =
    ((j : String) → count j a ≤ count j b) × (j : String) × (count j a < count j b)
Compared a b after = ((j : String) → count j b ≤ count j a) × (j : String) × (count j b < count j a)
Compared a b equal = (j : String) → count j a ≡ count j b
Compared a b concurrent =
    ((j : String) × (count j a < count j b)) × (j : String) × (count j b < count j a)

-- The answer is `before` or `after` exactly as every count of the one is at most that of the other and
-- one is below it, `equal` if all counts agree, and `concurrent` if each has a count above the other.
pub compare-Compared : (a b : Vector) → Compared a b (compare a b)
unfolding compare judged below
compare-Compared a b =
    let ns = keys a ++ keys b in
    let both = flags-any a b ns false false in
    elim (any-cases (below a b) ns) [
      | inl (l, n, i, at, is) ↦ elim (any-cases (below b a) ns) [
        | inl (g, m, k, at', is') ↦ rw (both, l, g) ((n, ltb→lt _ _ is), m, ltb→lt _ _ is')
        | inr (g, none_) ↦
            let least = no_less b a ns none_ (λ j k. let (x, y) = unmet_zero a b j k in (y, x)) in
            rw (both, l, g) (least, n, ltb→lt _ _ is)
      ]
      | inr (l, none_) ↦
          let most = no_less a b ns none_ (unmet_zero a b) in
          elim (any-cases (below b a) ns) [
            | inl (g, m, k, at', is') ↦ rw (both, l, g) (most, m, ltb→lt _ _ is')
            | inr (g, none') ↦
                let least =
                  no_less b a ns none' (λ j k. let (x, y) = unmet_zero a b j k in (y, x)) in
                rw (both, l, g) (λ j. omega (arith, least j, most j))
          ]
    ]

-- Where every count is at most and one is below, the answer can only be `before`.
earlier :
    (a b : Vector) (n : String)
    → ((j : String) → count j a ≤ count j b)
    → count n a < count n b
    → (c : Comparison) → Compared a b c
    → c ≡ before
earlier a b n low less before h = refl
earlier a b n low less after h = absurd (omega (arith, h.0 n, less))
earlier a b n low less equal h = absurd (omega (arith, h n, less))
earlier a b n low less concurrent h = absurd (omega (arith, h.2, low h.1))

below-ticked :
    (node : String) (a d : Vector)
    → ((j : String) → count j a ≤ count j d)
    → compare a (ticked node d) ≡ before
unfolding ticked
below-ticked node a d low =
    let here_ : count node (put node (count node d + 1) d) ≡ count node d + 1 =
      count-put node node (count node d + 1) d ∙ rw (==_self node) refl in
    earlier a (ticked node d) node (λ j. omega (arith, later j, low j))
      (omega (arith, here_, low node)) (compare a (ticked node d))
      (compare-Compared a (ticked node d))
  where
    later : (j : String) → count j d ≤ count j (put node (count node d + 1) d)
    later j = elim (Bool-cases (node == j)) [
      | inl same ↦
          let key : node ≡ j = (==_iff node j).0 same in
          let now : count j (put node (count node d + 1) d) ≡ count node d + 1 =
            count-put node j (count node d + 1) d ∙ rw same refl in
          omega (arith, now, ap (λ k. count k d) key)
      | inr other ↦
          let now : count j (put node (count node d + 1) d) ≡ count j d =
            count-put node j (count node d + 1) d ∙ rw other refl in
          omega (arith, now)
    ]

-- A local event comes after all that the clock had seen; the receipt of a message comes after that and
-- after all that the message had seen.
pub merge-before :
    (c : VectorClock) (other : Vector)
    → Sound other
    → (compare c.vector (tick c).0 ≡ before)
      × (compare c.vector (merge other c).0 ≡ before)
      × (compare other (merge other c).0 ≡ before)
unfolding tick merge
merge-before c other sound =
    let each = λ (j : String). count-merge j other c.vector sound in
    let whole = merge_into other c.vector in
    (
      below-ticked c.node_id c.vector c.vector (λ j. omega arith),
      below-ticked c.node_id c.vector whole (λ j. omega (arith, each j)),
      below-ticked c.node_id other whole (λ j. omega (arith, each j)),
    )
