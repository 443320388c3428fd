-- ===== src/Access/Schemas/Reads.antt =====
-- What an accepted change of schema means for those who read the records.
use event_stream_broker.Prelude.{
  ◌≡◌, refl, ◌⊎◌, inl, inr, true, none, some, List, [], ◌∷◌, ◌++◌, String, string_eq, Bool-cases,
  Option-cases, get_last?,
}
use event_stream_broker.Prelude.Sets.{mem, Within, Within-trans}
use event_stream_broker.Failure.{Result, ok, err, invalid}
use event_stream_broker.Dict.{get, put, get-put_self}
use event_stream_broker.Access.Schemas.{
  Mode, backward, forward, full, none_, Schema, Problem, SchemaRegistry, field_names,
  required_names, minus, backward_ok, forward_ok, problem_of, verdict, or_backward, asks_backward,
  asks_forward, history_of, register,
}

minus-nil : (xs ys : List String) → minus xs ys ≡ [] → Within xs ys
unfolding minus
minus-nil [] ys h = tt
minus-nil (x ∷ xs) ys h = elim (Bool-cases (mem x ys)) [
  | inl there ↦ (there, minus-nil xs ys (rw there at h))
  | inr gone ↦ absurd (cc (rw gone at h))
]

minus-Within : (xs ys : List String) → Within xs ys → minus xs ys ≡ []
unfolding minus
minus-Within [] ys h = refl
minus-Within (x ∷ xs) ys h = rw h.0 (minus-Within xs ys h.1)

List-cases :
    (xs : List String) → (xs ≡ []) ⊎ ((x : String) × (rest : List String) × (xs ≡ x ∷ rest))
List-cases [] = inl refl
List-cases (x ∷ xs) = inr (x, xs, refl)

backward_ok-none :
    (old new : Schema)
    → backward_ok old new ≡ none
    → Within (required_names old) (field_names new) × Within (required_names new) (field_names old)
unfolding backward_ok
backward_ok-none old new h = elim (List-cases (minus (required_names old) (field_names new))) [
  | inr (x, xs, e) ↦ absurd (cc (rw (e, backward_ok) at h))
  | inl e ↦ elim (List-cases (minus (required_names new) (field_names old))) [
    | inr (x, xs, f) ↦ absurd (cc (rw (e, f, backward_ok) at h))
    | inl f ↦ (minus-nil _ _ e, minus-nil _ _ f)
  ]
]

pub Within-backward_ok :
    (old new : Schema)
    → Within (required_names old) (field_names new)
    → Within (required_names new) (field_names old)
    → backward_ok old new ≡ none
unfolding backward_ok
Within-backward_ok old new h k = rw (minus-Within _ _ h, minus-Within _ _ k, backward_ok) refl

problem_of-none :
    (mode : Mode) (latest schema : Schema)
    → problem_of mode latest schema ≡ none
    → (asks_backward mode ≡ true → backward_ok latest schema ≡ none)
      × (asks_forward mode ≡ true → backward_ok schema latest ≡ none)
unfolding problem_of forward_ok
problem_of-none backward latest schema h = elim (Option-cases (backward_ok latest schema)) [
  | inl fine ↦ ((λ _. fine), (λ e. cc))
  | inr (p, bad) ↦ absurd (cc (rw (bad, problem_of) at h))
]
problem_of-none forward latest schema h = ((λ e. cc), (λ _. h))
problem_of-none full latest schema h = elim (Option-cases (backward_ok latest schema)) [
  | inl fine ↦ ((λ _. fine), (λ _. rw (fine, problem_of) at h))
  | inr (p, bad) ↦ absurd (cc (rw (bad, problem_of) at h))
]
problem_of-none none_ latest schema h = ((λ e. cc), (λ e. cc))

-- A reader with the schema gets every field that it requires, from a record with these fields.
abbrev pub Reads : Schema → List String → Type 0
Reads schema carried = Within (required_names schema) carried

-- A record that has every field of its schema, the optional ones too.
abbrev pub Complete : Schema → List String → Type 0
Complete schema carried = Within (field_names schema) carried

-- What a registration has done. An accepted schema reads what complies with the latest one, where the
-- mode asks for that, and the latest one reads what complies with it.
abbrev pub Registered :
    String → Schema → SchemaRegistry → Result (Unit {0}) × SchemaRegistry → Type 0
Registered topic schema r (ok _, r') =
    (history_of topic r' ≡ history_of topic r ++ schema ∷ [])
    × ((latest : Schema)
        → get_last? (history_of topic r) ≡ some latest
        → let mode = or_backward (get topic r.modes) in
          (asks_backward mode ≡ true
            → (carried : List String) → Complete latest carried
            → Reads schema carried)
          × (asks_forward mode ≡ true
              → (carried : List String) → Complete schema carried
              → Reads latest carried))
Registered topic schema r (err e, r') = history_of topic r' ≡ history_of topic r

verdict-none :
    (mode : Mode) (history : List Schema) (schema latest : Schema)
    → verdict mode history schema ≡ none
    → get_last? history ≡ some latest
    → problem_of mode latest schema ≡ none
unfolding verdict
verdict-none mode history schema latest h at = rw (at, verdict) at h

history_of-put :
    (topic : String) (history : List Schema) (r : SchemaRegistry)
    → history_of topic (record r { schemas = put topic history r.schemas }) ≡ history
history_of-put topic history r = rw (get-put_self topic history r.schemas, history_of) refl

pub register-accepts :
    (topic : String) (schema : Schema) (r : SchemaRegistry)
    → verdict (or_backward (get topic r.modes)) (history_of topic r) schema ≡ none
    → register topic schema r ≡ (
      ok tt,
      record r {
        schemas =
            put topic
              (history_of topic r ++ schema ∷ [])
              (put topic (history_of topic r) r.schemas);
      },
    )
unfolding register
register-accepts topic schema r e = rw (e, register) refl

register-refuses :
    (topic : String) (schema : Schema) (r : SchemaRegistry) {p : Problem}
    → verdict (or_backward (get topic r.modes)) (history_of topic r) schema ≡ some p
    → register topic schema r
      ≡ (err invalid, record r { schemas = put topic (history_of topic r) r.schemas })
unfolding register
register-refuses topic schema r e = rw (e, register) refl

-- A schema that is refused leaves the topic's history as it was. One that is accepted goes at its end.
-- Under backward or full compatibility a reader with it then gets all that it requires from every
-- record that has all the fields of the latest schema; under forward or full compatibility, readers
-- with the latest schema get all that they require from records that have all its fields.
pub register-Registered :
    (topic : String) (schema : Schema) (r : SchemaRegistry)
    → Registered topic schema r (register topic schema r)
register-Registered topic schema r =
    let mode = or_backward (get topic r.modes) in
    let history = history_of topic r in
    elim (Option-cases (verdict mode history schema)) [
      | inr (p, bad) ↦ rw (register-refuses topic schema r bad) (history_of-put topic history r)
      | inl fine ↦ rw (register-accepts topic schema r fine) (
        history_of-put topic (history ++ schema ∷ [])
            (record r { schemas = put topic history r.schemas }),
        λ latest at.
            let both =
              problem_of-none mode latest schema
                (verdict-none mode history schema latest fine at) in
            (
              (λ asked carried complete.
                  Within-trans _ (field_names latest) carried
                    (backward_ok-none latest schema (both.0 asked)).1 complete),
              (λ asked carried complete.
                  Within-trans _ (field_names schema) carried
                    (backward_ok-none schema latest (both.1 asked)).1 complete),
            ),
      )
    ]
