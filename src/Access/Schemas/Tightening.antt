-- ===== src/Access/Schemas/Tightening.antt =====
-- Making optional fields required is accepted, although records without them have been written.
use event_stream_broker.Prelude.{
  ◌≡◌, refl, sym, ap, inl, inr, true, false, none, some, List, [], ◌∷◌, map, String, string_eq,
  ==_self, Bool-cases, get_last?, keep, subst, Mem, Mem-All, All-map,
}
use event_stream_broker.Prelude.Sets.{mem, Within, Within-self, Within-more}
use event_stream_broker.Failure.{ok}
use event_stream_broker.Dict.{get}
use event_stream_broker.Access.Schemas.{
  verdict, Mode, backward, forward, full, none_, Field, Schema, SchemaRegistry, field_names,
  required_names, backward_ok, forward_ok, problem_of, verdict, or_backward, history_of, register,
}
use event_stream_broker.Access.Schemas.Reads.{Within-backward_ok, register-accepts, Reads}

-- A schema with the same fields, all of them required.
abbrev pub all_required : Schema → Schema
all_required s = record s { fields = map (λ (f : Field). record f { required = true }) s.fields }

names : List Field → List String
names = map (λ f. f.name)

tight : List Field → List Field
tight = map (λ (f : Field). record f { required = true })

names-tight : (fs : List Field) → names (tight fs) ≡ names fs
unfolding names tight
names-tight [] = refl
names-tight (f ∷ fs) = ap (λ ns. f.name ∷ ns) (names-tight fs)

required-tight : (fs : List Field) → names (keep (λ f. f.required) (tight fs)) ≡ names fs
unfolding names tight
required-tight [] = refl
required-tight (f ∷ fs) = ap (λ ns. f.name ∷ ns) (required-tight fs)

required_Within : (fs : List Field) → Within (names (keep (λ f. f.required) fs)) (names fs)
unfolding names mem
required_Within [] = tt
required_Within (f ∷ fs) =
    let rest = Within-more f.name _ (names fs) (required_Within fs) in
    elim (Bool-cases f.required) [
      | inl yes_ ↦ rw yes_ (rw (==_self f.name) refl, rest)
      | inr no_ ↦ rw no_ rest
    ]

all_required-ok :
    (s : Schema) → (backward_ok s (all_required s) ≡ none) × (backward_ok (all_required s) s ≡ none)
unfolding field_names required_names names tight
all_required-ok s =
    let fs = s.fields in
    let mine = required_Within fs in
    let all = Within-self (names fs) in
    (
      Within-backward_ok s (all_required s)
          (subst (Within (names (keep (λ f. f.required) fs))) (sym (names-tight fs)) mine)
          (subst (λ ns. Within ns (names fs)) (sym (required-tight fs)) all),
      Within-backward_ok (all_required s) s
          (subst (λ ns. Within ns (names fs)) (sym (required-tight fs)) all)
          (subst (Within (names (keep (λ f. f.required) fs))) (sym (names-tight fs)) mine),
    )

problem_of-fine :
    (mode : Mode) (latest schema : Schema)
    → backward_ok latest schema ≡ none
    → backward_ok schema latest ≡ none
    → problem_of mode latest schema ≡ none
unfolding problem_of forward_ok
problem_of-fine backward latest schema h k = rw (h, problem_of) refl
problem_of-fine forward latest schema h k = k
problem_of-fine full latest schema h k = rw (h, problem_of) k
problem_of-fine none_ latest schema h k = refl

-- Under every compatibility mode, the latest schema with all of its fields made required is accepted.
-- A record that lacks one of the fields, as a record of the latest schema may lack an optional one,
-- is not read by it.
pub register-tightens :
    (topic : String) (r : SchemaRegistry) (latest : Schema) (carried : List String) (f : Field)
    → get_last? (history_of topic r) ≡ some latest
    → Mem f latest.fields
    → mem f.name carried ≡ false
    → ((register topic (all_required latest) r).0 ≡ ok tt) × ¬ Reads (all_required latest) carried
unfolding verdict required_names names tight
register-tightens topic r latest carried f at there lacks =
    let mode = or_backward (get topic r.modes) in
    let (h, k) = all_required-ok latest in
    let fine = problem_of-fine mode latest (all_required latest) h k in
    (
      rw (register-accepts topic (all_required latest) r (rw (at, verdict) fine)) refl,
      λ reads.
          let all = subst (λ ns. Within ns carried) (required-tight latest.fields) reads in
          let found =
            Mem-All (λ (g : Field). mem g.name carried ≡ true) latest.fields there
              (All-map (λ (g : Field). g.name) (λ n. mem n carried ≡ true) latest.fields all) in
          cc (found, lacks),
    )
