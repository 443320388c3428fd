-- ===== src/Access/Schemas.antt =====
-- relay/schemas.py: which change of a topic's schema is accepted.
pub mod Reads
pub mod Tightening
use event_stream_broker.Prelude.{
  ℕ, Bool, true, false, not, ◌&&◌, ◌||◌, Option, none, some, List, [], ◌∷◌, ◌++◌, map, String,
  string_eq, ◌==◌, if◌then◌else◌, get_last?, keep,
}
use event_stream_broker.Prelude.Sets.{mem}
use event_stream_broker.Failure.{Result, ok, err, invalid}
use event_stream_broker.Failure.Method.{Method}
use event_stream_broker.Dict.{Dict, get, put}

pub data Mode : Type 0 where
  backward forward full none_ : Mode

pub record Field : Type 0 where
  pub name : String
  pub required : Bool

pub record Schema : Type 0 where
  pub version : ℕ
  pub fields : List Field

-- The sets of names are lists: the code asks for membership and whether a difference is empty.
unfoldable pub field_names : Schema → List String
field_names s = map (λ f. f.name) s.fields

unfoldable pub required_names : Schema → List String
required_names s = map (λ f. f.name) (keep (λ f. f.required) s.fields)

-- What breaks a change, with the fields that the message names.
pub data Problem : Type 0 where
  removed added : List String → Problem

-- `xs - ys`
unfoldable pub minus : List String → List String → List String
unfolding mem
minus xs ys = keep (λ x. not (mem x ys)) xs

unfoldable pub backward_ok : Schema → Schema → Option Problem
unfolding minus field_names required_names
backward_ok old new = elim (minus (required_names old) (field_names new)) [
  | (x ∷ xs) ↦ some (removed (x ∷ xs))
  | [] ↦ elim (minus (required_names new) (field_names old)) [
    | (x ∷ xs) ↦ some (added (x ∷ xs))
    | [] ↦ none
  ]
]

unfoldable pub forward_ok : Schema → Schema → Option Problem
unfolding backward_ok
forward_ok old new = backward_ok new old

pub record SchemaRegistry : Type 0 where
  pub modes : Dict String Mode
  pub schemas : Dict String (List Schema)

-- MODES
unfoldable pub mode_of : String → Option Mode
mode_of mode =
    if mode == "backward"
    then some backward
    else if mode == "forward"
    then some forward
    else if mode == "full"
    then some full
    else if mode == "none"
    then some none_
    else none

unfoldable pub set_mode : String → String → Method SchemaRegistry (Unit {0})
unfolding mode_of
set_mode topic mode r = elim (mode_of mode) [
  | none ↦ (err invalid, r)
  | some m ↦ (ok tt, record r { modes = put topic m r.modes })
]

abbrev pub or_backward : Option Mode → Mode
or_backward none = backward
or_backward (some m) = m

abbrev pub asks_backward : Mode → Bool
asks_backward backward = true
asks_backward full = true
asks_backward forward = false
asks_backward none_ = false

abbrev pub asks_forward : Mode → Bool
asks_forward forward = true
asks_forward full = true
asks_forward backward = false
asks_forward none_ = false

-- The checks against the latest schema.
unfoldable pub problem_of : Mode → Schema → Schema → Option Problem
unfolding backward_ok forward_ok
problem_of mode latest schema =
    let problem = if asks_backward mode then backward_ok latest schema else none in
    elim problem [
      | some p ↦ some p
      | none ↦ if asks_forward mode then forward_ok latest schema else none
    ]

unfoldable pub verdict : Mode → List Schema → Schema → Option Problem
unfolding problem_of
verdict mode history schema = elim (get_last? history) [
  | none ↦ none
  | some latest ↦ problem_of mode latest schema
]

abbrev pub history_of : String → SchemaRegistry → List Schema
history_of topic r = elim (get topic r.schemas) [ none ↦ [] | some history ↦ history ]

-- `setdefault` leaves an empty history under a new topic; the schema then goes at its end.
unfoldable pub register : String → Schema → Method SchemaRegistry (Unit {0})
unfolding verdict
register topic schema r =
    let mode = or_backward (get topic r.modes) in
    let history = history_of topic r in
    let r' = record r { schemas = put topic history r.schemas } in
    elim (verdict mode history schema) [
      | some p ↦ (err invalid, r')
      | none ↦ (ok tt, record r' { schemas = put topic (history ++ schema ∷ []) r'.schemas })
    ]
