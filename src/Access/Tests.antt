-- ===== src/Access/Tests.antt =====
-- The theorems of the access rules and the schemas on concrete inputs, and runs of the code.
use event_stream_broker.Prelude.{◌≡◌, refl, true, false, [], ◌∷◌, string_eq}
use event_stream_broker.Failure.{ok, err, invalid}
use event_stream_broker.Prelude.Sets.{mem}
use event_stream_broker.Dict.{get}
use event_stream_broker.Log.Records.{Text}
use event_stream_broker.Access.Authorizer.{Authorizer, star, matches, allowed, grant, deny}
use event_stream_broker.Access.Authorizer.Decisions.{
  grants, run, Decided, allowed-Decided, denial, denied_forever,
}
use event_stream_broker.Access.Schemas.{Field, Schema, SchemaRegistry, register, set_mode}
use event_stream_broker.Access.Schemas.Reads.{Reads, Registered, register-Registered}
use event_stream_broker.Access.Schemas.Tightening.{all_required, register-tightens}

-- The resources `pay`, `pay*` and `payroll`.
abbrev pay : Text
pay = 112 ∷ 97 ∷ 121 ∷ []

abbrev pay_star : Text
pay_star = 112 ∷ 97 ∷ 121 ∷ star ∷ []

abbrev payroll : Text
payroll = 112 ∷ 97 ∷ 121 ∷ 114 ∷ 111 ∷ 108 ∷ 108 ∷ []

abbrev team : Authorizer
team = record {
  rules = record { principal = "ann"; operation = "*"; resource = pay_star; allow = true } ∷ [];
  denials_logged = [];
}

allowed-Decided_example : Decided "ann" "read" payroll team (allowed "ann" "read" payroll team)
allowed-Decided_example = allowed-Decided "ann" "read" payroll team

allowed_runs :
    (allowed "ann" "read" payroll team ≡ (true, team))
    × ((allowed "bob" "read" payroll team).0 ≡ false)
    × ((grant "ann" "fly" pay team).0 ≡ err invalid)
unfolding allowed grant
allowed_runs = (refl, refl, refl)

deny_accepted : (deny "*" "read" pay_star team).0 ≡ ok tt
unfolding deny
deny_accepted = refl

deny_matches : matches "ann" "read" payroll (denial "*" "read" pay_star) ≡ true
unfolding matches
deny_matches = refl

denied_forever_example :
    (allowed "ann" "read" payroll
      (run (grants "ann" "read" payroll ∷ []) (deny "*" "read" pay_star team).1)).0
    ≡ false
denied_forever_example =
    denied_forever "*" "read" pay_star team (grants "ann" "read" payroll ∷ []) "ann" "read" payroll
      deny_accepted deny_matches

abbrev order_id : Field
order_id = record { name = "id"; required = true }

abbrev note : Field
note = record { name = "note"; required = false }

abbrev order : Schema
order = record { version = 1; fields = order_id ∷ note ∷ [] }

abbrev orders : SchemaRegistry
orders = record { modes = []; schemas = ("orders", order ∷ []) ∷ [] }

abbrev shorter : Schema
shorter = record { version = 2; fields = order_id ∷ [] }

register-Registered_example : Registered "orders" shorter orders (register "orders" shorter orders)
register-Registered_example = register-Registered "orders" shorter orders

register_runs :
    ((register "orders" shorter orders).0 ≡ ok tt)
    × ((register "orders" (record { version = 2; fields = note ∷ [] }) orders).0 ≡ err invalid)
unfolding register get
register_runs = (refl, refl)

register-tightens_example :
    ((register "orders" (all_required order) orders).0 ≡ ok tt)
    × ¬ Reads (all_required order) ("id" ∷ [])
unfolding get mem
register-tightens_example =
    register-tightens "orders" orders order ("id" ∷ []) note refl (1, refl) refl

set_mode_runs : (set_mode "orders" "sideways" orders).0 ≡ err invalid
unfolding set_mode
set_mode_runs = refl
