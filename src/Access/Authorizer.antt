-- ===== src/Access/Authorizer.antt =====
-- relay/authz.py: rules that allow and rules that deny, and a log of what was denied.
pub mod Decisions
use event_stream_broker.Prelude.{
  ℕ, ◌-◌, Bool, true, false, not, ◌&&◌, ◌||◌, Option, none, some, List, [], ◌∷◌, ◌++◌, String,
  string_eq, bytes_eq, nat_beq, ◌==◌, if◌then◌else◌, get_last?, take, length, keep, any,
}
use event_stream_broker.Failure.{Result, ok, err, invalid}
use event_stream_broker.Failure.Method.{Method}
use event_stream_broker.Log.Records.{Text}

-- Resources are looked at letter by letter; principals and operations are only compared.
pub record Rule : Type 0 where
  pub principal : String
  pub operation : String
  pub resource : Text
  pub allow : Bool

-- A line of the log is the request that was denied.
pub record Authorizer : Type 0 where
  pub rules : List Rule
  pub denials_logged : List (String × String × Text)

-- `*`
abbrev pub star : ℕ
star = 42

unfoldable pub ends_with_star : Text → Bool
ends_with_star resource = elim (get_last? resource) [ none ↦ false | some c ↦ nat_beq c star ]

-- `resource.startswith(prefix)`
unfoldable pub starts_with : Text → Text → Bool
starts_with [] s = true
starts_with (c ∷ cs) [] = false
starts_with (c ∷ cs) (d ∷ s) = let rest = starts_with cs s in if nat_beq c d then rest else false

unfoldable pub resource_match : Text → Text → Bool
unfolding ends_with_star starts_with
resource_match pattern_ resource =
    if ends_with_star pattern_
    then starts_with (take (length pattern_ - 1) pattern_) resource
    else pattern_ == resource

-- `pattern in (value, "*")`
abbrev pub name_match : String → String → Bool
name_match pattern_ value = (pattern_ == value) || (pattern_ == "*")

unfoldable pub matches : String → String → Text → Rule → Bool
unfolding resource_match
matches principal operation resource rule =
    name_match rule.principal principal
    && name_match rule.operation operation
    && resource_match rule.resource resource

unfoldable pub is_operation : String → Bool
is_operation operation =
    (operation == "read")
    || (operation == "write")
    || (operation == "create")
    || (operation == "delete")
    || (operation == "describe")
    || (operation == "*")

unfoldable pub add : String → String → Text → Bool → Method Authorizer (Unit {0})
unfolding is_operation
add principal operation resource allow a =
    let rule : Rule = record {
      principal = principal;
      operation = operation;
      resource = resource;
      allow = allow;
    } in
    if is_operation operation
    then (ok tt, record a { rules = a.rules ++ rule ∷ [] })
    else (err invalid, a)

unfoldable pub grant : String → String → Text → Method Authorizer (Unit {0})
unfolding add
grant principal operation resource = add principal operation resource true

unfoldable pub deny : String → String → Text → Method Authorizer (Unit {0})
unfolding add
deny principal operation resource = add principal operation resource false

unfoldable pub log_denial : String → String → Text → Authorizer → Authorizer
log_denial principal operation resource a = record a {
  denials_logged = a.denials_logged ++ (principal, operation, resource) ∷ [];
}

unfoldable pub allowed : String → String → Text → Authorizer → Bool × Authorizer
unfolding matches log_denial any
allowed principal operation resource a =
    let matching = keep (matches principal operation resource) a.rules in
    if any (λ r. not r.allow) matching
    then (false, log_denial principal operation resource a)
    else if any (λ r. r.allow) matching
    then (true, a)
    else (false, log_denial principal operation resource a)

unfoldable pub authorize : String → String → Text → Method Authorizer (Unit {0})
unfolding allowed
authorize principal operation resource a =
    let (yes_, a') = allowed principal operation resource a in
    if yes_ then (ok tt, a') else (err invalid, a')
