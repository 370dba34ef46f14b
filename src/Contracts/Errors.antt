-- ===== src/Contracts/Errors.antt =====
-- Which field the parsers of src/contracts.ts name when they refuse.
use bit_relay.Prelude.{
  ◌≡◌, refl, Bool, true, false, List, [], ◌∷◌, ◌++◌, Option, none, some, String, inl, inr,
  Option-cases, if◌then◌else◌, arith,
}
use Prim.Native.String
use bit_relay.Json.{null, num, str, arr, bool, Json, obj, Fields, prop}
use bit_relay.Contracts.{
  RelayEventBase, ParseResult, ok, error, RelayEvent, as_string, as_finite_number, named, EventType,
  event_type_of, provider_of, action_of, parse_base_event, parse_incoming_ref, parse_issue_synced,
  parse_cache_replicated, parse_typed, parse_relay_event, incoming_ref_type, issue_synced_type,
  cache_replicated_type, ◌>>=◌,
}

-- A field that an event must have: its name and what its value must pass.
abbrev Required : Type 0
Required = String × (Option Json → Bool)

abbrev is_some {ℓ} : {A : Type ℓ} → Option A → Bool
is_some none = false
is_some (some a) = true

abbrev text : String → Required
text name = (name, λ v. is_some (as_string v))

abbrev number : String → Required
number name = (name, λ v. is_some (as_finite_number v))

abbrev one_of {ℓ} : {A : Type ℓ} → String → (String → Option A) → Required
one_of name member = (name, λ v. is_some (named member v))

-- The fields of every event, in the order of their checks, and those of each type.
abbrev base_fields : List Required
base_fields = text "event_id" ∷ number "occurred_at" ∷ text "room" ∷ text "source" ∷ []

abbrev fields_of_type : EventType → List Required
fields_of_type incoming_ref_type = text "ref" ∷ text "target" ∷ []
fields_of_type issue_synced_type =
    one_of "provider" provider_of ∷ one_of "action" action_of ∷ text "issue_id" ∷ []
fields_of_type cache_replicated_type =
    text "cache_key" ∷ text "from_node" ∷ text "to_node" ∷ number "bytes" ∷ []

abbrev pub required : Fields → List Required
required fs =
    one_of "type" event_type_of ∷ base_fields
    ++ elim (named event_type_of (prop "type" fs)) [ none ↦ [] | some type ↦ fields_of_type type ]

-- `invalid` and the name of the first field that is missing or of a wrong type.
abbrev pub first_invalid : Fields → List Required → Option String
first_invalid fs [] = none
first_invalid fs ((name, is_good) ∷ rest) =
    if is_good (prop name fs) then first_invalid fs rest else some (String.◌++◌ "invalid " name)

abbrev pub error_of {ℓ} : {A : Type ℓ} → ParseResult A → Option String
error_of (ok a) = none
error_of (error message) = some message

parse_typed-error :
    (type : EventType) (fs : Fields) (base : RelayEventBase)
    → error_of (parse_typed type fs base) ≡ first_invalid fs (fields_of_type type)
unfolding parse_incoming_ref parse_issue_synced parse_cache_replicated
parse_typed-error incoming_ref_type fs base = ground arith
parse_typed-error issue_synced_type fs base = ground arith
parse_typed-error cache_replicated_type fs base = ground arith

parse_base-error :
    (fs : Fields) (k : RelayEventBase → ParseResult RelayEvent) (rest : List Required)
    → ((base : RelayEventBase) → error_of (k base) ≡ first_invalid fs rest)
    → error_of (parse_base_event fs >>= k) ≡ first_invalid fs (base_fields ++ rest)
unfolding parse_base_event
parse_base-error fs k rest h = grind (arith, h)

object-error :
    (fs : Fields) → error_of (parse_relay_event (obj fs)) ≡ first_invalid fs (required fs)
unfolding parse_relay_event
object-error fs = elim (Option-cases (named event_type_of (prop "type" fs))) [
  | inl e ↦ rw e
  | inr (type, e) ↦
      rw e (
        parse_base-error fs (parse_typed type fs) (fields_of_type type) (parse_typed-error type fs))
]

-- The error that an input deserves, if any.
abbrev pub expected_error : Json → Option String
expected_error (obj fs) = first_invalid fs (required fs)
expected_error _ = some "event must be object"

-- `parseRelayEvent` answers with an error exactly where the input is not a JSON object, or a field
-- that the event's type requires is missing or of a wrong type. For an object the error is
-- "invalid " with the name of the first such field: the type, then the fields of every event, then
-- those of the type.
pub parse_relay_event-error :
    (input : Json) → error_of (parse_relay_event input) ≡ expected_error input
unfolding parse_relay_event
parse_relay_event-error (obj fs) = object-error fs
parse_relay_event-error null = refl
parse_relay_event-error (bool b) = refl
parse_relay_event-error (num n) = refl
parse_relay_event-error (str s) = refl
parse_relay_event-error (arr vs) = refl
