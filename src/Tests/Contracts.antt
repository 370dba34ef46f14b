-- ===== src/Tests/Contracts.antt =====
-- The parsers of src/contracts.ts.
use bit_relay.Prelude.{◌≡◌, refl, false, [], ◌∷◌, none, some}
use bit_relay.Map
use bit_relay.Json.{prop, Number, Json, num, str, arr, obj, nil, cons, end, field}
use bit_relay.Contracts.{
  RelayEvent, incoming_ref, ok, relay_admin, not_given, parse_auth_context, parse_relay_event,
  read_field, role_of, event_type_of,
}
use bit_relay.Contracts.WellFormed.{
  IsEvent, wire, parse_relay_event-wire, parse_relay_event-IsEvent,
}
use bit_relay.Contracts.Errors.{error_of, expected_error, parse_relay_event-error}

abbrev event : RelayEvent
event =
    incoming_ref
      (record {
        event_id = "e1";
        occurred_at = Number.finite false 7 0;
        room = "main";
        source = "relay";
      })
      "refs/relay/incoming/main" "bit"

abbrev no_event : Json
no_event = obj (field "type" (str "incoming_ref") (field "event_id" (str "") end))

parse_relay_event-wire_example : parse_relay_event (wire event) ≡ ok event
parse_relay_event-wire_example = parse_relay_event-wire event ((refl, tt, refl, refl), refl, refl)

parse_relay_event-IsEvent_example : IsEvent event
parse_relay_event-IsEvent_example =
    parse_relay_event-IsEvent (wire event) event
      (parse_relay_event-wire event ((refl, tt, refl, refl), refl, refl))

parse_relay_event-error_example : error_of (parse_relay_event no_event) ≡ expected_error no_event
parse_relay_event-error_example = parse_relay_event-error no_event

first_bad : expected_error no_event ≡ some "invalid event_id"
unfolding Map.get prop event_type_of
first_bad = refl

-- A principal that is a number is read as null.
abbrev auth_input : Json
auth_input = obj (
    field "role" (str "relay_admin") (
      field "principal_id" (num (Number.finite false 42 0))
        (field "scopes" (arr (cons (str "read") nil)) end)))

numeric_principal :
    parse_auth_context auth_input
    ≡ ok (record {
      role = relay_admin;
      principal_id = none;
      scopes = "read" ∷ [];
      github_installation_id = not_given;
    })
unfolding parse_auth_context read_field role_of Map.has Map.get prop
numeric_principal = refl
