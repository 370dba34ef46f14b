-- ===== src/Contracts.antt =====
-- src/contracts.ts: the events and the auth context that the relay's parts exchange, and their
-- parsers.
pub mod Errors
pub mod WellFormed
use bit_relay.Prelude.{
  Bool, true, false, not, ◌&&◌, List, [], ◌∷◌, Option, none, some, String, str_eq, if◌then◌else◌,
  all, map,
}
use bit_relay.Map
use bit_relay.Text.{is_empty}
use bit_relay.Json.{
  Number, Json, null, num, str, arr, items, Fields, entries, prop, as_record, string_or_empty,
}

pub data AuthRole : Type 0 where
  anonymous relay_admin github_app : AuthRole

pub data IssueProvider : Type 0 where
  bit github : IssueProvider

pub data IssueSyncAction : Type 0 where
  upsert close : IssueSyncAction

-- `githubInstallationId` is `undefined` or null or a number.
pub data Installation : Type 0 where
  not_given : Installation
  given : Option Number → Installation

pub record AuthContext : Type 0 where
  pub role : AuthRole
  pub principal_id : Option String
  pub scopes : List String
  pub github_installation_id : Installation

pub record RelayEventBase : Type 0 where
  pub event_id : String
  pub occurred_at : Number
  pub room : String
  pub source : String

pub data RelayEvent : Type 0 where
  incoming_ref : RelayEventBase → (ref target : String) → RelayEvent
  issue_synced : RelayEventBase → IssueProvider → IssueSyncAction → (issue_id : String) → RelayEvent
  cache_replicated :
      RelayEventBase → (cache_key from_node to_node : String) → (bytes : Number) → RelayEvent

pub data ParseResult {ℓ} (A : Type ℓ) : Type ℓ where
  ok : A → ParseResult A
  error : String → ParseResult A

infixl 5 ◌>>=◌
abbrev pub ◌>>=◌ {ℓ κ} :
    {A : Type ℓ} {B : Type κ} → ParseResult A → (A → ParseResult B) → ParseResult B
ok a >>= k = k a
error message >>= k = error message

-- `if (!value) return { ok: false, error }`
abbrev pub or_error {ℓ} : {A : Type ℓ} → Option A → String → ParseResult A
or_error none message = error message
or_error (some a) message = ok a

-- asString: a text that is not empty.
abbrev pub as_string : Option Json → Option String
as_string (some (str s)) = if is_empty s then none else some s
as_string _ = none

abbrev pub as_finite_number : Option Json → Option Number
as_finite_number (some (num (Number.finite negative whole fraction))) =
    some (Number.finite negative whole fraction)
as_finite_number _ = none

-- asNullableString: `none` for `undefined`, `some none` for null.
abbrev pub as_nullable_string : Option Json → Option (Option String)
as_nullable_string none = none
as_nullable_string (some null) = some none
as_nullable_string value = some (as_string value)

unfoldable pub read_field : Fields → (snake camel : String) → Option Json
unfolding Map.has prop
read_field fs snake camel = if Map.has snake (entries fs) then prop snake fs else prop camel fs

-- AUTH_ROLES, ISSUE_PROVIDERS and ISSUE_SYNC_ACTIONS, with the value that a text names.
unfoldable pub role_of : String → Option AuthRole
role_of s =
    if str_eq s "anonymous"
    then some anonymous
    else if str_eq s "relay_admin"
    then some relay_admin
    else if str_eq s "github_app"
    then some github_app
    else none

unfoldable pub provider_of : String → Option IssueProvider
provider_of s = if str_eq s "bit" then some bit else if str_eq s "github" then some github else none

unfoldable pub action_of : String → Option IssueSyncAction
action_of s =
    if str_eq s "upsert" then some upsert else if str_eq s "close" then some close else none

-- EVENT_TYPES
pub data EventType : Type 0 where
  incoming_ref_type issue_synced_type cache_replicated_type : EventType

unfoldable pub event_type_of : String → Option EventType
event_type_of s =
    if str_eq s "incoming_ref"
    then some incoming_ref_type
    else if str_eq s "issue_synced"
    then some issue_synced_type
    else if str_eq s "cache_replicated"
    then some cache_replicated_type
    else none

-- `!raw || !SET.has(raw)`
abbrev pub named {ℓ} : {A : Type ℓ} → (String → Option A) → Option Json → Option A
named member value = elim (as_string value) [ none ↦ none | some raw ↦ member raw ]

unfoldable pub parse_base_event : Fields → ParseResult RelayEventBase
unfolding prop
parse_base_event fs = do
  event_id ← or_error (as_string (prop "event_id" fs)) "invalid event_id"
  occurred_at ← or_error (as_finite_number (prop "occurred_at" fs)) "invalid occurred_at"
  room ← or_error (as_string (prop "room" fs)) "invalid room"
  source ← or_error (as_string (prop "source" fs)) "invalid source"
  ok (record { event_id = event_id; occurred_at = occurred_at; room = room; source = source })

unfoldable pub parse_incoming_ref : Fields → RelayEventBase → ParseResult RelayEvent
unfolding prop
parse_incoming_ref fs base = do
  ref ← or_error (as_string (prop "ref" fs)) "invalid ref"
  target ← or_error (as_string (prop "target" fs)) "invalid target"
  ok (incoming_ref base ref target)

unfoldable pub parse_issue_synced : Fields → RelayEventBase → ParseResult RelayEvent
unfolding prop provider_of action_of
parse_issue_synced fs base = do
  provider ← or_error (named provider_of (prop "provider" fs)) "invalid provider"
  action ← or_error (named action_of (prop "action" fs)) "invalid action"
  issue_id ← or_error (as_string (prop "issue_id" fs)) "invalid issue_id"
  ok (issue_synced base provider action issue_id)

unfoldable pub parse_cache_replicated : Fields → RelayEventBase → ParseResult RelayEvent
unfolding prop
parse_cache_replicated fs base = do
  cache_key ← or_error (as_string (prop "cache_key" fs)) "invalid cache_key"
  from_node ← or_error (as_string (prop "from_node" fs)) "invalid from_node"
  to_node ← or_error (as_string (prop "to_node" fs)) "invalid to_node"
  bytes ← or_error (as_finite_number (prop "bytes" fs)) "invalid bytes"
  ok (cache_replicated base cache_key from_node to_node bytes)

abbrev pub parse_typed : EventType → Fields → RelayEventBase → ParseResult RelayEvent
parse_typed incoming_ref_type = parse_incoming_ref
parse_typed issue_synced_type = parse_issue_synced
parse_typed cache_replicated_type = parse_cache_replicated

unfoldable pub parse_relay_event : Json → ParseResult RelayEvent
unfolding prop event_type_of parse_base_event
parse_relay_event input = do
  fs ← or_error (as_record input) "event must be object"
  type ← or_error (named event_type_of (prop "type" fs)) "invalid type"
  base ← parse_base_event fs
  parse_typed type fs base

-- `record.scopes.every((scope) => typeof scope === 'string')`
abbrev is_string : Json → Bool
is_string (str s) = true
is_string _ = false

abbrev pub as_scopes : Option Json → Option (List String)
as_scopes (some (arr vs)) =
    if all is_string (items vs) then some (map (λ v. string_or_empty (some v)) (items vs)) else none
as_scopes _ = none

abbrev pub as_installation : Option Json → Option Installation
as_installation none = some not_given
as_installation (some null) = some (given none)
as_installation value = elim (as_finite_number value) [
  | none ↦ none
  | some n ↦ some (given (some n))
]

unfoldable pub parse_auth_context : Json → ParseResult AuthContext
unfolding prop role_of read_field
parse_auth_context input = do
  fs ← or_error (as_record input) "auth context must be object"
  role ← or_error (named role_of (prop "role" fs)) "invalid role"
  principal_id ←
      or_error (as_nullable_string (read_field fs "principal_id" "principalId"))
        "missing principal_id"
  scopes ← or_error (as_scopes (prop "scopes" fs)) "invalid scopes"
  installation ←
      or_error (as_installation (read_field fs "github_installation_id" "githubInstallationId"))
        "invalid github_installation_id"
  ok (record {
    role = role;
    principal_id = principal_id;
    scopes = scopes;
    github_installation_id = installation;
  })
