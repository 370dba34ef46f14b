-- ===== src/Http.antt =====
-- Requests as the handlers of src/memory_handler.ts read them: headers, query parameters, tokens and
-- the payload of a publish. The platform's own functions are the fields of `Platform`.

use bit_relay.Prelude.{
  ◌⊎◌, ℕ, max, Bool, true, false, not, ◌&&◌, ◌||◌, List, [], ◌∷◌, Option, none, some, String,
  str_eq, if◌then◌else◌, ltb, ◌==◌, keep,
}
use bit_relay.Map
use bit_relay.Map.{Map}
use bit_relay.Text.{trim, is_empty, parse_int}
use bit_relay.Text.Edit.{strip_text, strip_any_case, starts_with_space, before}
use bit_relay.Json.{Number, Json, str, Fields, entries, prop, as_record}
use bit_relay.TimingSafe.{timing_safe_equal}
use bit_relay.Room.{is_valid_room_name}

-- What the code calls of its platform: JSON and dates, HMAC and Ed25519, the printing of numbers,
-- whether `send` on a socket throws, the socket of an upgraded request (by the fresh id of the
-- request) and whether it is open, and the Ed25519 keys that GitHub lists for a user.
pub record Platform : Type 0 where
  pub json_parse : String → Option Json
  pub utf8_length : String → ℕ
  pub to_number : String → Number
  pub to_lower_case : String → String
  pub hmac_sha256_hex : (secret message : String) → String
  pub date_parse : String → Number
  pub integer_text : ℕ → String
  pub number_text : Number → List ℕ
  pub verify_signature : String → List ℕ → String → Bool
  pub sha256_hex : List ℕ → List ℕ
  pub send_throws : String → Bool
  pub upgrade : String → Option (String × Bool)
  pub decode_base64url : String → Option (List ℕ)
  pub fetch_github_keys : String → List (List ℕ) ⊎ String

-- `headers.get` and `searchParams.get` return null where there is none.
pub record Request : Type 0 where
  pub method : String
  pub pathname : String
  pub header : String → Option String
  pub query : String → Option String
  pub body : String

abbrev pub or_default : Option String → String → String
or_default none fallback = fallback
or_default (some s) fallback = s

-- `(request.headers.get(name) ?? '').trim()` and the same of a query parameter.
unfoldable pub header_of : Request → String → String
unfolding trim
header_of q name = trim (or_default (q.header name) "")

unfoldable pub query_of : Request → String → String
unfolding trim
query_of q name = trim (or_default (q.query name) "")

abbrev forwarded_or_real : Request → String → String
forwarded_or_real q first = if is_empty first then header_of q "x-real-ip" else first

-- An empty `x-forwarded-for` has an empty first part.
unfoldable pub extract_client_ip : Request → String
unfolding trim header_of before
extract_client_ip q =
    if is_empty (header_of q "cf-connecting-ip")
    then forwarded_or_real q (trim (before b',' (header_of q "x-forwarded-for")))
    else header_of q "cf-connecting-ip"

-- `parseIntOr`: the sign and the magnitude.
unfoldable pub parse_int_or : Option String → ℕ → Bool × ℕ
unfolding parse_int
parse_int_or raw fallback = elim (parse_int (or_default raw "")) [
  | none ↦ (false, fallback)
  | some value ↦ value
]

abbrev at_least : ℕ → Bool × ℕ → ℕ
at_least least (true, magnitude) = least
at_least least (false, magnitude) = max least magnitude

unfoldable pub normalize_limit : Option String → ℕ → ℕ
unfolding parse_int_or
normalize_limit raw fallback = at_least 1 (parse_int_or raw fallback)

unfoldable pub normalize_after : Option String → ℕ → ℕ
unfolding parse_int_or
normalize_after raw fallback = at_least 0 (parse_int_or raw fallback)

abbrev pub default_room : String
default_room = "main"

unfoldable pub normalize_room : Option String → String
unfolding trim
normalize_room raw = trim (or_default raw default_room)

abbrev valid_or_default : String → String
valid_or_default room = if is_valid_room_name room then room else default_room

-- The name after `refs/relay/incoming/`, up to the next slash.
unfoldable pub derive_room_from_incoming_ref : String → String
unfolding trim strip_text before is_valid_room_name
derive_room_from_incoming_ref ref = elim (strip_text "refs/relay/incoming/" (trim ref)) [
  | none ↦ default_room
  | some suffix ↦
      if is_empty (trim suffix)
      then default_room
      else valid_or_default (trim (before b'/' (trim suffix)))
]

-- `Bearer <token>` or the whole header.
unfoldable pub extract_presented_token : Request → String
unfolding header_of strip_any_case trim
extract_presented_token q = elim (strip_any_case "bearer" (header_of q "authorization")) [
  | none ↦ header_of q "authorization"
  | some rest ↦ if starts_with_space rest then trim rest else header_of q "authorization"
]

abbrev starts_with : String → String → Bool
unfolding strip_text
starts_with prefix s = elim (strip_text prefix s) [ none ↦ false | some rest ↦ true ]

unfoldable pub should_require_auth : String → Bool
unfolding starts_with strip_text
should_require_auth pathname =
    not (str_eq pathname "/api/v1/github/webhook")
    && (str_eq pathname "/ws" || starts_with "/api/v1/" pathname)

-- The loop over the configured tokens, with the map so far.
unfoldable pub parse_room_tokens : Map String → List (String × String) → Map String
unfolding trim is_valid_room_name Map.set
parse_room_tokens out [] = out
parse_room_tokens out ((room, token) ∷ raw) =
    let kept = parse_room_tokens (Map.set (trim room) (trim token) out) raw in
    let passed = parse_room_tokens out raw in
    if not (is_valid_room_name (trim room))
    then passed
    else if is_empty (trim token)
    then passed
    else kept

unfoldable pub read_room_token : Request → String
unfolding query_of header_of
read_room_token q =
    if is_empty (query_of q "room_token")
    then header_of q "x-room-token"
    else query_of q "room_token"

-- A presented token is refused when it is empty or differs.
abbrev pub token_refused : String → String → Bool
token_refused provided expected = is_empty provided || not (timing_safe_equal provided expected)

-- `checkRoomToken`: whether the request is forbidden. An empty token in the map protects nothing.
unfoldable pub room_token_refused : Map String → Request → String → Bool
unfolding read_room_token Map.get timing_safe_equal
room_token_refused room_tokens q room = elim (Map.get room room_tokens) [
  | none ↦ false
  | some expected ↦ not (is_empty expected) && token_refused (read_room_token q) expected
]

-- The checks of a configured token against the one presented, `checkPeerAuth` and that of `fetch`.
unfoldable pub auth_refused : String → Request → Bool
unfolding extract_presented_token timing_safe_equal
auth_refused token q = not (is_empty token) && token_refused (extract_presented_token q) token

-- `typeof asObject.kind === 'string'`
abbrev is_text : Option Json → Bool
is_text (some (str s)) = true
is_text _ = false

abbrev only_payload : List String → Bool
only_payload (key ∷ []) = str_eq key "payload"
only_payload _ = false

abbrev unwrapped : Json → Fields → Option Json → Json
unfolding keep prop
unwrapped parsed fs none = parsed
unwrapped parsed fs (some payload) =
    if not (is_text (prop "kind" fs))
      || only_payload (keep (λ key. not (str_eq key "auth")) (Map.keys (entries fs)))
    then payload
    else parsed

-- The payload of an object that has one and no kind; any other body whole.
unfoldable pub normalize_publish_payload : Json → Json
unfolding prop keep
normalize_publish_payload parsed = elim (as_record parsed) [
  | none ↦ parsed
  | some fs ↦ unwrapped parsed fs (prop "payload" fs)
]

-- `Number.isFinite(value) && value > most`
abbrev pub exceeds : Number → ℕ → Bool
exceeds (Number.finite false whole fraction) most =
    ltb most whole || ((whole == most) && ltb 0 fraction)
exceeds _ most = false
