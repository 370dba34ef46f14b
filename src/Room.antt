-- ===== src/Room.antt =====
-- A room of the relay: its message log, inbox acknowledgements, sockets, presence and reviews
-- (RoomState and the functions on it, src/memory_handler.ts).
-- The text of a request body is given by what `JSON.parse` makes of it, `none` where it throws.
pub mod Log
pub mod Publish
pub mod Poll
pub mod Inbox
use bit_relay.Prelude.{
  ℕ, ◌+◌, ◌-◌, Bool, true, false, not, ◌&&◌, ◌||◌, List, [], ◌∷◌, ◌++◌, map, Option, none, some,
  String, str_eq, if◌then◌else◌, ltb, length, take, drop, slice, any, keep,
}
use bit_relay.Map
use bit_relay.Map.{Map, or_empty}
use bit_relay.Text.{trim, is_empty, is_lower, is_digit, is_mark, is_alnum, matches_name}
use bit_relay.Json.{
  Json, null, bool, num, str, arr, obj, Items, items, Fields, prop, as_record, trimmed_string,
}

-- TOPIC_PATTERN, /^[a-z][a-z0-9._-]{0,63}$/
unfoldable pub is_valid_topic : String → Bool
unfolding matches_name
is_valid_topic = matches_name is_lower (λ c. is_lower c || is_digit c || is_mark c) 63

-- ROOM_NAME_PATTERN, /^[A-Za-z0-9][A-Za-z0-9._-]{0,63}$/
unfoldable pub is_valid_room_name : String → Bool
unfolding matches_name
is_valid_room_name = matches_name is_alnum (λ c. is_alnum c || is_mark c) 63

pub record Envelope : Type 0 where
  pub room : String
  pub id : String
  pub sender : String
  pub topic : String
  pub payload : Json
  pub signature : Option String

pub data ReviewVerdict : Type 0 where
  approve deny : ReviewVerdict

pub record ReviewRecord : Type 0 where
  pub sender : String
  pub verdict : ReviewVerdict
  pub submitted_at : ℕ
  pub updated_at : ℕ

pub record PresenceRecord : Type 0 where
  pub participant_id : String
  pub status : String
  pub metadata : Json
  pub last_heartbeat : ℕ

-- A socket under its identity: whether it is open, and WsSessionMeta.
pub record WsSession : Type 0 where
  pub is_open : Bool
  pub last_active : ℕ

pub record RoomState : Type 0 where
  pub messages : List Envelope
  pub acks_by_consumer : Map (List String)
  pub sessions : Map WsSession
  pub presence_by_participant : Map PresenceRecord
  pub reviews_by_pr : Map (Map ReviewRecord)

abbrev pub create_room_state : RoomState
create_room_state = record {
  messages = [];
  acks_by_consumer = [];
  sessions = [];
  presence_by_participant = [];
  reviews_by_pr = [];
}

-- The JSON body of a publish: an error, or whether the message is new and the log's length.
pub data PublishBody : Type 0 where
  invalid_topic : String → PublishBody
  published : (accepted : Bool) (cursor : ℕ) → PublishBody

pub record PublishResult : Type 0 where
  pub status : ℕ
  pub body : PublishBody
  pub changed : Bool
  pub envelope : Option Envelope

abbrev pub has_id : String → List Envelope → Bool
has_id id = any (λ item. str_eq item.id id)

-- `messages.splice(0, messages.length - most)` where the log is longer than `most`.
unfoldable pub trim_log {ℓ} : {A : Type ℓ} → ℕ → List A → List A
trim_log most xs = if ltb most (length xs) then drop (length xs - most) xs else xs

abbrev pub new_envelope : (room sender topic id signature : String) → Json → Envelope
new_envelope room sender topic id signature payload = record {
  room = room;
  id = id;
  sender = sender;
  topic = topic;
  payload = payload;
  signature = if is_empty (trim signature) then none else some (trim signature);
}

unfoldable pub publish_into_room :
    RoomState → (room sender topic id signature : String) → Json → ℕ → RoomState × PublishResult
publish_into_room r room sender topic id signature payload most =
    if not (is_valid_topic topic)
    then (r, record { status = 400; body = invalid_topic topic; changed = false; envelope = none })
    else if has_id id r.messages
    then (
      r,
      record {
        status = 200;
        body = published false (length r.messages);
        changed = false;
        envelope = none;
      },
    )
    else let envelope = new_envelope room sender topic id signature payload in
      let kept = trim_log most (r.messages ++ envelope ∷ []) in
      (
        record r { messages = kept },
        record {
          status = 200;
          body = published true (length kept);
          changed = true;
          envelope = some envelope;
        },
      )

-- An envelope without its signature.
pub record SanitizedEnvelope : Type 0 where
  pub room : String
  pub id : String
  pub sender : String
  pub topic : String
  pub payload : Json

abbrev pub sanitize_envelope : Envelope → SanitizedEnvelope
sanitize_envelope e = record {
  room = e.room;
  id = e.id;
  sender = e.sender;
  topic = e.topic;
  payload = e.payload;
}

pub record PollBody : Type 0 where
  pub next_cursor : ℕ
  pub envelopes : List SanitizedEnvelope

unfoldable pub poll_from_room : RoomState → (after limit : ℕ) → PollBody
poll_from_room r after limit =
    let page = map sanitize_envelope (slice after (after + limit) r.messages) in
    record { next_cursor = after + length page; envelopes = page }

unfoldable pub find_envelope_by_id : List Envelope → String → Option Envelope
find_envelope_by_id [] id = none
find_envelope_by_id (item ∷ rest) id =
    if str_eq item.id id then some item else find_envelope_by_id rest id

-- `Set.prototype.has` and `Array.prototype.includes`.
abbrev pub includes : List String → String → Bool
includes xs x = any (λ y. str_eq y x) xs

-- `acksByConsumer.get(consumer) ?? new Set()`
abbrev pub acked_by : RoomState → String → List String
acked_by r consumer = or_empty (Map.get consumer r.acks_by_consumer)

abbrev pub pending_of : RoomState → String → List Envelope
pending_of r consumer = keep (λ item. not (includes (acked_by r consumer) item.id)) r.messages

pub record PendingBody : Type 0 where
  pub pending_count : ℕ
  pub returned_count : ℕ
  pub envelopes : List SanitizedEnvelope

unfoldable pub inbox_pending_from_room : RoomState → String → ℕ → PendingBody
inbox_pending_from_room r consumer limit =
    let pending = pending_of r consumer in
    let page = map sanitize_envelope (take limit pending) in
    record { pending_count = length pending; returned_count = length page; envelopes = page }

pub data AckIds : Type 0 where
  ok : List String → AckIds
  error : String → AckIds

-- The loop over `parsed.ids`.
unfoldable pub collect_ids : List String → List Json → List String
collect_ids ids [] = ids
collect_ids ids (item ∷ rest) =
    collect_ids
      (elim (trimmed_string (some item)) [
        | none ↦ ids
        | some trimmed ↦ if includes ids trimmed then ids else ids ++ trimmed ∷ []
      ])
      rest

abbrev pub array_items : Option Json → List Json
array_items (some (arr many)) = items many
array_items _ = []

abbrev pub single_id : Option Json → List String
single_id single = elim (trimmed_string single) [ none ↦ [] | some id ↦ id ∷ [] ]

abbrev pub ids_or_error : List String → AckIds
ids_or_error [] = error "missing field: ids"
ids_or_error (id ∷ ids) = ok (id ∷ ids)

abbrev pub ids_of_fields : Option Fields → AckIds
ids_of_fields none = error "invalid json payload"
ids_of_fields (some fs) =
    ids_or_error (collect_ids (single_id (prop "id" fs)) (array_items (prop "ids" fs)))

unfoldable pub parse_ack_ids : Option Json → AckIds
unfolding collect_ids trimmed_string prop
parse_ack_ids none = error "invalid json payload"
parse_ack_ids (some parsed) = ids_of_fields (as_record parsed)

pub data AckBody : Type 0 where
  acked : (newly_acked acked_total requested_count : ℕ) → AckBody
  ack_error : String → AckBody

-- The loop that adds to the consumer's set, with the count of new ids.
unfoldable pub add_acks : List String → List String → ℕ → List String × ℕ
add_acks set [] newly = (set, newly)
add_acks set (id ∷ ids) newly =
    let here = includes set id in
    add_acks (if here then set else set ++ id ∷ []) ids (if here then newly else newly + 1)

abbrev pub ack_ids : RoomState → String → AckIds → RoomState × (ℕ × AckBody)
ack_ids r consumer (error message) = (r, (400, ack_error message))
ack_ids r consumer (ok ids) =
    let (set, newly) = add_acks (acked_by r consumer) ids 0 in
    (
      record r { acks_by_consumer = Map.set consumer set r.acks_by_consumer },
      (200, acked newly (length set) (length ids)),
    )

-- The room after the call, the status and the body.
unfoldable pub ack_into_room : RoomState → String → Option Json → RoomState × (ℕ × AckBody)
unfolding add_acks parse_ack_ids
ack_into_room r consumer request = ack_ids r consumer (parse_ack_ids request)
