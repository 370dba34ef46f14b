-- ===== src/Relay/StoredRooms.antt =====
-- The readers of stored values that restore (src/memory_handler.ts) shares, and its reading of rooms.
-- Stored counts and times are finite and not below 0, as a snapshot writes them; where one is below 0
-- it is read as 0. `now` is the clock in epoch seconds.
use bit_relay.Prelude.{
  ℕ, ◌+◌, leb, not, ◌||◌, List, [], ◌∷◌, ◌++◌, Option, none, some, String, if◌then◌else◌,
}
use bit_relay.Map
use bit_relay.Map.{Map}
use bit_relay.Text.{trim, is_empty}
use bit_relay.Json.{
  Json, null, str, arr, obj, Items, items, Fields, entries, prop, as_record, string_or_empty,
}
use bit_relay.Room.{
  Envelope, PresenceRecord, ReviewRecord, ReviewVerdict, RoomState, is_valid_room_name, includes,
  trim_log, array_items,
}
use bit_relay.IssueSync.Snapshot.{finite_at_zero, or_else}
use bit_relay.Relay.{RelayOptions}
use bit_relay.Relay.Rooms.{is_valid_pr_id, verdict_of}

-- A loop that puts what it reads into a map and passes over the rest.
unfoldable pub put_all {ℓ κ} :
    {A : Type ℓ} {V : Type κ} → (A → Option (String × V)) → List A → Map V → Map V
unfolding Map.set
put_all f [] m = m
put_all f (a ∷ more) m = elim (f a) [
  | none ↦ put_all f more m
  | some (k, v) ↦ put_all f more (Map.set k v m)
]

-- A loop that pushes what it reads.
unfoldable pub read_all {ℓ κ} : {A : Type ℓ} {B : Type κ} → (A → Option B) → List A → List B
read_all f [] = []
read_all f (a ∷ more) = elim (f a) [ none ↦ read_all f more | some b ↦ b ∷ read_all f more ]

-- `typeof value === 'string' ? value : fallback`
abbrev pub string_or : Option Json → String → String
string_or (some (str s)) fallback = s
string_or _ fallback = fallback

abbrev pub string_or_none : Option Json → Option String
string_or_none (some (str s)) = some s
string_or_none _ = none

abbrev pub option_map {ℓ κ} : {A : Type ℓ} {B : Type κ} → (A → B) → Option A → Option B
option_map f none = none
option_map f (some a) = some (f a)

-- `isJsonValue(value) ? value : null`, where what was parsed is a JSON value.
abbrev pub json_or_null : Option Json → Json
json_or_null none = null
json_or_null (some v) = v

abbrev pub count_or_zero : Option Json → ℕ
count_or_zero v = or_else (finite_at_zero v) 0

abbrev pub read_fields {ℓ} : {B : Type ℓ} → Option Fields → (Fields → Option B) → Option B
read_fields none f = none
read_fields (some fs) f = f fs

abbrev pub record_entries : Option Json → Map Json
record_entries (some (obj fs)) = entries fs
record_entries _ = []

abbrev pub read_envelope : (room : String) → Fields → Envelope
unfolding prop
read_envelope room fs = record {
  room = string_or (prop "room" fs) room;
  id = string_or (prop "id" fs) "";
  sender = string_or (prop "sender" fs) "";
  topic = string_or (prop "topic" fs) "";
  payload = json_or_null (prop "payload" fs);
  signature = string_or_none (prop "signature" fs);
}

unfoldable pub restore_message : (room : String) → Json → Option Envelope
restore_message room value = read_fields (as_record value) (λ fs.
    let candidate = read_envelope room fs in
    if is_empty candidate.id || is_empty candidate.sender || is_empty candidate.topic
    then none
    else some candidate)

-- The set of the trimmed ids.
unfoldable pub restore_ids : List Json → List String → List String
unfolding trim
restore_ids [] ids = ids
restore_ids (value ∷ values) ids =
    let id = trim (string_or (some value) "") in
    restore_ids values (if is_empty id || includes ids id then ids else ids ++ id ∷ [])

unfoldable pub restore_acks : String × Json → Option (String × List String)
unfolding restore_ids
restore_acks (consumer, arr vs) = some (consumer, restore_ids (items vs) [])
restore_acks (consumer, _) = none

unfoldable pub restore_presence : (ttl now : ℕ) → Json → Option (String × PresenceRecord)
unfolding prop trim
restore_presence ttl now value = read_fields (as_record value) (λ fs.
    let id = trim (string_or_empty (prop "participant_id" fs)) in
    let last = count_or_zero (prop "last_heartbeat" fs) in
    if is_empty id || leb (last + ttl) now
    then none
    else some (
      id,
      record {
        participant_id = id;
        status = string_or (prop "status" fs) "online";
        metadata = json_or_null (prop "metadata" fs);
        last_heartbeat = last;
      },
    ))

unfoldable pub with_verdict :
    Option ReviewVerdict → String → String → Fields → Option (String × ReviewRecord)
unfolding prop
with_verdict none sender pr_id fs = none
with_verdict (some verdict) sender pr_id fs = some (
  pr_id,
  record {
    sender = sender;
    verdict = verdict;
    submitted_at = count_or_zero (prop "submitted_at" fs);
    updated_at = count_or_zero (prop "updated_at" fs);
  },
)

-- A review with its request.
unfoldable pub restore_review : Json → Option (String × ReviewRecord)
unfolding prop trim is_valid_pr_id with_verdict
restore_review value = read_fields (as_record value) (λ fs.
    let sender = trim (string_or_empty (prop "sender" fs)) in
    let pr_id = trim (string_or_empty (prop "pr_id" fs)) in
    if is_empty sender || is_empty pr_id || not (is_valid_pr_id pr_id)
    then none
    else with_verdict (verdict_of (string_or_empty (prop "verdict" fs))) sender pr_id fs)

abbrev pub or_new {ℓ} : {V : Type ℓ} → Option (Map V) → Map V
or_new none = []
or_new (some m) = m

unfoldable pub put_review : String → ReviewRecord → Map (Map ReviewRecord) → Map (Map ReviewRecord)
unfolding Map.get Map.set
put_review pr_id r m = Map.set pr_id (Map.set r.sender r (or_new (Map.get pr_id m))) m

unfoldable pub restore_reviews : List Json → Map (Map ReviewRecord) → Map (Map ReviewRecord)
unfolding restore_review put_review
restore_reviews [] m = m
restore_reviews (value ∷ values) m = elim (restore_review value) [
  | none ↦ restore_reviews values m
  | some (pr_id, r) ↦ restore_reviews values (put_review pr_id r m)
]

module _ (o : RelayOptions) (now : ℕ) where
  unfoldable pub restored_room : String → Fields → Items → Fields → RoomState
  unfolding put_all read_all prop restore_message restore_acks restore_presence restore_reviews
      trim_log
  restored_room room fs messages acks = record {
    messages = trim_log o.max_messages_per_room (read_all (restore_message room) (items messages));
    acks_by_consumer = put_all restore_acks (entries acks) [];
    sessions = [];
    presence_by_participant =
        put_all (restore_presence o.presence_ttl_sec now) (array_items (prop "presence" fs)) [];
    reviews_by_pr = restore_reviews (array_items (prop "reviews" fs)) [];
  }

  -- A room needs its messages and its acknowledgements.
  unfoldable pub room_of_parts :
      String → Fields → (messages acks : Option Json) → Option (String × RoomState)
  unfolding restored_room
  room_of_parts room fs (some (arr messages)) (some (obj acks)) =
      some (room, restored_room room fs messages acks)
  room_of_parts room fs _ _ = none

  unfoldable pub restore_room : String × Json → Option (String × RoomState)
  unfolding is_valid_room_name prop room_of_parts
  restore_room (room, value) =
      if not (is_valid_room_name room)
      then none
      else read_fields (as_record value)
          (λ fs. room_of_parts room fs (prop "messages" fs) (prop "acks_by_consumer" fs))
