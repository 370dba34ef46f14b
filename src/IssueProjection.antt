-- ===== src/IssueProjection.antt =====
-- src/issue_projection.ts: what the relay keeps of issues in its cache. The text of a cached object is
-- given by what `JSON.parse` makes of it, `none` where it throws.
pub mod Records
pub mod Stored
use Prim.Native.String
use bit_relay.Prelude.{
  ℕ, ◌-◌, zero, suc, ◌==◌, Bool, true, false, not, ◌||◌, Option, none, some, String, str_eq,
  if◌then◌else◌,
}
use bit_relay.Text.{trim, is_empty, utf16_length, parse_int}
use bit_relay.Text.Edit.{strip_text, before, contains}
use bit_relay.Json.{
  Number, Json, null, num, str, obj, Fields, end, field, prop, as_record, string_or_empty,
}
use bit_relay.Http.{Platform}
use bit_relay.Room.{Envelope, is_valid_room_name, is_valid_topic}
use bit_relay.CacheExchange.{as_non_negative_int}
use bit_relay.IssueSync.Snapshot.{json_nat}
use bit_relay.Relay.Snapshot.{nullable, json_of_envelope}
use bit_relay.Relay.StoredRooms.{string_or_none}

pub record IssueCacheEventRecord : Type 0 where
  pub room : String
  pub cursor : ℕ
  pub issue_id : String
  pub action : String
  pub envelope : Envelope
  pub source_updated_at_ms : Option ℕ
  pub updated_at : ℕ

pub record IssueCacheSnapshotRecord : Type 0 where
  pub room : String
  pub issue_id : String
  pub last_cursor : ℕ
  pub envelope : Envelope
  pub source_updated_at_ms : Option ℕ
  pub updated_at : ℕ

pub record IssueCacheCursorRecord : Type 0 where
  pub room : String
  pub cursor : ℕ
  pub updated_at : ℕ

infixl 5 ◌>>=◌ ◌>>◌
unfoldable pub ◌>>=◌ : {A B : Type 0} → Option A → (A → Option B) → Option B
none >>= k = none
some a >>= k = k a

abbrev pub ◌>>◌ : {B : Type 0} → Option (Unit {0}) → Option B → Option B
m >> k = m >>= λ _. k

-- `if (!test) return null;`
abbrev pub require : Bool → Option (Unit {0})
require true = some tt
require false = none

unfoldable pub parse_envelope_fields : Fields → Option Envelope
unfolding ◌>>=◌ prop trim is_valid_room_name is_valid_topic
parse_envelope_fields fs = do
  let room = string_or_empty (prop "room" fs)
  let id = string_or_empty (prop "id" fs)
  let sender = string_or_empty (prop "sender" fs)
  let topic = string_or_empty (prop "topic" fs)
  payload ← prop "payload" fs
  require (is_valid_room_name room)
  require (is_valid_topic topic)
  require (not (is_empty (trim id) || is_empty (trim sender)))
  some (record {
    room = room;
    id = id;
    sender = sender;
    topic = topic;
    payload = payload;
    signature = string_or_none (prop "signature" fs);
  })

unfoldable pub parse_envelope_record : Option Json → Option Envelope
unfolding ◌>>=◌ parse_envelope_fields
parse_envelope_record parsed = do value ← parsed; fs ← as_record value; parse_envelope_fields fs

unfoldable pub is_issue_topic : String → Bool
unfolding strip_text
is_issue_topic topic = str_eq topic "issue" || has_text (strip_text "issue." topic)
  where
    has_text : Option String → Bool
    has_text none = false
    has_text (some rest) = true

-- parseCachedIssueEnvelope
unfoldable pub parse_cached_issue_envelope : (body : Option Json) → Option Envelope
unfolding parse_envelope_record
parse_cached_issue_envelope body = parse_envelope_record body

-- `padStart(width, '0')`
abbrev pub zeros : ℕ → String
zeros zero = String.[]
zeros (suc n) = String.◌++◌ "0" (zeros n)

unfoldable pub issue_event_storage_key :
    Platform → (room : String) (cursor : ℕ) (envelope_id : String) → String
unfolding utf16_length
issue_event_storage_key p room cursor envelope_id =
    let digits = p.integer_text cursor in
    String.◌++◌ "issue/events/" (
      String.◌++◌ room (
        String.◌++◌ "/" (
          String.◌++◌ (zeros (12 - utf16_length digits))
            (String.◌++◌ digits (String.◌++◌ "-" envelope_id)))))

unfoldable pub issue_snapshot_storage_key : (room issue_id : String) → String
issue_snapshot_storage_key room issue_id =
    String.◌++◌ "issue/snapshots/" (String.◌++◌ room (String.◌++◌ "/" issue_id))

unfoldable pub issue_cursor_storage_key : (room : String) → String
issue_cursor_storage_key room = String.◌++◌ "issue/cursors/" room

abbrev positive : Option (Bool × ℕ) → Option ℕ
positive (some (false, suc n)) = some (suc n)
positive _ = none

unfoldable pub parse_issue_event_cursor_from_key : (room key : String) → Option ℕ
unfolding ◌>>=◌ strip_text contains before parse_int
parse_issue_event_cursor_from_key room key = do
  suffix ← strip_text (String.◌++◌ "issue/events/" (String.◌++◌ room "/")) key
  require (contains "-" suffix)
  require (not (is_empty (before b'-' suffix)))
  positive (parse_int (before b'-' suffix))

-- The trimmed text of a field, unless it is blank.
abbrev pub filled : Option Json → Option String
unfolding trim
filled v = let s = trim (string_or_empty v) in if is_empty s then none else some s

infixr 4 ◌<|>◌
abbrev ◌<|>◌ {ℓ} : {A : Type ℓ} → Option A → Option A → Option A
none <|> other = other
some a <|> other = some a

unfoldable pub record_of : Option Json → Option Fields
unfolding ◌>>=◌
record_of v = v >>= as_record

unfoldable pub parse_issue_payload_issue_id : Json → Option String
unfolding ◌>>=◌ prop filled record_of
parse_issue_payload_issue_id payload = do
  fs ← as_record payload
  filled (prop "issue_id" fs)
      <|> filled (prop "issueId" fs)
      <|> (record_of (prop "issue" fs) >>= λ issue. filled (prop "id" issue))
      <|> filled (prop "id" fs)

abbrev or_text : Option String → String → String
or_text none fallback = fallback
or_text (some s) fallback = s

unfoldable pub extract_issue_id_from_envelope : Envelope → String
unfolding parse_issue_payload_issue_id
extract_issue_id_from_envelope e = or_text (parse_issue_payload_issue_id e.payload) e.id

-- `s.length > 0 ? s : 'upsert'`, trimmed.
abbrev action_or_upsert : String → String
unfolding trim
action_or_upsert s = if is_empty (trim s) then "upsert" else trim s

-- The action of a payload's kind.
abbrev action_of_kind : Option String → (kind : String) → String
action_of_kind (some rest) kind = action_or_upsert rest
action_of_kind none kind = if is_empty kind then "upsert" else kind

abbrev kind_action : Option Fields → String
unfolding prop trim strip_text
kind_action none = "upsert"
kind_action (some fs) =
    let kind = trim (string_or_empty (prop "kind" fs)) in
    action_of_kind (strip_text "issue." kind) kind

abbrev topic_action : Option String → Json → String
unfolding kind_action action_or_upsert
topic_action (some rest) payload = action_or_upsert rest
topic_action none payload = kind_action (as_record payload)

unfoldable pub derive_issue_action : Envelope → String
unfolding strip_text topic_action
derive_issue_action e = topic_action (strip_text "issue." e.topic) e.payload
