-- ===== src/IssueProjection/Records.antt =====
-- The records of the issue cache (src/issue_projection.ts): how they are read, and the JSON that
-- `JSON.stringify` makes of them (src/relay_cache_adapter.ts). Times are finite numbers.
use bit_relay.Prelude.{ℕ, zero, suc, Bool, true, false, Option, none, some, String, str_eq}
use bit_relay.Json.{
  Number, Json, null, num, str, obj, Fields, end, field, prop, as_record, string_or_empty,
}
use bit_relay.Http.{Platform}
use bit_relay.Room.{is_valid_room_name}
use bit_relay.CacheExchange.{as_non_negative_int}
use bit_relay.IssueSync.Snapshot.{json_nat}
use bit_relay.Relay.Snapshot.{nullable, json_of_envelope}
use bit_relay.IssueProjection.{
  IssueCacheEventRecord, IssueCacheSnapshotRecord, IssueCacheCursorRecord, ◌>>=◌, ◌>>◌, require,
  filled, parse_envelope_record, record_of,
}

-- `Math.trunc` of a finite number above 0.
abbrev pub positive_int : Option Json → Option ℕ
positive_int (some (num (Number.finite false (suc whole) fraction))) = some (suc whole)
positive_int _ = none

-- `null` and `undefined` stand for no time; any other value must be a number from 0 on.
abbrev pub source_time : Option Json → Option (Option ℕ)
source_time none = some none
source_time (some null) = some none
source_time (some (num n)) = as_non_negative_int (some (num n)) >>= λ time. some (some time)
source_time (some _) = none

-- `parsed.version === 1`
abbrev pub is_version_1 : Option Json → Bool
is_version_1 (some (num (Number.finite false (suc zero) zero))) = true
is_version_1 _ = false

-- The fields of a stored object of a kind.
unfoldable pub fields_of_kind : (kind : String) → (body : Option Json) → Option Fields
unfolding ◌>>=◌ prop record_of
fields_of_kind kind body = do
  fs ← record_of body
  require (str_eq (string_or_empty (prop "kind" fs)) kind)
  require (is_version_1 (prop "version" fs))
  some fs

unfoldable pub parse_issue_cache_event_record : (body : Option Json) → Option IssueCacheEventRecord
unfolding ◌>>=◌ prop fields_of_kind parse_envelope_record is_valid_room_name
parse_issue_cache_event_record body = do
  fs ← fields_of_kind "issue_event" body
  let room = string_or_empty (prop "room" fs)
  envelope ← parse_envelope_record (prop "envelope" fs)
  require (is_valid_room_name room)
  issue_id ← filled (prop "issue_id" fs)
  action ← filled (prop "action" fs)
  require (str_eq envelope.room room)
  cursor ← positive_int (prop "cursor" fs)
  source_updated_at_ms ← source_time (prop "source_updated_at_ms" fs)
  updated_at ← as_non_negative_int (prop "updated_at" fs)
  some (record {
    room = room;
    cursor = cursor;
    issue_id = issue_id;
    action = action;
    envelope = envelope;
    source_updated_at_ms = source_updated_at_ms;
    updated_at = updated_at;
  })

unfoldable pub parse_issue_cache_snapshot_record :
    (body : Option Json) → Option IssueCacheSnapshotRecord
unfolding ◌>>=◌ prop fields_of_kind parse_envelope_record is_valid_room_name
parse_issue_cache_snapshot_record body = do
  fs ← fields_of_kind "issue_snapshot" body
  let room = string_or_empty (prop "room" fs)
  envelope ← parse_envelope_record (prop "envelope" fs)
  require (is_valid_room_name room)
  issue_id ← filled (prop "issue_id" fs)
  require (str_eq envelope.room room)
  last_cursor ← positive_int (prop "last_cursor" fs)
  source_updated_at_ms ← source_time (prop "source_updated_at_ms" fs)
  updated_at ← as_non_negative_int (prop "updated_at" fs)
  some (record {
    room = room;
    issue_id = issue_id;
    last_cursor = last_cursor;
    envelope = envelope;
    source_updated_at_ms = source_updated_at_ms;
    updated_at = updated_at;
  })

unfoldable pub parse_issue_cache_cursor_record :
    (body : Option Json) → Option IssueCacheCursorRecord
unfolding ◌>>=◌ prop fields_of_kind is_valid_room_name
parse_issue_cache_cursor_record body = do
  fs ← fields_of_kind "issue_cursor" body
  let room = string_or_empty (prop "room" fs)
  require (is_valid_room_name room)
  cursor ← as_non_negative_int (prop "cursor" fs)
  updated_at ← as_non_negative_int (prop "updated_at" fs)
  some (record { room = room; cursor = cursor; updated_at = updated_at })

-- `payload.issue.updated_at` as a time; `Date.parse` is the platform's.
unfoldable pub parse_issue_date : Platform → Option Json → Option ℕ
unfolding ◌>>=◌ prop record_of filled
parse_issue_date p issue = do
  fs ← record_of issue
  raw ← filled (prop "updated_at" fs)
  as_non_negative_int (some (num (p.date_parse raw)))

abbrev or_parsed : Option ℕ → Option ℕ → Option ℕ
or_parsed none other = other
or_parsed (some n) other = some n

unfoldable pub parse_issue_source_updated_at_ms : Platform → Json → Option ℕ
unfolding ◌>>=◌ prop parse_issue_date
parse_issue_source_updated_at_ms p payload = do
  fs ← as_record payload
  or_parsed (as_non_negative_int (prop "source_updated_at_ms" fs))
      (parse_issue_date p (prop "issue" fs))

unfoldable pub json_of_event : IssueCacheEventRecord → Json
unfolding json_of_envelope
json_of_event r = obj (
    field "version" (json_nat 1) (
      field "kind" (str "issue_event") (
        field "room" (str r.room) (
          field "cursor" (json_nat r.cursor) (
            field "issue_id" (str r.issue_id) (
              field "action" (str r.action) (
                field "envelope" (json_of_envelope r.envelope) (
                  field "source_updated_at_ms" (nullable json_nat r.source_updated_at_ms)
                    (field "updated_at" (json_nat r.updated_at) end)))))))))

unfoldable pub json_of_snapshot : IssueCacheSnapshotRecord → Json
unfolding json_of_envelope
json_of_snapshot r = obj (
    field "version" (json_nat 1) (
      field "kind" (str "issue_snapshot") (
        field "room" (str r.room) (
          field "issue_id" (str r.issue_id) (
            field "last_cursor" (json_nat r.last_cursor) (
              field "envelope" (json_of_envelope r.envelope) (
                field "source_updated_at_ms" (nullable json_nat r.source_updated_at_ms)
                  (field "updated_at" (json_nat r.updated_at) end))))))))

unfoldable pub json_of_cursor : IssueCacheCursorRecord → Json
json_of_cursor r = obj (
    field "version" (json_nat 1) (
      field "kind" (str "issue_cursor") (
        field "room" (str r.room)
          (field "cursor" (json_nat r.cursor) (field "updated_at" (json_nat r.updated_at) end)))))
