-- ===== src/IssueProjection/Stored.antt =====
-- The records of the issue cache are read back as they were stored (src/issue_projection.ts).
use bit_relay.Prelude.{
  ℕ, zero, suc, ◌<◌, ◌≡◌, refl, true, false, Option, none, some, String, str_eq, arith, eq_refl,
}
use bit_relay.Map
use bit_relay.Text.{trim, is_empty}
use bit_relay.Json.{Json, prop}
use bit_relay.Room.{Envelope, is_valid_room_name, is_valid_topic}
use bit_relay.IssueSync.RoundTrip.{IsName}
use bit_relay.IssueSync.Snapshot.{json_nat}
use bit_relay.Relay.Snapshot.{nullable, json_of_envelope}
use bit_relay.Relay.Restore.Keys.{text-nullable}
use bit_relay.IssueProjection.{
  IssueCacheEventRecord, IssueCacheSnapshotRecord, IssueCacheCursorRecord, ◌>>=◌, filled, record_of,
  parse_envelope_fields, parse_envelope_record,
}
use bit_relay.IssueProjection.Records.{
  positive_int, source_time, fields_of_kind, parse_issue_cache_event_record,
  parse_issue_cache_snapshot_record, parse_issue_cache_cursor_record, json_of_event,
  json_of_snapshot, json_of_cursor,
}

-- An envelope that the cache takes.
pub record IsCachedEnvelope (e : Envelope) : Type 0 where
  pub room : is_valid_room_name e.room ≡ true
  pub topic : is_valid_topic e.topic ≡ true
  pub id : is_empty (trim e.id) ≡ false
  pub sender : is_empty (trim e.sender) ≡ false

pub record IsEvent (r : IssueCacheEventRecord) : Type 0 where
  pub room : r.envelope.room ≡ r.room
  pub cursor : 0 < r.cursor
  pub issue_id : IsName r.issue_id
  pub action : IsName r.action
  pub envelope : IsCachedEnvelope r.envelope

pub record IsSnapshot (r : IssueCacheSnapshotRecord) : Type 0 where
  pub room : r.envelope.room ≡ r.room
  pub last_cursor : 0 < r.last_cursor
  pub issue_id : IsName r.issue_id
  pub envelope : IsCachedEnvelope r.envelope

envelope-Reads :
    (e : Envelope) → IsCachedEnvelope e → parse_envelope_record (some (json_of_envelope e)) ≡ some e
unfolding parse_envelope_record parse_envelope_fields json_of_envelope prop Map.get ◌>>=◌
envelope-Reads e h = rw (h.room, h.topic, h.id, h.sender, ◌>>=◌, text-nullable e.signature) refl

filled-name : (s : String) → IsName s → filled (some (Json.str s)) ≡ some s
unfolding filled
filled-name s (trimmed, there) =
    let there' : is_empty (trim s) ≡ false = rw trimmed there in rw (there', trimmed) refl

positive-nat : (n : ℕ) → 0 < n → positive_int (some (json_nat n)) ≡ some n
positive-nat zero h = absurd (omega arith)
positive-nat (suc n) h = refl

source-nullable : (t : Option ℕ) → source_time (some (nullable json_nat t)) ≡ some t
unfolding ◌>>=◌
source-nullable none = refl
source-nullable (some n) = refl

-- The equal rooms of a record and its envelope.
same_room : (a b : String) → a ≡ b → str_eq a b ≡ true
same_room a b e = rw e (eq_refl b)

valid_room : (a b : String) → a ≡ b → is_valid_room_name a ≡ true → is_valid_room_name b ≡ true
valid_room a b e h = rw⁻¹ e h

-- An event that is well formed is read back from the JSON that is stored of it.
pub event-Reads :
    (r : IssueCacheEventRecord)
    → IsEvent r
    → parse_issue_cache_event_record (some (json_of_event r)) ≡ some r
unfolding parse_issue_cache_event_record fields_of_kind record_of json_of_event prop Map.get ◌>>=◌
event-Reads r h =
    let valid = valid_room r.envelope.room r.room h.room h.envelope.room in
    let same = same_room r.envelope.room r.room h.room in
    rw
      (
        envelope-Reads r.envelope h.envelope,
        ◌>>=◌,
        valid,
        filled-name r.issue_id h.issue_id,
        filled-name r.action h.action,
        same,
        positive-nat r.cursor h.cursor,
        source-nullable r.source_updated_at_ms,
      )
      refl

pub snapshot-Reads :
    (r : IssueCacheSnapshotRecord)
    → IsSnapshot r
    → parse_issue_cache_snapshot_record (some (json_of_snapshot r)) ≡ some r
unfolding parse_issue_cache_snapshot_record fields_of_kind record_of json_of_snapshot prop Map.get
    ◌>>=◌
snapshot-Reads r h =
    let valid = valid_room r.envelope.room r.room h.room h.envelope.room in
    let same = same_room r.envelope.room r.room h.room in
    rw
      (
        envelope-Reads r.envelope h.envelope,
        ◌>>=◌,
        valid,
        filled-name r.issue_id h.issue_id,
        same,
        positive-nat r.last_cursor h.last_cursor,
        source-nullable r.source_updated_at_ms,
      )
      refl

pub cursor-Reads :
    (r : IssueCacheCursorRecord)
    → is_valid_room_name r.room ≡ true
    → parse_issue_cache_cursor_record (some (json_of_cursor r)) ≡ some r
unfolding parse_issue_cache_cursor_record fields_of_kind record_of json_of_cursor prop Map.get ◌>>=◌
cursor-Reads r valid = rw (valid, ◌>>=◌) refl
