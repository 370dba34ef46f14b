-- ===== src/IssueCache.antt =====
-- src/relay_cache_adapter.ts: the envelopes, issue events, snapshots and cursors that the relay puts
-- into its cache, and the page of cached issues. The store is an interface, each of whose operations
-- may throw; the body of an object is the value that `JSON.parse` gives of it. The clock is an argument.
pub mod Writes
pub mod Reads
pub mod Cursors
pub mod Policy
pub mod Pull
use Prim.Native.String
use bit_relay.Prelude.{
  ℕ, ◌+◌, ◌-◌, max, zero, suc, Bool, true, false, not, ◌&&◌, ◌||◌, List, [], ◌∷◌, Option, none,
  some, String, str_eq, if◌then◌else◌, ltb, length,
}
use bit_relay.Map
use bit_relay.Map.{Map}
use bit_relay.Text.{trim, is_empty, parse_int}
use bit_relay.Json.{Json, Fields, end, field, prop, as_record, string_or_empty}
use bit_relay.Http.{Platform}
use bit_relay.Room.{Envelope, is_valid_room_name}
use bit_relay.CacheStore.{CacheStoreKind, object, issue}
use bit_relay.Signing.{canonicalize_json}
use bit_relay.IssueSync.Snapshot.{json_nat, finite_at_zero}
use bit_relay.Relay.Snapshot.{json_of_envelope}
use bit_relay.Relay.StoredRooms.{count_or_zero}
use bit_relay.IssueProjection.{
  IssueCacheEventRecord, IssueCacheSnapshotRecord, IssueCacheCursorRecord, is_issue_topic,
  parse_cached_issue_envelope, issue_event_storage_key, issue_snapshot_storage_key,
  issue_cursor_storage_key, extract_issue_id_from_envelope, derive_issue_action,
}
use bit_relay.IssueProjection.Records.{
  parse_issue_cache_snapshot_record, parse_issue_cache_cursor_record,
  parse_issue_source_updated_at_ms, json_of_event, json_of_snapshot, json_of_cursor,
}

-- IssueSourceOfTruth
pub data SourceOfTruth : Type 0 where
  last_write github bit : SourceOfTruth

-- What a get gives: an exception, `null`, or an object by its parsed body.
pub data Lookup : Type 0 where
  failed missing : Lookup
  found : Option Json → Lookup

pub record PutRequest : Type 0 where
  pub kind : CacheStoreKind
  pub key : String
  pub value : Json
  pub room : String
  pub ref : String
  pub content_hash : List ℕ
  pub updated_at : ℕ

pub record ListPage : Type 0 where
  pub keys : List String
  pub cursor : Option String

-- CacheStore. A put and a list may throw: `false` and `none`.
pub record Cache (S : Type 0) : Type 0 where
  pub get : S → CacheStoreKind → String → S × Lookup
  pub put : S → PutRequest → S × Bool
  pub list_issues : S → (room : String) → (limit cursor : ℕ) → S × Option ListPage

pub record AdapterOptions : Type 0 where
  pub issue_source_of_truth : SourceOfTruth
  pub max_retries : ℕ

-- The source of an issue, `none` where it names neither.
unfoldable pub parse_issue_source : Platform → Json → Option SourceOfTruth
unfolding prop trim
parse_issue_source p payload = elim (as_record payload) [
  | none ↦ none
  | some fs ↦
      let source = p.to_lower_case (trim (string_or_empty (prop "source" fs))) in
      if str_eq source "github" then some github else if str_eq source "bit" then some bit else none
]

unfoldable pub is_older_by_timestamp : (incoming existing : Option ℕ) → Bool
is_older_by_timestamp (some incoming) (some existing) = ltb incoming existing
is_older_by_timestamp _ _ = false

-- `source === preferred`
abbrev pub is_source : SourceOfTruth → Option SourceOfTruth → Bool
is_source github (some github) = true
is_source bit (some bit) = true
is_source _ _ = false

abbrev pub preferred_wins : SourceOfTruth → (incoming existing : Option SourceOfTruth) → Bool
preferred_wins preferred incoming existing =
    if is_source preferred existing && not (is_source preferred incoming)
    then false
    else if not (is_source preferred existing) && is_source preferred incoming
    then true
    else true

abbrev pub by_policy : SourceOfTruth → (incoming existing : Option SourceOfTruth) → Bool
by_policy last_write incoming existing = true
by_policy github incoming existing = preferred_wins github incoming existing
by_policy bit incoming existing = preferred_wins bit incoming existing

unfoldable pub should_update_snapshot_by_source_policy :
    SourceOfTruth
    → (incoming existing : Option SourceOfTruth) → (incoming_ms existing_ms : Option ℕ) → Bool
unfolding is_older_by_timestamp
should_update_snapshot_by_source_policy policy incoming existing incoming_ms existing_ms =
    if is_older_by_timestamp incoming_ms existing_ms
    then false
    else by_policy policy incoming existing

abbrev pub or_zero : Option ℕ → ℕ
or_zero none = 0
or_zero (some n) = n

pub record Adapter (S : Type 0) : Type 0 where
  pub issue_cursor_by_room : Map ℕ
  pub store : S

-- A step of the adapter that may throw, `none`; what it did before stays.
abbrev pub Persist : Type 0 → Type 0 → Type 0
Persist S A = Adapter S → Adapter S × Option A

infixl 5 ◌>>=◌ ◌>>◌
abbrev pub continue :
    {S A B : Type 0} → (A → Persist S B) → Adapter S → Option A → Adapter S × Option B
continue k s none = (s, none)
continue k s (some a) = k a s

unfoldable pub ◌>>=◌ : {S A B : Type 0} → Persist S A → (A → Persist S B) → Persist S B
◌>>=◌ m k s = let (s', outcome) = m s in continue k s' outcome

abbrev pub ◌>>◌ : {S B : Type 0} → Persist S (Unit {0}) → Persist S B → Persist S B
m >> k = m >>= λ _. k

unfoldable pub pure : {S A : Type 0} → A → Persist S A
pure a s = (s, some a)

-- The cursor of a room in memory.
unfoldable pub cursor_in_memory : {S : Type 0} → String → Adapter S → ℕ
unfolding Map.get
cursor_in_memory room s = or_zero (Map.get room s.issue_cursor_by_room)

-- The cursor that a cached object holds for a room.
unfoldable pub cursor_of_lookup : String → Lookup → ℕ
unfolding parse_issue_cache_cursor_record
cursor_of_lookup room (found body) = elim (parse_issue_cache_cursor_record body) [
  | none ↦ 0
  | some r ↦ if str_eq r.room room then r.cursor else 0
]
cursor_of_lookup room _ = 0
