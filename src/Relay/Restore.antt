-- ===== src/Relay/Restore.antt =====
-- restore and restoreIdentity of the relay's service (src/memory_handler.ts), from any JSON value; the
-- rooms are read in Relay/StoredRooms.antt.
-- Stored counts and times are finite and not below 0, as a snapshot writes them; where one is below 0
-- it is read as 0. `now` is the clock in epoch seconds.
pub mod Loops
pub mod Rooms
pub mod Reviews
pub mod Keys
pub mod Records
pub mod RoundTrip
pub mod Same
pub mod Bounds
use bit_relay.Prelude.{
  ℕ, ◌+◌, max, ltb, leb, Bool, true, false, not, ◌||◌, List, [], ◌∷◌, ◌++◌, Option, none, some,
  String, str_eq, if◌then◌else◌, length, ◌==◌,
}
use bit_relay.Map
use bit_relay.Map.{Map}
use bit_relay.Text.{trim, is_empty}
use bit_relay.Json.{
  Json, null, str, arr, obj, Items, items, Fields, end, field, entries, prop, as_record,
  string_or_empty,
}
use bit_relay.Room.{
  Envelope, PresenceRecord, ReviewRecord, ReviewVerdict, RoomState, create_room_state,
  is_valid_room_name, is_valid_topic, includes, trim_log, array_items,
}
use bit_relay.Identity.{KeyStatus, active, revoked, KeyRecord, Identity}
use bit_relay.CacheExchange.{
  CacheExchangeRecord, Exchange, append_cache_exchange_record, record_cache_exchange,
}
use bit_relay.IssueSync.{Engine}
use bit_relay.IssueSync.Snapshot
use bit_relay.IssueSync.Snapshot.{finite_at_zero, or_else}
use bit_relay.Relay.{RelayOptions, Relay}
use bit_relay.Relay.Rooms.{is_valid_pr_id, verdict_of}
use bit_relay.Relay.StoredRooms.{
  put_all, read_all, string_or, string_or_none, option_map, json_or_null, count_or_zero,
  read_fields, record_entries, read_envelope, restore_message, restore_ids, restore_acks,
  restore_presence, with_verdict, restore_review, or_new, put_review, restore_reviews,
  restored_room, room_of_parts, restore_room,
}

abbrev pub status_of : String → KeyStatus
status_of s = if str_eq s "revoked" then revoked else active

unfoldable pub restore_key : String × Json → Option (String × KeyRecord)
unfolding prop trim
restore_key (sender, value) = read_fields (as_record value) (λ fs.
    let public_key = trim (string_or_empty (prop "public_key" fs)) in
    if is_empty (trim sender) || is_empty public_key
    then none
    else some (
      sender,
      record {
        public_key = public_key;
        status = status_of (string_or_empty (prop "status" fs));
        first_seen_at = count_or_zero (prop "first_seen_at" fs);
        last_seen_at = count_or_zero (prop "last_seen_at" fs);
        rotated_at = finite_at_zero (prop "rotated_at" fs);
        revoked_at = finite_at_zero (prop "revoked_at" fs);
        github_username = string_or_none (prop "github_username" fs);
        github_verified_at = finite_at_zero (prop "github_verified_at" fs);
      },
    ))

abbrev pub unless_expired : (ttl now : ℕ) → String → Option ℕ → Option (String × ℕ)
unfolding trim
unless_expired ttl now nonce none = none
unless_expired ttl now nonce (some ts) =
    if is_empty (trim nonce) || ltb (ts + ttl) now then none else some (nonce, ts)

unfoldable pub restore_nonce : (ttl now : ℕ) → String × Json → Option (String × ℕ)
unfolding unless_expired
restore_nonce ttl now (nonce, ts) = unless_expired ttl now nonce (finite_at_zero (some ts))

-- A sender with no nonce left is passed over.
abbrev pub unless_none_left : String → Map ℕ → Option (String × Map ℕ)
unless_none_left sender [] = none
unless_none_left sender (e ∷ m) = some (sender, e ∷ m)

unfoldable pub restore_nonces : (ttl now : ℕ) → String × Json → Option (String × Map ℕ)
unfolding put_all restore_nonce
restore_nonces ttl now (sender, value) =
    read_fields (as_record value)
      (λ fs. unless_none_left sender (put_all (restore_nonce ttl now) (entries fs) []))

abbrev pub identity_of_fields : (ttl now : ℕ) → Fields → Identity
unfolding prop put_all restore_key restore_nonces
identity_of_fields ttl now fs = record {
  key_registry = put_all restore_key (record_entries (prop "keys_by_sender" fs)) [];
  nonces_by_sender =
      put_all (restore_nonces ttl now) (record_entries (prop "nonces_by_sender" fs)) [];
}

abbrev pub fields_or_none : Option Fields → Fields
fields_or_none none = end
fields_or_none (some fs) = fs

unfoldable pub restore_identity : (ttl now : ℕ) → Json → Identity
unfolding identity_of_fields
restore_identity ttl now value = identity_of_fields ttl now (fields_or_none (as_record value))

-- The record of an envelope's fields, where it has all it needs.
abbrev pub record_of_fields : (max_hops : ℕ) → Fields → Fields → Option CacheExchangeRecord
unfolding prop trim is_valid_room_name is_valid_topic
record_of_fields max_hops fs envelope_fields =
    let envelope = read_envelope "" envelope_fields in
    let cursor = count_or_zero (prop "cursor" fs) in
    let origin = trim (string_or_empty (prop "origin" fs)) in
    if (cursor == 0)
      || is_empty origin
      || not (is_valid_room_name envelope.room)
      || is_empty envelope.id
      || is_empty envelope.sender
      || not (is_valid_topic envelope.topic)
    then none
    else some (record {
      cursor = cursor;
      envelope = envelope;
      origin = origin;
      hop_count = count_or_zero (prop "hop_count" fs);
      max_hops = or_else (option_map (max 1) (finite_at_zero (prop "max_hops" fs))) max_hops;
    })

unfoldable pub restore_record : (max_hops : ℕ) → Json → Option CacheExchangeRecord
unfolding prop record_of_fields
restore_record max_hops value = read_fields (as_record value) (λ fs.
    read_fields (as_record (json_or_null (prop "envelope" fs))) (record_of_fields max_hops fs))

module _ (o : RelayOptions) where
  -- The loop over the records, with the exchange and the greatest cursor so far.
  unfoldable pub restore_records :
      List CacheExchangeRecord → Exchange → (max_cursor : ℕ) → Exchange × ℕ
  unfolding append_cache_exchange_record
  restore_records [] x max_cursor = (x, max_cursor)
  restore_records (r ∷ rs) x max_cursor =
      restore_records rs (append_cache_exchange_record o.cache_exchange_max_records x r)
        (max r.cursor max_cursor)

  unfoldable pub restore_exchange : Fields → Items → Exchange
  unfolding prop read_all restore_record restore_records
  restore_exchange fs records =
      let (x, max_cursor) =
        restore_records (read_all (restore_record o.cache_exchange_max_hops) (items records))
          (record { records = []; cursor = 0 }) 0 in
      record x { cursor = max (count_or_zero (prop "cursor" fs)) max_cursor }

  -- Where no exchange was stored, every message is recorded again as this relay's own.
  abbrev pub record_messages : List Envelope → Exchange → Exchange
  unfolding record_cache_exchange
  record_messages [] x = x
  record_messages (e ∷ es) x = record_messages es (
      record_cache_exchange o.cache_exchange_max_records x e o.relay_node_id 0
        o.cache_exchange_max_hops)

  unfoldable pub record_rooms : Map RoomState → Exchange → Exchange
  unfolding record_messages
  record_rooms [] x = x
  record_rooms ((room, r) ∷ rooms) x = record_rooms rooms (record_messages r.messages x)

  abbrev pub exchange_of_records : Map RoomState → Fields → Option Json → Exchange
  unfolding restore_exchange record_rooms
  exchange_of_records rooms fs (some (arr records)) = restore_exchange fs records
  exchange_of_records rooms fs _ = record_rooms rooms (record { records = []; cursor = 0 })

  abbrev pub exchange_of : Map RoomState → Option Json → Exchange
  unfolding prop exchange_of_records record_rooms
  exchange_of rooms (some (obj fs)) = exchange_of_records rooms fs (prop "records" fs)
  exchange_of rooms _ = record_rooms rooms (record { records = []; cursor = 0 })

  abbrev pub engine_of : ℕ → Option Json → Engine
  unfolding Snapshot.restore
  engine_of now (some (obj fs)) = Snapshot.restore o.github_issue_sync now (obj fs)
  engine_of now _ = Snapshot.restore o.github_issue_sync now null

  abbrev pub restore_from : ℕ → Fields → Relay → Relay
  unfolding prop put_all restore_room identity_of_fields exchange_of
  restore_from now fs s =
      let rooms = put_all (restore_room o now) (record_entries (prop "rooms" fs)) [] in
      record s {
        rooms = rooms;
        identity = identity_of_fields o.identity.nonce_ttl_sec now fs;
        exchange = exchange_of rooms (prop "cache_exchange" fs);
        github_issue_sync = engine_of now (prop "github_webhook" fs);
      }

  -- The relay after `restore`; what is no object leaves it empty. The cursors of the issue cache are
  -- restored by the adapter.
  abbrev pub restore_fields : ℕ → Option Fields → Relay → Relay
  unfolding restore_from Snapshot.restore
  restore_fields now none s = record s {
    rooms = [];
    identity = record { key_registry = []; nonces_by_sender = [] };
    exchange = record { records = []; cursor = 0 };
    github_issue_sync = Snapshot.restore o.github_issue_sync now null;
  }
  restore_fields now (some fs) s = restore_from now fs s

  unfoldable pub restore : (now : ℕ) → Json → Relay → Relay
  unfolding restore_fields
  restore now value s = restore_fields now (as_record value) s
