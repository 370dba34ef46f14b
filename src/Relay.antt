-- ===== src/Relay.antt =====
-- The relay's state (createMemoryRelayService, src/memory_handler.ts), what every handler does to
-- publish, and the replies. `toErrorResponse(error, status)` is a reply with an error.
pub mod Action
pub mod Options
pub mod Snapshot
pub mod StoredRooms
pub mod Restore
pub mod Peers
pub mod Webhook
pub mod Publish
pub mod Rooms
pub mod Sockets
pub mod Keys
pub mod Caches
pub mod Fetch
pub mod Keeps
pub mod Invariant
pub mod Preserve
pub mod Accounts
pub mod Guarded
pub mod Authentic
use bit_relay.Prelude.{
  ℕ, ◌+◌, Bool, true, false, List, [], ◌∷◌, Option, none, some, String, if◌then◌else◌, str_eq,
}
use bit_relay.Map
use bit_relay.Map.{Map}
use bit_relay.Json.{Json}
use bit_relay.Http.{Platform}
use bit_relay.Room.{
  Envelope, SanitizedEnvelope, PresenceRecord, ReviewRecord, ReviewVerdict, RoomState,
  create_room_state, PublishBody, PublishResult, PollBody, PendingBody, AckBody, publish_into_room,
}
use bit_relay.Review.{broadcast, ReviewStatus}
use bit_relay.RateLimit.{RateCounter}
use bit_relay.Identity.{Identity, KeyRecord, IdentityOptions}
use bit_relay.CacheExchange.{Exchange, CacheExchangeEntry, record_cache_exchange}
use bit_relay.IssueSync.{Engine, EngineOptions, DlqEntry, MappedEnvelope}

-- The options after their defaults.
pub record RelayOptions : Type 0 where
  pub relay_node_id : String
  pub auth_token : String
  pub peer_auth_token : String
  pub room_tokens : Map String
  pub max_messages_per_room : ℕ
  pub cache_exchange_max_hops : ℕ
  pub cache_exchange_max_records : ℕ
  pub publish_payload_max_bytes : ℕ
  pub publish_limit_per_window : ℕ
  pub ip_publish_limit_per_window : ℕ
  pub room_publish_limit_per_window : ℕ
  pub publish_window_ms : ℕ
  pub presence_ttl_sec : ℕ
  pub max_ws_sessions : ℕ
  pub ws_ping_interval_ms : ℕ
  pub ws_idle_timeout_ms : ℕ
  pub peer_relay_urls : List String
  pub github_webhook_secret : String
  pub identity : IdentityOptions
  pub github_issue_sync : EngineOptions

pub record Relay : Type 0 where
  pub rooms : Map RoomState
  pub exchange : Exchange
  pub identity : Identity
  pub ip_rate_counts : Map RateCounter
  pub sender_rate_counts : Map RateCounter
  pub room_rate_counts : Map RateCounter
  pub github_issue_sync : Engine
  pub last_reap_at : ℕ

-- Why an entry of a push is rejected (CacheExchangeRejectionReason).
pub data RejectionReason : Type 0 where
  invalid_room invalid_topic loop_origin max_hops_reached : RejectionReason

-- The counts of a push, with the reasons in the order of the rejections.
pub record PushCounts : Type 0 where
  pub accepted : ℕ
  pub duplicates : ℕ
  pub conflicts : ℕ
  pub rejections : List RejectionReason

-- What a reply holds. The source writes fields of these records as JSON; of an entry of the webhook
-- queue it shows a selection.
pub data Body : Type 0 where
  error : String → Body
  publish_body : PublishBody → Body
  poll_body : PollBody → Body
  pending_body : PendingBody → Body
  ack_body : AckBody → Body
  pull_body : (next_cursor : ℕ) (entries : List CacheExchangeEntry) → Body
  push_body : (counts : PushCounts) (next_cursor : ℕ) → Body
  webhook_duplicate : (delivery_id event : String) → Body
  webhook_applied :
      (delivery_id event : String) → MappedEnvelope → (accepted : Bool) → Option ℕ → Body
  webhook_queued : DlqEntry → Body
  dlq_body : (next_cursor : ℕ) (entries : List DlqEntry) → Body
  callback_body : (room id : String) → (accepted : Bool) → Option ℕ → Body
  results_body : (next_cursor : ℕ) → List (ℕ × SanitizedEnvelope) → Body
  heartbeat_body : (participant status : String) → (joined : Bool) → Body
  presence_body : Map PresenceRecord → Body
  left_body : (participant : String) → (removed : Bool) → Body
  reviews_body : ReviewStatus → Map ReviewRecord → Body
  review_body : (sender pr_id : String) → ReviewVerdict → (submitted : Bool) → ReviewStatus → Body
  key_body : (sender : String) → KeyRecord → Body
  rotated_body : (sender public_key : String) (rotated_at : ℕ) → Body
  health_body : Body
  github_body : (sender : String) → (verified_at : Option ℕ) → Body
  socket_body : Body
  discovery_body : (node_id : String) (peers : List String) (max_hops : ℕ) → Body
  issues_body : (room : String) (next_cursor : ℕ) → List SanitizedEnvelope → Body
  issue_sync_body :
      (room : String) (next_cursor room_cursor : ℕ)
      (events snapshots : List (String × SanitizedEnvelope))
      → Body

pub record Response : Type 0 where
  pub status : ℕ
  pub body : Body

abbrev pub error_response : ℕ → String → Response
error_response status message = record { status = status; body = error message }

-- What `getOrCreateRoomState` returns; it puts a room that it creates into `rooms`.
abbrev pub or_new_room : Option RoomState → RoomState
or_new_room none = create_room_state
or_new_room (some found) = found

-- The room with a name, as `getOrCreateRoomState` finds or creates it.
abbrev pub room_of : Map RoomState → String → RoomState
room_of rooms room = or_new_room (Map.get room rooms)

-- `result.changed && result.envelope`: the log took the envelope.
unfoldable pub deliver :
    Platform
    → RelayOptions
    → Relay
    → String
    → RoomState
    → (origin : String) → (hop_count max_hops : ℕ) → Option Envelope
    → Relay
unfolding Map.set broadcast record_cache_exchange
deliver p o s room r origin hop_count max_hops none = record s { rooms = Map.set room r s.rooms }
deliver p o s room r origin hop_count max_hops (some envelope) = record s {
  rooms = Map.set room (record r { sessions = (broadcast p.send_throws r.sessions).0 }) s.rooms;
  exchange =
      record_cache_exchange o.cache_exchange_max_records s.exchange envelope origin hop_count
        max_hops;
}

-- Publish into the room, made where it is missing; an accepted envelope goes to the room's sockets
-- and to the exchange.
unfoldable pub publish_and_record :
    Platform
    → RelayOptions
    → Relay
    → (room sender topic id signature : String) → Json
    → (origin : String) → (hop_count max_hops : ℕ) → Relay × PublishResult
unfolding Map.get publish_into_room deliver
publish_and_record p o s room sender topic id signature payload origin hop_count max_hops =
    let (r, result) =
      publish_into_room (room_of s.rooms room) room sender topic id signature payload
        o.max_messages_per_room in
    (deliver p o s room r origin hop_count max_hops result.envelope, result)

-- An operation on a room that is made where it is missing.
unfoldable pub update_room {ℓ} :
    {A : Type ℓ} → String → (RoomState → RoomState × A) → Relay → Relay × A
unfolding Map.get Map.set
update_room room f s =
    let (r, a) = f (room_of s.rooms room) in (record s { rooms = Map.set room r s.rooms }, a)
