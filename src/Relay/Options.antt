-- ===== src/Relay/Options.antt =====
-- The options of createMemoryRelayService with their defaults and bounds (src/memory_handler.ts). A
-- number is given by its sign and its whole part, `Math.trunc`; it is taken to be finite.
use bit_relay.Prelude.{
  ℕ, ◌+◌, ◌<◌, ◌≤◌, max, Bool, true, false, List, [], ◌∷◌, ◌++◌, Option, none, some, String, arith,
  if◌then◌else◌, ◌||◌,
}
use bit_relay.Text.{trim, is_empty, is_alnum, is_mark, matches_name}
use bit_relay.Http.{or_default, parse_room_tokens}
use bit_relay.Room.{includes}
use bit_relay.Relay.{RelayOptions}

abbrev Given : Type 0
Given = Option (Bool × ℕ)

-- MemoryRelayOptions, `none` where an option is left out.
pub record MemoryRelayOptions : Type 0 where
  pub relay_node_id : Option String
  pub auth_token : Option String
  pub peer_auth_token : Option String
  pub room_tokens : List (String × String)
  pub max_messages_per_room : Option (Bool × ℕ)
  pub cache_exchange_max_hops : Option (Bool × ℕ)
  pub cache_exchange_max_records : Option (Bool × ℕ)
  pub publish_payload_max_bytes : Option (Bool × ℕ)
  pub publish_limit_per_window : Option (Bool × ℕ)
  pub ip_publish_limit_per_window : Option (Bool × ℕ)
  pub room_publish_limit_per_window : Option (Bool × ℕ)
  pub publish_window_ms : Option (Bool × ℕ)
  pub presence_ttl_sec : Option (Bool × ℕ)
  pub max_ws_sessions : Option (Bool × ℕ)
  pub ws_ping_interval_ms : Option (Bool × ℕ)
  pub ws_idle_timeout_ms : Option (Bool × ℕ)
  pub peer_relay_urls : List String
  pub github_webhook_secret : Option String
  pub require_signatures : Option Bool
  pub max_clock_skew_sec : Option (Bool × ℕ)
  pub nonce_ttl_sec : Option (Bool × ℕ)
  pub max_nonces_per_sender : Option (Bool × ℕ)

-- `Math.max(least, Math.trunc(value ?? fallback))`
abbrev pub bounded : (least fallback : ℕ) → Given → ℕ
bounded least fallback none = max least fallback
bounded least fallback (some (true, whole)) = least
bounded least fallback (some (false, whole)) = max least whole

-- NODE_ID_PATTERN, /^[A-Za-z0-9][A-Za-z0-9._-]{0,63}$/
unfoldable pub is_valid_node_id : String → Bool
unfolding matches_name
is_valid_node_id = matches_name is_alnum (λ c. is_alnum c || is_mark c) 63

-- The generated id is an argument.
unfoldable pub normalize_relay_node_id : (generated : String) → Option String → String
unfolding trim is_valid_node_id
normalize_relay_node_id generated raw =
    let value = trim (or_default raw "") in if is_valid_node_id value then value else generated

-- The loop over the urls, with the set so far.
unfoldable pub normalize_peer_relay_urls : List String → List String → List String
unfolding trim
normalize_peer_relay_urls dedupe [] = dedupe
normalize_peer_relay_urls dedupe (value ∷ raw) =
    let url = trim value in
    let kept = normalize_peer_relay_urls dedupe raw in
    let longer = normalize_peer_relay_urls (dedupe ++ url ∷ []) raw in
    if is_empty url || includes dedupe url then kept else longer

abbrev bool_or : Option Bool → Bool → Bool
bool_or none fallback = fallback
bool_or (some b) fallback = b

abbrev ping_interval : MemoryRelayOptions → ℕ
ping_interval raw = bounded 1000 30000 raw.ws_ping_interval_ms

-- The options of the service; those of the issue engine are constants.
unfoldable pub relay_options : (generated_id : String) → MemoryRelayOptions → RelayOptions
unfolding trim normalize_relay_node_id normalize_peer_relay_urls parse_room_tokens
relay_options generated_id raw = record {
  relay_node_id = normalize_relay_node_id generated_id raw.relay_node_id;
  auth_token = trim (or_default raw.auth_token "");
  peer_auth_token = trim (or_default raw.peer_auth_token "");
  room_tokens = parse_room_tokens [] raw.room_tokens;
  max_messages_per_room = bounded 1 1000 raw.max_messages_per_room;
  cache_exchange_max_hops = bounded 1 3 raw.cache_exchange_max_hops;
  cache_exchange_max_records = bounded 1 10000 raw.cache_exchange_max_records;
  publish_payload_max_bytes = bounded 1 65536 raw.publish_payload_max_bytes;
  publish_limit_per_window = bounded 1 30 raw.publish_limit_per_window;
  ip_publish_limit_per_window = bounded 1 60 raw.ip_publish_limit_per_window;
  room_publish_limit_per_window = bounded 1 60 raw.room_publish_limit_per_window;
  publish_window_ms = bounded 1 60000 raw.publish_window_ms;
  presence_ttl_sec = bounded 1 60 raw.presence_ttl_sec;
  max_ws_sessions = bounded 1 100 raw.max_ws_sessions;
  ws_ping_interval_ms = ping_interval raw;
  ws_idle_timeout_ms = bounded (ping_interval raw + 1000) 90000 raw.ws_idle_timeout_ms;
  peer_relay_urls = normalize_peer_relay_urls [] raw.peer_relay_urls;
  github_webhook_secret = trim (or_default raw.github_webhook_secret "");
  identity = record {
    require_signatures = bool_or raw.require_signatures true;
    max_clock_skew_sec = bounded 1 300 raw.max_clock_skew_sec;
    nonce_ttl_sec = bounded 1 600 raw.nonce_ttl_sec;
    max_nonces_per_sender = bounded 1 2048 raw.max_nonces_per_sender;
  };
  github_issue_sync = record {
    max_delivery_ids = 10000;
    max_dlq_entries = 10000;
    retry_base_sec = 30;
  };
}

bounded-le : (least fallback : ℕ) (given : Given) → least ≤ bounded least fallback given
bounded-le least fallback none = omega arith
bounded-le least fallback (some (true, whole)) = omega arith
bounded-le least fallback (some (false, whole)) = omega arith

-- Envelopes may always travel, and a socket outlives a ping by a second.
pub relay_options-hops :
    (generated_id : String) (raw : MemoryRelayOptions)
    → 0 < (relay_options generated_id raw).cache_exchange_max_hops
unfolding relay_options
relay_options-hops generated_id raw = omega (arith, bounded-le 1 3 raw.cache_exchange_max_hops)
