-- ===== src/Tests/Relay.antt =====
-- Runs of the whole relay (src/memory_handler.ts), and inputs where its theorems hold.
use bit_relay.Prelude.{
  ◌≡◌, ◌⊎◌, refl, true, false, List, [], ◌∷◌, Option, none, some, inr, String, str_eq, arith,
  if◌then◌else◌,
}
use bit_relay.Map
use bit_relay.Json.{
  trimmed_string, Number, Json, num, str, arr, obj, Items, nil, cons, items, Fields, end, field,
  prop,
}
use bit_relay.Relay.Sockets.{reap_rooms, reap_when_due}
use bit_relay.CacheExchange.{
  append_cache_exchange_record, record_cache_exchange, parse_fields,
  parse_incoming_cache_exchange_entry,
}
use bit_relay.Text.{utf16_length, every_char, matches_name, trim_end, trim_start, trim}
use bit_relay.Room.{
  trim_log, publish_into_room, find_envelope_by_id, is_valid_topic, is_valid_room_name,
}
use bit_relay.Review.{broadcast}
use bit_relay.Text.Edit.{strip_text}
use bit_relay.Http.{room_token_refused, auth_refused, should_require_auth, Platform, Request}
use bit_relay.IssueSync.{create_engine}
use bit_relay.Relay.{deliver, publish_and_record, RelayOptions, Relay, Body, push_body, loop_origin}
use bit_relay.Relay.Action.{run, gets, raise, pure, or_raise, raise_if, ◌>>=◌}
use bit_relay.Relay.Caches.{IssueReads}
use bit_relay.Relay.Fetch.{fetch, route, Ambient, Event, request, closed, steps, serve}
use bit_relay.Relay.Peers.{
  push_new, push_checked, push_entry, push_entries, handle_cache_exchange_push,
}
use bit_relay.Relay.Publish.{handle_publish}
use bit_relay.Relay.Webhook.{handle_github_webhook}
use bit_relay.Relay.Invariant.{IsRelay}
use bit_relay.Relay.Preserve.{steps-IsRelay}
use bit_relay.Relay.Accounts.{Ends, IsReport, push-IsReport}
use bit_relay.Relay.Authentic.{
  published, IsSignedPublish, publish-signed, IsSignedWebhook, webhook-signed,
}

-- An entry of another relay, and one that this relay sent out.
abbrev entry_from : (origin id : String) → Json
entry_from origin id = obj (
    field "room" (str "main") (
      field "id" (str id) (
        field "sender" (str "ann") (
          field "topic" (str "notify") (
            field "payload" (str "hi") (
              field "origin" (str origin)
                (field "hop_count" (num (Number.finite false 1 0)) end)))))))

abbrev entries : Items
entries = cons (entry_from "far" "m1") (cons (entry_from "near" "m2") nil)

abbrev push_fields : Fields
push_fields = field "entries" (arr entries) end

abbrev parse : String → Option Json
parse body = if str_eq body "push" then some (obj push_fields) else some (str body)

abbrev pub platform : Platform
platform = record {
  json_parse = parse;
  utf8_length = λ body. 4;
  to_number = λ text. Number.not_a_number;
  to_lower_case = λ text. text;
  hmac_sha256_hex = λ secret body. secret;
  date_parse = λ text. Number.not_a_number;
  integer_text = λ n. "0";
  number_text = λ n. [];
  verify_signature = λ key text signature. true;
  sha256_hex = λ text. text;
  send_throws = λ socket. false;
  upgrade = λ id. some (id, true);
  decode_base64url = λ text. none;
  fetch_github_keys = λ user. inr "offline";
}

abbrev pub options : RelayOptions
options = record {
  relay_node_id = "near";
  auth_token = "";
  peer_auth_token = "";
  room_tokens = [];
  max_messages_per_room = 10;
  cache_exchange_max_hops = 3;
  cache_exchange_max_records = 10;
  publish_payload_max_bytes = 100;
  publish_limit_per_window = 5;
  ip_publish_limit_per_window = 5;
  room_publish_limit_per_window = 5;
  publish_window_ms = 1000;
  presence_ttl_sec = 60;
  max_ws_sessions = 2;
  ws_ping_interval_ms = 30000;
  ws_idle_timeout_ms = 90000;
  peer_relay_urls = [];
  github_webhook_secret = "0000000000000000000000000000000000000000000000000000000000000000";
  identity = record {
    require_signatures = true;
    max_clock_skew_sec = 300;
    nonce_ttl_sec = 600;
    max_nonces_per_sender = 8;
  };
  github_issue_sync = record { max_delivery_ids = 4; max_dlq_entries = 4; retry_base_sec = 30 };
}

abbrev pub start : Relay
start = record {
  rooms = [];
  exchange = record { records = []; cursor = 0 };
  identity = record { key_registry = []; nonces_by_sender = [] };
  ip_rate_counts = [];
  sender_rate_counts = [];
  room_rate_counts = [];
  github_issue_sync = create_engine;
  last_reap_at = 0;
}

start-IsRelay : IsRelay options start
start-IsRelay = record {
  distinct = tt;
  rooms = tt;
  exchange = (omega arith, omega arith);
  records = tt;
  engine = ((tt, omega arith), (tt, refl, tt, omega arith));
}

abbrev reads : IssueReads
reads = record {
  pull_issues = λ room after limit. record { next_cursor = after; envelopes = [] };
  sync_issues = λ room after limit snapshot_limit. record {
    next_cursor = after;
    room_cursor = 0;
    events = [];
    snapshots = [];
  };
}

abbrev push_request : Request
push_request = record {
  method = "POST";
  pathname = "/api/v1/cache/exchange/push";
  header = λ name. none;
  query = λ name. none;
  body = "push";
}

abbrev headers : String → Option String
headers name =
    if str_eq name "x-relay-public-key"
    then some "key"
    else if str_eq name "x-relay-signature"
    then some "sig"
    else if str_eq name "x-relay-timestamp"
    then some "1000"
    else if str_eq name "x-relay-nonce"
    then some "n1"
    else if str_eq name "x-github-event"
    then some "issues"
    else if str_eq name "x-github-delivery"
    then some "d1"
    else if str_eq name "x-hub-signature-256"
    then some "sha256=0000000000000000000000000000000000000000000000000000000000000000"
    else none

abbrev sender_only : String → Option String
sender_only name = if str_eq name "sender" then some "ann" else none

abbrev publish_request : Request
publish_request = record {
  method = "POST";
  pathname = "/api/v1/publish";
  header = headers;
  query = sender_only;
  body = "hi";
}

abbrev webhook_request : Request
webhook_request = record {
  method = "POST";
  pathname = "/api/v1/github/webhook";
  header = headers;
  query = λ name. none;
  body = "hi";
}

abbrev now : Ambient
now = record { now_ms = 1000000; now_sec = 1000; fresh_id = "id1" }

abbrev events : List Event
events =
    request push_request now
    ∷ request publish_request now
    ∷ request webhook_request now
    ∷ closed "main" "s1" 5
    ∷ []

steps-IsRelay_example : IsRelay options (steps platform options reads start events)
steps-IsRelay_example =
    steps-IsRelay platform options reads (omega arith) start events start-IsRelay

listed : prop "entries" push_fields ≡ some (arr entries)
unfolding prop Map.get
listed = refl

push-IsReport_example :
    Ends
      (IsReport platform options (items entries) start)
      (handle_cache_exchange_push platform options push_request start)
push-IsReport_example =
    push-IsReport platform options push_request start push_fields entries refl listed

publish-signed_example :
    (published platform options
        (handle_publish platform options publish_request 1000000 1000 "id1" start).0
      ≡ published platform options start)
    ⊎ IsSignedPublish platform options publish_request "id1"
publish-signed_example =
    publish-signed platform options publish_request 1000000 1000 "id1" start refl

webhook-signed_example :
    ((handle_github_webhook platform options webhook_request 1000 start).0 ≡ start)
    ⊎ IsSignedWebhook platform options webhook_request
webhook-signed_example = webhook-signed platform options webhook_request 1000 start

abbrev body_after : List Event → Request → Body
body_after events q =
    (serve platform options reads (steps platform options reads start events) q now).1.body

push_counts :
    body_after [] push_request
    ≡ push_body
        (record { accepted = 1; duplicates = 0; conflicts = 0; rejections = loop_origin ∷ [] })
        1
unfolding serve steps route reap_when_due reap_rooms fetch should_require_auth auth_refused
    handle_cache_exchange_push push_entries push_entry push_checked push_new publish_and_record
    deliver ◌>>=◌ raise_if or_raise pure raise gets run prop Map.get Map.set Map.has
    parse_incoming_cache_exchange_entry parse_fields trimmed_string trim trim_start trim_end
    is_valid_room_name is_valid_topic matches_name every_char utf16_length room_token_refused
    find_envelope_by_id publish_into_room trim_log broadcast record_cache_exchange
    append_cache_exchange_record strip_text
push_counts = refl
