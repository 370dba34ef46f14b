-- ===== src/Relay/Publish.antt =====
-- The publish of `fetch` and handleTriggerCallback (src/memory_handler.ts). The clock and what
-- `crypto.randomUUID` returns are arguments.
use Prim.Native.String
use bit_relay.Prelude.{ℕ, ltb, Bool, true, false, not, List, Option, String, str_eq, if◌then◌else◌}
use bit_relay.Map
use bit_relay.Map.{Map}
use bit_relay.Text.{trim, is_empty}
use bit_relay.Json.{Number, Json, num, str, obj, Fields, end, field, prop, string_or_empty}
use bit_relay.Http.{
  Platform, Request, or_default, query_of, normalize_room, normalize_publish_payload,
  room_token_refused, extract_client_ip, exceeds, derive_room_from_incoming_ref,
}
use bit_relay.Room.{PublishResult, is_valid_room_name}
use bit_relay.RateLimit.{RateCounter, fallback_rate_limit}
use bit_relay.Signing.{build_publish_signing_message, canonicalize_json}
use bit_relay.Identity.{
  SignatureHeaders, PublishAuthHeaders, Verified, refused, verified, handle_signature_verification,
}
use bit_relay.Relay.{RelayOptions, Relay, Response, publish_body, callback_body, publish_and_record}
use bit_relay.Relay.Action.{Action, ◌>>=◌, ◌>>◌, pure, raise, raise_if, or_raise, run}
use bit_relay.Relay.Peers.{object_of}
use bit_relay.Relay.Webhook.{accepted_of}

-- `value.trim() || fallback`
abbrev pub trimmed_or : String → String → String
unfolding trim
trimmed_or s fallback = if is_empty (trim s) then fallback else trim s

module _ (o : RelayOptions) where
  abbrev pub counted : Map RateCounter → String → (now most : ℕ) → Map RateCounter × Bool
  unfolding Map.get Map.set fallback_rate_limit
  counted counts key now most =
      let (next, allowed) = fallback_rate_limit (Map.get key counts) now most o.publish_window_ms in
      (Map.set key next counts, allowed)

  unfoldable pub count_ip : String → ℕ → Relay → Relay × Bool
  count_ip ip now s =
      let (counts, allowed) = counted s.ip_rate_counts ip now o.ip_publish_limit_per_window in
      if is_empty ip then (s, true) else (record s { ip_rate_counts = counts }, allowed)

  unfoldable pub count_sender : String → ℕ → Relay → Relay × Bool
  count_sender sender now s =
      let (counts, allowed) = counted s.sender_rate_counts sender now o.publish_limit_per_window in
      (record s { sender_rate_counts = counts }, allowed)

  unfoldable pub count_room : String → ℕ → Relay → Relay × Bool
  count_room room now s =
      let (counts, allowed) = counted s.room_rate_counts room now o.room_publish_limit_per_window in
      (record s { room_rate_counts = counts }, allowed)

abbrev pub signature_headers : Request → SignatureHeaders
signature_headers q = record {
  public_key = or_default (q.header "x-relay-public-key") "";
  signature = or_default (q.header "x-relay-signature") "";
  timestamp = or_default (q.header "x-relay-timestamp") "";
  nonce = or_default (q.header "x-relay-nonce") "";
}

module _ (p : Platform) (o : RelayOptions) where
  -- The text that a publish signs, for the time and nonce of its headers.
  abbrev pub signing_message : (sender room id topic : String) → Json → PublishAuthHeaders → List ℕ
  unfolding build_publish_signing_message canonicalize_json
  signing_message sender room id topic payload auth = build_publish_signing_message (record {
    sender = sender;
    room = room;
    id = id;
    topic = topic;
    ts = auth.timestamp_sec;
    nonce = auth.nonce;
    payload_hash = p.sha256_hex (canonicalize_json p.number_text payload);
  })

  unfoldable pub verify_publish :
      Request → (sender room id topic : String) → Json → ℕ → Relay → Relay × Verified
  unfolding handle_signature_verification
  verify_publish q sender room id topic payload now s =
      let (identity, result) =
        handle_signature_verification o.identity p.verify_signature s.identity sender
          (signature_headers q) (signing_message sender room id topic payload) now in
      (record s { identity = identity }, result)

  abbrev pub or_refuse : Verified → Action (Option String)
  or_refuse (refused reason) = raise reason.status reason.error
  or_refuse (verified signature) = pure signature

  unfoldable pub publish_own :
      (room sender topic id signature : String) → Json → Relay → Relay × PublishResult
  publish_own room sender topic id signature payload s =
      publish_and_record p o s room sender topic id signature payload o.relay_node_id 0
        o.cache_exchange_max_hops

  -- POST /api/v1/publish; `now_ms` and `now_sec` are one clock, `fresh_id` a random UUID.
  unfoldable pub handle_publish :
      Request → (now_ms now_sec : ℕ) → (fresh_id : String) → Action Response
  unfolding query_of normalize_room is_valid_room_name room_token_refused trimmed_or
      extract_client_ip normalize_publish_payload
  handle_publish q now_ms now_sec fresh_id = do
    raise_if (not (str_eq q.method "POST")) 405 "method not allowed"
    let sender = query_of q "sender"
    raise_if (is_empty sender) 400 "missing query: sender"
    let room = normalize_room (q.query "room")
    raise_if (not (is_valid_room_name room)) 400 "invalid room"
    raise_if (room_token_refused o.room_tokens q room) 403 "forbidden"
    let topic = trimmed_or (or_default (q.query "topic") "notify") "notify"
    let id = trimmed_or (or_default (q.query "id") fresh_id) fresh_id
    ip_allowed ← run (count_ip o (extract_client_ip q) now_ms)
    raise_if (not ip_allowed) 429 "ip rate limit exceeded"
    sender_allowed ← run (count_sender o sender now_ms)
    raise_if (not sender_allowed) 429 "sender rate limit exceeded"
    room_allowed ← run (count_room o room now_ms)
    raise_if (not room_allowed) 429 "room rate limit exceeded"
    raise_if
        (exceeds (p.to_number (or_default (q.header "content-length") ""))
          o.publish_payload_max_bytes)
        413 "payload too large"
    raise_if (ltb o.publish_payload_max_bytes (p.utf8_length q.body)) 413 "payload too large"
    parsed ← or_raise (p.json_parse q.body) 400 "invalid json payload"
    let payload = normalize_publish_payload parsed
    verdict ← run (verify_publish q sender room id topic payload now_sec)
    signature ← or_refuse verdict
    result ←
        run (publish_own room sender topic id (or_default signature (query_of q "sig")) payload)
    pure (record { status = result.status; body = publish_body result.body })

  abbrev pub requested_room : String → String → String
  unfolding derive_room_from_incoming_ref
  requested_room room ref = if is_empty room then derive_room_from_incoming_ref ref else room

  abbrev pub callback_id : (given external_id fresh_id : String) → String
  unfolding trim
  callback_id given external_id fresh_id =
      if is_empty given
      then String.◌++◌ "ci-" (if is_empty (trim external_id) then fresh_id else trim external_id)
      else given

  abbrev pub callback_payload : (ref status : String) → Fields → (received_at : ℕ) → Json
  unfolding prop
  callback_payload ref status fs received_at = obj (
      field "source" (str "ci") (
        field "ref" (str ref) (
          field "status" (str status) (
            field "logs_url" (str (string_or_empty (prop "logs_url" fs))) (
              field "artifact_url" (str (string_or_empty (prop "artifact_url" fs))) (
                field "external_id" (str (string_or_empty (prop "external_id" fs))) (
                  field "provider" (str (string_or_empty (prop "provider" fs)))
                    (field "received_at" (num (Number.finite false received_at 0)) end))))))))

  unfoldable pub handle_trigger_callback :
      Request → (now_sec : ℕ) → (fresh_id : String) → Action Response
  unfolding prop trim is_valid_room_name room_token_refused requested_room callback_id
      callback_payload
  handle_trigger_callback q now_sec fresh_id = do
    raise_if (not (str_eq q.method "POST")) 405 "method not allowed"
    fs ← or_raise (object_of (p.json_parse q.body)) 400 "invalid json payload"
    let ref = trim (string_or_empty (prop "ref" fs))
    raise_if (is_empty ref) 400 "missing field: ref"
    let status = p.to_lower_case (trim (string_or_empty (prop "status" fs)))
    raise_if (is_empty status) 400 "missing field: status"
    let room = requested_room (trim (string_or_empty (prop "room" fs))) ref
    raise_if (not (is_valid_room_name room)) 400 "invalid room"
    raise_if (room_token_refused o.room_tokens q room) 403 "forbidden"
    let id =
        callback_id (trim (string_or_empty (prop "id" fs)))
          (string_or_empty (prop "external_id" fs)) fresh_id
    result ←
        run (
          publish_own room "ci:callback" "ci.result" id "" (callback_payload ref status fs now_sec))
    let (accepted, cursor) = accepted_of result.body
    pure (record { status = result.status; body = callback_body room id accepted cursor })
