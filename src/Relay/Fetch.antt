-- ===== src/Relay/Fetch.antt =====
-- `fetch` of createMemoryRelayService (src/memory_handler.ts): the reaping of sockets, the token check
-- and the routing.
use bit_relay.Prelude.{
  List, [], ◌∷◌, ℕ, not, ◌&&◌, ◌||◌, Option, none, some, String, str_eq, if◌then◌else◌, inl, inr,
  ◌⊎◌,
}
use bit_relay.Http.{Platform, Request, or_default, should_require_auth, auth_refused}
use bit_relay.Map
use bit_relay.Room.{RoomState}
use bit_relay.Relay.Sockets.{socket_message, socket_closed, reap_when_due, handle_web_socket}
use bit_relay.Relay.Keys.{handle_key_verify_github}
use bit_relay.Relay.Caches.{
  IssueReads, handle_cache_exchange_discovery, handle_cache_issue_pull, handle_cache_issue_sync,
}
use bit_relay.Identity.{Denied, KeyRecord}
use bit_relay.Identity.Rotate.{RotateReply, handle_key_rotate, handle_key_info}
use bit_relay.Relay.{
  RelayOptions, Relay, Response, error_response, key_body, rotated_body, health_body,
}
use bit_relay.Relay.Action.{Action, ◌>>=◌, ◌>>◌, pure, raise, raise_if, gets, run, response_of}
use bit_relay.Relay.Peers.{handle_cache_exchange_push, handle_cache_exchange_pull}
use bit_relay.Relay.Webhook.{
  handle_github_webhook, handle_github_webhook_dlq_list, handle_github_webhook_dlq_retry,
}
use bit_relay.Relay.Publish.{handle_publish, handle_trigger_callback}
use bit_relay.Relay.Rooms.{
  handle_poll, handle_inbox_pending, handle_inbox_ack, handle_trigger_results, handle_heartbeat,
  handle_presence, handle_review,
}

abbrev pub info_response : Denied ⊎ (String × KeyRecord) → Response
info_response (inl reason) = error_response reason.status reason.error
info_response (inr (sender, key)) = record { status = 200; body = key_body sender key }

abbrev pub rotate_response : RotateReply → Response
rotate_response (RotateReply.failed reason) = error_response reason.status reason.error
rotate_response (RotateReply.rotated sender public_key rotated_at) = record {
  status = 200;
  body = rotated_body sender public_key rotated_at;
}

-- What the clock and `crypto.randomUUID` give to a request.
pub record Ambient : Type 0 where
  pub now_ms : ℕ
  pub now_sec : ℕ
  pub fresh_id : String

abbrev pub changed_room :
    Option RoomState → String → (RoomState → RoomState × Unit {0}) → Relay → Relay
changed_room none room f s = s
changed_room (some r) room f s = record s { rooms = Map.set room (f r).0 s.rooms }

-- An event of a socket, where its room is there.
unfoldable pub on_socket : String → (RoomState → RoomState × Unit {0}) → Relay → Relay
unfolding Map.get Map.set
on_socket room f s = changed_room (Map.get room s.rooms) room f s

-- The handler of the first path that is the request's.
unfoldable pub route : List (String × Action Response) → String → Action Response
route [] pathname = raise 404 "not found"
route ((path, handler) ∷ rest) pathname =
    let later = route rest pathname in if str_eq pathname path then handler else later

-- What happens to a relay: a request, or an event of a socket of a room.
pub data Event : Type 0 where
  request : Request → Ambient → Event
  message closed : (room socket : String) → (now_ms : ℕ) → Event

module _ (p : Platform) (o : RelayOptions) where
  unfoldable pub key_info : Request → Action Response
  unfolding handle_key_info
  key_info q = do
    raise_if (not (str_eq q.method "GET")) 405 "method not allowed"
    gets (λ s. info_response (handle_key_info s.identity (or_default (q.query "sender") "")))

  abbrev pub rotate_in : Request → ℕ → Relay → Relay × RotateReply
  unfolding handle_key_rotate
  rotate_in q now s =
      let (identity, answer) =
        handle_key_rotate o.identity p.verify_signature s.identity (p.json_parse q.body) now in
      (record s { identity = identity }, answer)

  unfoldable pub key_rotate : Request → ℕ → Action Response
  unfolding rotate_in
  key_rotate q now = do
    raise_if (not (str_eq q.method "POST")) 405 "method not allowed"
    answer ← run (rotate_in q now)
    pure (rotate_response answer)

  module _ (reads : IssueReads) where
    -- The chain of tests of the path, in its order.
    abbrev pub routes : Request → Ambient → List (String × Action Response)
    routes q now =
        ("/api/v1/key/info", key_info q)
        ∷ ("/api/v1/key/rotate", key_rotate q now.now_sec)
        ∷ ("/api/v1/key/verify-github", handle_key_verify_github p q now.now_sec)
        ∷ ("/api/v1/github/webhook", handle_github_webhook p o q now.now_sec)
        ∷ ("/api/v1/github/webhook/dlq", handle_github_webhook_dlq_list p o q)
        ∷ ("/api/v1/github/webhook/dlq/retry", handle_github_webhook_dlq_retry p o q now.now_sec)
        ∷ ("/api/v1/trigger/callback", handle_trigger_callback p o q now.now_sec now.fresh_id)
        ∷ ("/api/v1/trigger/results", handle_trigger_results p o q)
        ∷ ("/api/v1/cache/exchange/discovery", handle_cache_exchange_discovery p o q)
        ∷ ("/api/v1/cache/exchange/pull", handle_cache_exchange_pull p o q)
        ∷ ("/api/v1/cache/exchange/push", handle_cache_exchange_push p o q)
        ∷ ("/api/v1/cache/issues/pull", handle_cache_issue_pull p o reads q)
        ∷ ("/api/v1/cache/issues/sync", handle_cache_issue_sync p o reads q)
        ∷ ("/ws", handle_web_socket p o q now.now_ms now.fresh_id)
        ∷ ("/api/v1/publish", handle_publish p o q now.now_ms now.now_sec now.fresh_id)
        ∷ ("/api/v1/poll", handle_poll p o q)
        ∷ ("/api/v1/inbox/pending", handle_inbox_pending p o q)
        ∷ ("/api/v1/inbox/ack", handle_inbox_ack p o q)
        ∷ ("/api/v1/presence/heartbeat", handle_heartbeat p o q now.now_sec)
        ∷ ("/api/v1/presence", handle_presence p o q now.now_sec)
        ∷ ("/api/v1/review", handle_review p o q now.now_sec)
        ∷ []

    -- `/` answers with a text, given here by the health reply.
    unfoldable pub fetch : Request → Ambient → Action Response
    unfolding should_require_auth auth_refused
    fetch q now =
        if str_eq q.pathname "/health" || str_eq q.pathname "/"
        then pure (record { status = 200; body = health_body })
        else if should_require_auth q.pathname && auth_refused o.auth_token q
        then raise 401 "unauthorized"
        else route (routes q now) q.pathname

    -- The state and the reply of a request.
    unfoldable pub serve : Relay → Request → Ambient → Relay × Response
    serve s q now =
        let (s', outcome) = fetch q now (reap_when_due p o now.now_ms s) in
        (s', response_of outcome)

    unfoldable pub step : Relay → Event → Relay
    step s (request q now) = (serve s q now).0
    step s (message room socket now_ms) = on_socket room (socket_message socket now_ms) s
    step s (closed room socket now_ms) = on_socket room (socket_closed socket) s

    unfoldable pub steps : Relay → List Event → Relay
    steps s [] = s
    steps s (event ∷ events) = steps (step s event) events
