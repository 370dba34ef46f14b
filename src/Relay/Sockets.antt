-- ===== src/Relay/Sockets.antt =====
-- The sockets of the rooms: handleWebSocket, subscribeSocket and reapDeadConnections
-- (src/memory_handler.ts). Times are milliseconds.
use bit_relay.Prelude.{
  ℕ, ◌+◌, leb, Bool, not, ◌&&◌, [], ◌∷◌, Option, none, some, String, str_eq, if◌then◌else◌, length,
  keep,
}
use bit_relay.Map
use bit_relay.Map.{Map}
use bit_relay.Http.{Platform, Request, or_default, normalize_room, room_token_refused}
use bit_relay.Room.{WsSession, RoomState, is_valid_room_name}
use bit_relay.Relay.{RelayOptions, Relay, Response, socket_body, update_room}
use bit_relay.Relay.Action.{Action, ◌>>=◌, ◌>>◌, pure, raise_if, or_raise, run}
use bit_relay.Relay.Rooms.{read_room}

abbrev with_sessions : RoomState → Map WsSession → RoomState
with_sessions r sessions = record r { sessions = sessions }

-- The start of subscribeSocket.
unfoldable pub subscribe_socket :
    (socket : String) → (is_open : Bool) → (now : ℕ) → RoomState → RoomState × Unit {0}
unfolding Map.set
subscribe_socket socket is_open now r = (
  with_sessions r (Map.set socket (record { is_open = is_open; last_active = now }) r.sessions),
  tt,
)

abbrev touched : Option WsSession → (socket : String) → ℕ → RoomState → RoomState
touched none socket now r = r
touched (some session) socket now r =
    with_sessions r (Map.set socket (record session { last_active = now }) r.sessions)

-- The socket's `message` listener.
unfoldable pub socket_message : (socket : String) → (now : ℕ) → RoomState → RoomState × Unit {0}
unfolding Map.get Map.set
socket_message socket now r = (touched (Map.get socket r.sessions) socket now r, tt)

-- The `close` and `error` listeners.
unfoldable pub socket_closed : (socket : String) → RoomState → RoomState × Unit {0}
unfolding Map.delete
socket_closed socket r = (with_sessions r (Map.delete socket r.sessions), tt)

module _ (p : Platform) (o : RelayOptions) where
  -- A session stays where its socket is open, not idle, and takes a ping.
  abbrev pub is_alive : (now : ℕ) → String × WsSession → Bool
  is_alive now (socket, session) =
      session.is_open
      && not (leb (session.last_active + o.ws_idle_timeout_ms) now)
      && not (p.send_throws socket)

  unfoldable pub reap_rooms : (now : ℕ) → Map RoomState → Map RoomState
  unfolding keep
  reap_rooms now [] = []
  reap_rooms now ((name, r) ∷ rooms) =
      (name, with_sessions r (keep (is_alive now) r.sessions)) ∷ reap_rooms now rooms

  -- `fetch` reaps when the ping interval has passed since it last did.
  unfoldable pub reap_when_due : (now : ℕ) → Relay → Relay
  unfolding reap_rooms
  reap_when_due now s =
      if leb (s.last_reap_at + o.ws_ping_interval_ms) now
      then record s { rooms = reap_rooms now s.rooms; last_reap_at = now }
      else s

  -- The room is made before any check of the request.
  unfoldable pub handle_web_socket : Request → (now : ℕ) → (fresh_id : String) → Action Response
  unfolding normalize_room is_valid_room_name room_token_refused
  handle_web_socket q now fresh_id = do
    let room = normalize_room (q.query "room")
    raise_if (not (is_valid_room_name room)) 400 "invalid room"
    sessions ← run (read_room room (λ r. r.sessions))
    raise_if (room_token_refused o.room_tokens q room) 403 "forbidden"
    raise_if (leb o.max_ws_sessions (length sessions)) 503 "too many connections"
    raise_if (not (str_eq (p.to_lower_case (or_default (q.header "upgrade") "")) "websocket")) 426
        "Expected WebSocket"
    socket ← or_raise (p.upgrade fresh_id) 501 "websocket unsupported in this runtime"
    run (update_room room (subscribe_socket socket.0 socket.1 now))
    pure (record { status = 101; body = socket_body })
