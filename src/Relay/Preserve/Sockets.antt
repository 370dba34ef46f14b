-- ===== src/Relay/Preserve/Sockets.antt =====
-- The sockets, the keys of GitHub and the reads of the caches keep the relay well formed
-- (src/memory_handler.ts).
use bit_relay.Prelude.{
  ℕ, ◌≡◌, refl, Bool, true, false, List, [], ◌∷◌, Option, none, some, String, arith, leb, ◌+◌, ◌⊎◌,
  inl, inr, All, Bool-cases, Option-cases,
}
use bit_relay.Map
use bit_relay.Map.{Map}
use bit_relay.Map.Keys.{get-All}
use bit_relay.Http.{Platform, Request}
use bit_relay.Room.{RoomState}
use bit_relay.Relay.{RelayOptions, Relay}
use bit_relay.Relay.Fetch.{changed_room, on_socket}
use bit_relay.Relay.Sockets.{
  subscribe_socket, socket_message, socket_closed, reap_rooms, reap_when_due, handle_web_socket,
}
use bit_relay.Relay.Rooms.{read_room}
use bit_relay.Relay.Keys.{handle_key_verify_github, keys_or_raise, answer_match}
use bit_relay.Relay.Caches.{
  IssueReads, handle_cache_exchange_discovery, handle_cache_issue_pull, handle_cache_issue_sync,
}
use bit_relay.Relay.Keeps.{
  Keeps, pure-Keeps, raise-Keeps, gets-Keeps, run-Keeps, or_raise-Keeps, >>=-Keeps, guard-Keeps,
}
use bit_relay.Relay.Invariant.{IsRelay, set_room-IsRelay, IsNamedRoom, sessions-IsNamedRoom}
use bit_relay.Relay.Preserve.Rooms.{update-Keeps, open_room-Keeps}
use bit_relay.Relay.Preserve.Publish.{identity-IsRelay, valid_of}

module _ (p : Platform) (o : RelayOptions) where
  reap-absent :
      (now : ℕ) (key : String) (rooms : Map RoomState)
      → Map.get key rooms ≡ none
      → Map.get key (reap_rooms p o now rooms) ≡ none
  unfolding reap_rooms Map.get
  reap-absent now key [] h = refl
  reap-absent now key ((name, r) ∷ rooms) h = ground (arith, reap-absent now key rooms)

  reap-Distinct :
      (now : ℕ) (rooms : Map RoomState)
      → Map.Distinct rooms
      → Map.Distinct (reap_rooms p o now rooms)
  unfolding reap_rooms
  reap-Distinct now [] d = tt
  reap-Distinct now ((name, r) ∷ rooms) d =
      (reap-absent now name rooms d.0, reap-Distinct now rooms d.1)

  reap-All :
      (now : ℕ) (rooms : Map RoomState)
      → All (IsNamedRoom o.max_messages_per_room) rooms
      → All (IsNamedRoom o.max_messages_per_room) (reap_rooms p o now rooms)
  unfolding reap_rooms
  reap-All now [] h = tt
  reap-All now ((name, r) ∷ rooms) h =
      (sessions-IsNamedRoom o.max_messages_per_room name r _ refl h.0, reap-All now rooms h.1)

  pub reap-IsRelay : (now : ℕ) (s : Relay) → IsRelay o s → IsRelay o (reap_when_due p o now s)
  unfolding reap_when_due
  reap-IsRelay now s h = elim (Bool-cases (leb (s.last_reap_at + o.ws_ping_interval_ms) now)) [
    | inr early ↦ rw early h
    | inl due ↦ rw due (record {
      distinct = reap-Distinct now s.rooms h.distinct;
      rooms = reap-All now s.rooms h.rooms;
      exchange = h.exchange;
      records = h.records;
      engine = h.engine;
    })
  ]

  pub socket-Keeps :
      (q : Request) (now : ℕ) (id : String) → Keeps (IsRelay o) (handle_web_socket p o q now id)
  unfolding handle_web_socket read_room subscribe_socket
  socket-Keeps q now id = guard-Keeps _ _ _ _ _ λ valid.
      >>=-Keeps _ _ _ (update-Keeps p o _ _ (valid_of p o _ valid) λ r. refl) λ sessions.
        guard-Keeps _ _ _ _ _ λ _. guard-Keeps _ _ _ _ _ λ _. guard-Keeps _ _ _ _ _ λ _.
          >>=-Keeps _ _ _ (or_raise-Keeps _ _ _ _) λ socket.
            >>=-Keeps _ _ _ (update-Keeps p o _ _ (valid_of p o _ valid) λ r. refl)
              λ _. pure-Keeps _ _

  pub discovery-Keeps : (q : Request) → Keeps (IsRelay o) (handle_cache_exchange_discovery p o q)
  unfolding handle_cache_exchange_discovery
  discovery-Keeps q = guard-Keeps _ _ _ _ _ λ _. guard-Keeps _ _ _ _ _ λ _. pure-Keeps _ _

  pub issue_pull-Keeps :
      (reads : IssueReads) (q : Request) → Keeps (IsRelay o) (handle_cache_issue_pull p o reads q)
  unfolding handle_cache_issue_pull
  issue_pull-Keeps reads q =
      guard-Keeps _ _ _ _ _
        λ _. guard-Keeps _ _ _ _ _ λ _. open_room-Keeps p o q _ λ room valid. pure-Keeps _ _

  pub issue_sync-Keeps :
      (reads : IssueReads) (q : Request) → Keeps (IsRelay o) (handle_cache_issue_sync p o reads q)
  unfolding handle_cache_issue_sync
  issue_sync-Keeps reads q =
      guard-Keeps _ _ _ _ _
        λ _. guard-Keeps _ _ _ _ _ λ _. open_room-Keeps p o q _ λ room valid. pure-Keeps _ _

  keys-Keeps : (fetched : List (List ℕ) ⊎ String) → Keeps (IsRelay o) (keys_or_raise p fetched)
  keys-Keeps (inl keys) = pure-Keeps _ _
  keys-Keeps (inr reason) = raise-Keeps _ _ _ _

  match-Keeps :
      (matched : Bool) (sender : String) (now : ℕ)
      → Keeps (IsRelay o) (answer_match p matched sender now)
  match-Keeps false sender now = pure-Keeps _ _
  match-Keeps true sender now =
      >>=-Keeps _ _ _ (run-Keeps _ _ λ s h. identity-IsRelay o s _ h) λ _. pure-Keeps _ _

  pub verify-Keeps : (q : Request) (now : ℕ) → Keeps (IsRelay o) (handle_key_verify_github p q now)
  unfolding handle_key_verify_github
  verify-Keeps q now = guard-Keeps _ _ _ _ _ λ _. >>=-Keeps _ _ _ (or_raise-Keeps _ _ _ _) λ fs.
      guard-Keeps _ _ _ _ _ λ _. guard-Keeps _ _ _ _ _ λ _. guard-Keeps _ _ _ _ _ λ _.
        >>=-Keeps _ _ _ (gets-Keeps _ _) λ registered.
          >>=-Keeps _ _ _ (or_raise-Keeps _ _ _ _)
            λ key. >>=-Keeps _ _ _ (keys-Keeps _) λ keys. match-Keeps _ _ now

module _ (o : RelayOptions) where
  changed_room-IsRelay :
      (found : Option RoomState) (room : String) (f : RoomState → RoomState × Unit {0})
      → ((r : RoomState) → (f r).0.messages ≡ r.messages)
      → (s : Relay) → Map.get room s.rooms ≡ found
      → IsRelay o s
      → IsRelay o (changed_room found room f s)
  changed_room-IsRelay none room f same s e h = h
  changed_room-IsRelay (some r) room f same s e h =
      set_room-IsRelay o s room (f r).0
        (sessions-IsNamedRoom o.max_messages_per_room room r (f r).0 (same r)
          (get-All (IsNamedRoom o.max_messages_per_room) room r s.rooms e h.rooms))
        h

  on_socket-IsRelay :
      (room : String) (f : RoomState → RoomState × Unit {0})
      → ((r : RoomState) → (f r).0.messages ≡ r.messages)
      → (s : Relay) → IsRelay o s
      → IsRelay o (on_socket room f s)
  unfolding on_socket
  on_socket-IsRelay room f same s h =
      changed_room-IsRelay (Map.get room s.rooms) room f same s refl h

  message-messages :
      (socket : String) (now : ℕ) (r : RoomState)
      → (socket_message socket now r).0.messages ≡ r.messages
  unfolding socket_message
  message-messages socket now r = elim (Option-cases (Map.get socket r.sessions)) [
    | inl absent ↦ rw absent refl
    | inr (session, found) ↦ rw found refl
  ]

  pub message-IsRelay :
      (room socket : String) (now : ℕ) (s : Relay)
      → IsRelay o s
      → IsRelay o (on_socket room (socket_message socket now) s)
  message-IsRelay room socket now = on_socket-IsRelay room _ (message-messages socket now)

  closed-messages :
      (socket : String) (r : RoomState) → (socket_closed socket r).0.messages ≡ r.messages
  unfolding socket_closed
  closed-messages socket r = refl

  pub closed-IsRelay :
      (room socket : String) (s : Relay)
      → IsRelay o s
      → IsRelay o (on_socket room (socket_closed socket) s)
  closed-IsRelay room socket = on_socket-IsRelay room _ (closed-messages socket)
