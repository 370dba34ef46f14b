-- ===== src/Relay/Preserve/Rooms.antt =====
-- The handlers of src/memory_handler.ts that leave the messages of a room as they are keep the relay
-- well formed.
use bit_relay.Prelude.{
  ℕ, ◌≡◌, refl, Bool, true, false, String, str_eq, arith, Bool-cases, inl, inr, if◌then◌else◌,
}
use bit_relay.Http.{Platform, Request, room_token_refused, normalize_room}
use bit_relay.Room.{RoomState, is_valid_room_name, ack_into_room, ack_ids, AckIds}
use bit_relay.Review.{leave, heartbeat, submit_review, prune_presence}
use bit_relay.Identity.{Verified, refused, verified}
use bit_relay.Relay.{RelayOptions, Relay, update_room, room_of}
use bit_relay.Relay.Action.{Action, ◌>>=◌, pure, raise, raise_if, run}
use bit_relay.Relay.Publish.{or_refuse}
use bit_relay.Relay.Rooms.{
  open_room, handle_poll, handle_inbox_pending, handle_inbox_ack, handle_trigger_results,
  handle_heartbeat, handle_presence, get_presence, delete_presence, handle_review, get_reviews,
  post_review, pr_id_of, verify_review, read_room,
}
use bit_relay.Relay.Keeps.{
  Keeps, pure-Keeps, raise-Keeps, run-Keeps, or_raise-Keeps, >>=-Keeps, guard-Keeps,
}
use bit_relay.Relay.Invariant.{IsRelay, set_room-IsRelay, room_of-IsNamedRoom, sessions-IsNamedRoom}

module _ (p : Platform) (o : RelayOptions) where
  pub update_room-IsRelay {ℓ} :
      {A : Type ℓ} (room : String) (f : RoomState → RoomState × A)
      → is_valid_room_name room ≡ true
      → ((r : RoomState) → (f r).0.messages ≡ r.messages)
      → (s : Relay) → IsRelay o s
      → IsRelay o (update_room room f s).0
  unfolding update_room
  update_room-IsRelay room f valid same s h =
      let r = room_of s.rooms room in
      set_room-IsRelay o s room (f r).0
        (sessions-IsNamedRoom o.max_messages_per_room room r (f r).0 (same r)
          (room_of-IsNamedRoom o.max_messages_per_room s.rooms room h.rooms valid))
        h

  -- Reads and changes of the room that a request may use.
  pub update-Keeps {ℓ} :
      {A : Type ℓ} (room : String) (f : RoomState → RoomState × A)
      → is_valid_room_name room ≡ true
      → ((r : RoomState) → (f r).0.messages ≡ r.messages)
      → Keeps (IsRelay o) (run (update_room room f))
  update-Keeps room f valid same =
      run-Keeps (IsRelay o) (update_room room f) (update_room-IsRelay room f valid same)

  pub open_room-Keeps {ℓ} :
      {B : Type ℓ} (q : Request) (k : String → Action B)
      → ((room : String) → is_valid_room_name room ≡ true → Keeps (IsRelay o) (k room))
      → Keeps (IsRelay o) (open_room p o q >>= k)
  unfolding open_room ◌>>=◌ raise_if pure
  open_room-Keeps q k keeps s h =
      let room = normalize_room (q.query "room") in
      elim (Bool-cases (is_valid_room_name room)) [
        | inr bad ↦ rw bad h
        | inl name ↦ elim (Bool-cases (room_token_refused o.room_tokens q room)) [
          | inl closed ↦ rw (name, closed) h
          | inr opened ↦ rw (name, opened) (keeps room name s h)
        ]
      ]

  pub poll-Keeps : (q : Request) → Keeps (IsRelay o) (handle_poll p o q)
  unfolding handle_poll read_room
  poll-Keeps q = guard-Keeps _ _ _ _ _ λ _.
      open_room-Keeps q _
        λ room valid. >>=-Keeps _ _ _ (update-Keeps room _ valid λ r. refl) λ page. pure-Keeps _ _

  pub pending-Keeps : (q : Request) → Keeps (IsRelay o) (handle_inbox_pending p o q)
  unfolding handle_inbox_pending read_room
  pending-Keeps q = guard-Keeps _ _ _ _ _ λ _. open_room-Keeps q _ λ room valid.
      guard-Keeps _ _ _ _ _
        λ _. >>=-Keeps _ _ _ (update-Keeps room _ valid λ r. refl) λ page. pure-Keeps _ _

  ack-messages :
      (r : RoomState) (consumer : String) (ids : AckIds)
      → (ack_ids r consumer ids).0.messages ≡ r.messages
  ack-messages r consumer (AckIds.ok ids) = refl
  ack-messages r consumer (AckIds.error reason) = refl

  pub ack-Keeps : (q : Request) → Keeps (IsRelay o) (handle_inbox_ack p o q)
  unfolding handle_inbox_ack ack_into_room
  ack-Keeps q = guard-Keeps _ _ _ _ _ λ _. open_room-Keeps q _ λ room valid.
      guard-Keeps _ _ _ _ _ λ _.
        >>=-Keeps _ _ _ (update-Keeps room _ valid λ r. ack-messages r _ _) λ answer. pure-Keeps _ _

  pub results-Keeps : (q : Request) → Keeps (IsRelay o) (handle_trigger_results p o q)
  unfolding handle_trigger_results read_room
  results-Keeps q = guard-Keeps _ _ _ _ _ λ _.
      open_room-Keeps q _
        λ room valid. >>=-Keeps _ _ _ (update-Keeps room _ valid λ r. refl) λ page. pure-Keeps _ _

  pub heartbeat-Keeps : (q : Request) (now : ℕ) → Keeps (IsRelay o) (handle_heartbeat p o q now)
  unfolding handle_heartbeat heartbeat
  heartbeat-Keeps q now = guard-Keeps _ _ _ _ _ λ _. open_room-Keeps q _ λ room valid.
      guard-Keeps _ _ _ _ _ λ _.
        >>=-Keeps _ _ _ (or_raise-Keeps _ _ _ _)
          λ sent. >>=-Keeps _ _ _ (update-Keeps room _ valid λ r. refl) λ joined. pure-Keeps _ _

  leave-messages :
      (throws : String → Bool) (r : RoomState) (participant : String)
      → (leave throws r participant).0.messages ≡ r.messages
  unfolding leave
  leave-messages throws r participant = ground arith

  pub presence-Keeps : (q : Request) (now : ℕ) → Keeps (IsRelay o) (handle_presence p o q now)
  unfolding handle_presence get_presence delete_presence prune_presence
  presence-Keeps q now =
      open_room-Keeps q _
        λ room valid. by_method room valid (str_eq q.method "GET") (str_eq q.method "DELETE")
    where
      by_method :
          (room : String)
          → is_valid_room_name room ≡ true
          → (is_get is_delete : Bool)
          → Keeps (IsRelay o) (
              if is_get
              then get_presence p o room now
              else if is_delete
              then delete_presence p o q room
              else raise 405 "method not allowed")
      by_method room valid true is_delete =
          >>=-Keeps _ _ _ (update-Keeps room _ valid λ r. refl) λ participants. pure-Keeps _ _
      by_method room valid false true = guard-Keeps _ _ _ _ _ λ _.
          >>=-Keeps _ _ _ (update-Keeps room _ valid λ r. leave-messages _ r _)
            λ removed. pure-Keeps _ _
      by_method room valid false false = raise-Keeps _ _ _ _

  pr_id-Keeps : (q : Request) → Keeps (IsRelay o) (pr_id_of p o q)
  unfolding pr_id_of
  pr_id-Keeps q = guard-Keeps _ _ _ _ _ λ _. guard-Keeps _ _ _ _ _ λ _. pure-Keeps _ _

  pub refuse-Keeps : (verdict : Verified) → Keeps (IsRelay o) (or_refuse p o verdict)
  refuse-Keeps (refused reason) = raise-Keeps _ _ _ _
  refuse-Keeps (verified signature) = pure-Keeps _ _

  verify_review-IsRelay :
      (q : Request) (sender room pr_id verdict : String) (now : ℕ) (s : Relay)
      → IsRelay o s
      → IsRelay o (verify_review p o q sender room pr_id verdict now s).0
  unfolding verify_review
  verify_review-IsRelay q sender room pr_id verdict now s h = record {
    distinct = h.distinct;
    rooms = h.rooms;
    exchange = h.exchange;
    records = h.records;
    engine = h.engine;
  }

  post_review-Keeps :
      (q : Request) (room : String) (now : ℕ)
      → is_valid_room_name room ≡ true
      → Keeps (IsRelay o) (post_review p o q room now)
  unfolding post_review submit_review
  post_review-Keeps q room now valid = guard-Keeps _ _ _ _ _ λ _.
      >>=-Keeps _ _ _ (pr_id-Keeps q) λ pr_id. >>=-Keeps _ _ _ (or_raise-Keeps _ _ _ _) λ verdict.
        >>=-Keeps _ _ _ (run-Keeps _ _ (verify_review-IsRelay q _ room pr_id _ now)) λ check.
          >>=-Keeps _ _ _ (refuse-Keeps check) λ signature.
            >>=-Keeps _ _ _ (update-Keeps room _ valid λ r. refl) λ answer. pure-Keeps _ _

  pub review-Keeps : (q : Request) (now : ℕ) → Keeps (IsRelay o) (handle_review p o q now)
  unfolding handle_review get_reviews read_room
  review-Keeps q now =
      open_room-Keeps q _
        λ room valid. by_method room valid (str_eq q.method "GET") (str_eq q.method "POST")
    where
      by_method :
          (room : String)
          → is_valid_room_name room ≡ true
          → (is_get is_post : Bool)
          → Keeps (IsRelay o) (
              if is_get
              then get_reviews p o q room
              else if is_post
              then post_review p o q room now
              else raise 405 "method not allowed")
      by_method room valid true is_post =
          >>=-Keeps _ _ _ (pr_id-Keeps q)
            λ pr_id. >>=-Keeps _ _ _ (update-Keeps room _ valid λ r. refl) λ reviews. pure-Keeps _ _
      by_method room valid false true = post_review-Keeps q room now valid
      by_method room valid false false = raise-Keeps _ _ _ _
