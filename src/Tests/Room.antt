-- ===== src/Tests/Room.antt =====
-- Rooms: publish, poll and inbox.
use bit_relay.Prelude.{
  eq_iff, ◌≡◌, refl, false, List, [], ◌∷◌, map, Option, some, String, arith, keep,
}
use bit_relay.Map
use bit_relay.Text.{trim}
use bit_relay.Json.{Json, null, str, arr, obj, nil, cons, end, field}
use bit_relay.Room.{
  Envelope, RoomState, published, create_room_state, is_valid_topic, publish_into_room,
  poll_from_room, sanitize_envelope, trim_log, pending_of, parse_ack_ids, ok, ack_into_room, acked,
}
use bit_relay.Room.Publish.{
  IsRoom, Publish, publish, publish_all, accepted_all, newest, history_after,
  publish_all-keeps_newest,
}
use bit_relay.Room.Poll.{poll_stuck_at_bound, poll_loop, poll_loop-reads_all}
use bit_relay.Room.Inbox.{pending_from, ack-pending_of}

abbrev message : String → String → Publish
message id topic = record {
  room = "main";
  sender = "ann";
  topic = topic;
  id = id;
  signature = " sig ";
  payload = null;
}

abbrev stored : String → Envelope
stored id = record {
  room = "main";
  id = id;
  sender = "ann";
  topic = "notify";
  payload = null;
  signature = some "sig";
}

abbrev two_messages : RoomState
two_messages = record create_room_state { messages = stored "a" ∷ stored "b" ∷ [] }

-- A full room drops its oldest message; a repeated id and a bad topic change nothing.
publish_tests :
    ((publish 2 two_messages (message "c" "notify")).0.messages ≡ stored "b" ∷ stored "c" ∷ [])
    × ((publish 2 two_messages (message "b" "notify")).1.body ≡ published false 2)
    × ((publish 2 two_messages (message "c" "Notify")).1.status ≡ 400)
unfolding publish_into_room is_valid_topic trim_log trim
publish_tests = (refl, refl, refl)

two_messages-IsRoom : IsRoom 2 two_messages
unfolding is_valid_topic
two_messages-IsRoom = record {
  ids = (refl, (refl, tt));
  topics = (refl, (refl, tt));
  within = omega arith;
}

abbrev three : List Publish
three = message "a" "notify" ∷ message "b" "notify" ∷ message "c" "notify" ∷ []

publish_all-keeps_newest_example :
    ((publish_all 2 create_room_state three).messages ≡ newest 2 (history_after 2 three []))
    × (accepted_all 2 create_room_state three ≡ history_after 2 three [])
publish_all-keeps_newest_example = publish_all-keeps_newest 2 create_room_state three refl

poll_stuck_at_bound_example :
    poll_from_room (publish_all 2 two_messages three) 2 10
    ≡ record { next_cursor = 2; envelopes = [] }
poll_stuck_at_bound_example =
    poll_stuck_at_bound 2 two_messages three 2 10 two_messages-IsRoom (omega arith)

poll_loop-reads_all_example :
    poll_loop 3 two_messages 0 1 ≡ map sanitize_envelope (stored "a" ∷ stored "b" ∷ [])
poll_loop-reads_all_example = poll_loop-reads_all two_messages 0 1 3 (omega arith) (omega arith)

abbrev ack_request : Option Json
ack_request = some (obj (field "id" (str " a ") (field "ids" (arr (cons (str "a") nil)) end)))

parse_ack_ids_test : parse_ack_ids ack_request ≡ ok ("a" ∷ [])
unfolding parse_ack_ids
parse_ack_ids_test = refl

ack_tests :
    ((ack_into_room two_messages "bob" ack_request).1 ≡ (200, acked 1 1 1))
    × (pending_of (ack_into_room two_messages "bob" ack_request).0 "bob" ≡ stored "b" ∷ [])
unfolding ack_into_room keep Map.get Map.set
ack_tests = (refl, refl)

ack-pending_of_example :
    let r' = (ack_into_room two_messages "bob" ack_request).0 in
    (pending_of r' "bob" ≡ pending_from ("a" ∷ []) (pending_of two_messages "bob"))
    × (pending_of r' "eve" ≡ pending_of two_messages "eve")
ack-pending_of_example =
    ack-pending_of two_messages "bob" "eve" ack_request ("a" ∷ []) parse_ack_ids_test
      (λ e. ground (arith, eq_iff "bob" "eve"))
