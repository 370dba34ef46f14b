-- ===== src/Relay/Peers.antt =====
-- handleCacheExchangePull and handleCacheExchangePush (src/memory_handler.ts).
use bit_relay.Prelude.{
  ℕ, ◌+◌, not, ◌&&◌, List, [], ◌∷◌, ◌++◌, Option, none, some, String, str_eq, if◌then◌else◌, leb,
  ◌==◌,
}
use Prim.Native.String
use bit_relay.Text.{is_empty}
use bit_relay.Json.{Json, arr, items, Fields, prop, as_record}
use bit_relay.Http.{
  Platform, Request, normalize_limit, normalize_after, query_of, room_token_refused, auth_refused,
}
use bit_relay.Room.{PublishResult, is_valid_room_name, is_valid_topic, find_envelope_by_id}
use bit_relay.CacheExchange.{
  IncomingExchangeEntry, ParsedEntry, parse_incoming_cache_exchange_entry, CacheExchangeCollision,
  duplicate, conflict, classify_cache_exchange_collision, select_cache_exchange_entries,
}
use bit_relay.Relay.{
  RelayOptions, Relay, RejectionReason, PushCounts, invalid_room, invalid_topic, loop_origin,
  max_hops_reached, Response, error_response, pull_body, push_body, room_of, publish_and_record,
}
use bit_relay.Relay.Action.{next, reply, Action, ◌>>=◌, ◌>>◌, pure, raise, raise_if, or_raise, gets}

abbrev pub no_counts : PushCounts
no_counts = record { accepted = 0; duplicates = 0; conflicts = 0; rejections = [] }

abbrev pub reject : PushCounts → RejectionReason → PushCounts
reject c reason = record c { rejections = c.rejections ++ reason ∷ [] }

abbrev pub accept : PushCounts → PushCounts
accept c = record c { accepted = c.accepted + 1 }

abbrev pub add_duplicate : PushCounts → PushCounts
add_duplicate c = record c { duplicates = c.duplicates + 1 }

abbrev pub count_collision : CacheExchangeCollision → PushCounts → PushCounts
count_collision duplicate c = add_duplicate c
count_collision conflict c = record c { conflicts = c.conflicts + 1 }

abbrev pub count_result : PublishResult → PushCounts → PushCounts
count_result result c = elim result.envelope [
  | some envelope ↦ accept c
  | none ↦ if result.status == 200 then add_duplicate c else reject c invalid_topic
]

abbrev pub or_empty_text : Option String → String
or_empty_text none = ""
or_empty_text (some s) = s

abbrev pub listed_entries : Option Json → Option (List Json)
listed_entries (some (arr vs)) = some (items vs)
listed_entries _ = none

abbrev pub object_of : Option Json → Option Fields
object_of none = none
object_of (some v) = as_record v

abbrev pub given : String → Option String
given s = if is_empty s then none else some s

module _ (p : Platform) (o : RelayOptions) where
  -- An entry whose room has no envelope with its id is published under its own origin and hops.
  unfoldable pub push_new : Relay → PushCounts → IncomingExchangeEntry → Relay × PushCounts
  unfolding publish_and_record
  push_new s c entry =
      let e = entry.envelope in
      let (s', result) =
        publish_and_record p o s e.room e.sender e.topic e.id (or_empty_text e.signature) e.payload
          entry.origin entry.hop_count entry.max_hops in
      (s', count_result result c)

  unfoldable pub push_checked : Relay → PushCounts → IncomingExchangeEntry → Relay × PushCounts
  unfolding find_envelope_by_id classify_cache_exchange_collision push_new
  push_checked s c entry =
      elim (find_envelope_by_id (room_of s.rooms entry.envelope.room).messages entry.envelope.id) [
        | none ↦ push_new s c entry
        | some existing ↦ (
          s,
          count_collision (classify_cache_exchange_collision p.number_text existing entry.envelope)
              c,
        )
      ]

  -- One entry: the reply where the room's token refuses it, or the counts.
  unfoldable pub push_entry : Request → PushCounts → IncomingExchangeEntry → Action PushCounts
  unfolding is_valid_room_name is_valid_topic room_token_refused push_checked
  push_entry q c entry s =
      if not (is_valid_room_name entry.envelope.room)
      then (s, next (reject c invalid_room))
      else if not (is_valid_topic entry.envelope.topic)
      then (s, next (reject c invalid_topic))
      else if room_token_refused o.room_tokens q entry.envelope.room
      then (s, reply (error_response 403 "forbidden"))
      else if str_eq entry.origin o.relay_node_id
      then (s, next (reject c loop_origin))
      else if leb entry.max_hops entry.hop_count
      then (s, next (reject c max_hops_reached))
      else let (s', c') = push_checked s c entry in (s', next c')

  abbrev pub invalid_entry : ℕ → String → String
  invalid_entry i reason =
      String.◌++◌ "invalid entry at index "
        (String.◌++◌ (p.integer_text i) (String.◌++◌ ": " reason))

  -- The loop from index `i` on. An error returns at once and keeps what earlier entries did.
  unfoldable pub push_entries : Request → ℕ → List Json → PushCounts → Action PushCounts
  unfolding parse_incoming_cache_exchange_entry push_entry
  push_entries q i [] c = pure c
  push_entries q i (value ∷ values) c =
      elim (parse_incoming_cache_exchange_entry value o.cache_exchange_max_hops) [
        | ParsedEntry.error reason ↦ raise 400 (invalid_entry i reason)
        | ParsedEntry.ok entry ↦ push_entry q c entry >>= push_entries q (i + 1) values
      ]

  unfoldable pub handle_cache_exchange_push : Request → Action Response
  unfolding prop auth_refused push_entries
  handle_cache_exchange_push q = do
    raise_if (not (str_eq q.method "POST")) 405 "method not allowed"
    raise_if (auth_refused o.peer_auth_token q) 401 "unauthorized"
    fs ← or_raise (object_of (p.json_parse q.body)) 400 "invalid json payload"
    values ← or_raise (listed_entries (prop "entries" fs)) 400 "missing field: entries"
    counts ← push_entries q 0 values no_counts
    cursor ← gets (λ s. s.exchange.cursor)
    pure (record { status = 200; body = push_body counts cursor })

  abbrev pub pull_page : ℕ → ℕ → Option String → Option String → Relay → Response
  unfolding select_cache_exchange_entries
  pull_page after limit peer room s =
      let (entries, cursor) =
        select_cache_exchange_entries s.exchange.records
          (record { after = after; limit = limit; peer = peer; room = room }) in
      record { status = 200; body = pull_body cursor entries }

  unfoldable pub handle_cache_exchange_pull : Request → Action Response
  unfolding auth_refused query_of room_token_refused normalize_after normalize_limit
      is_valid_room_name
  handle_cache_exchange_pull q = do
    raise_if (not (str_eq q.method "GET")) 405 "method not allowed"
    raise_if (auth_refused o.peer_auth_token q) 401 "unauthorized"
    let room = query_of q "room"
    raise_if (not (is_empty room) && not (is_valid_room_name room)) 400 "invalid room"
    raise_if (not (is_empty room) && room_token_refused o.room_tokens q room) 403 "forbidden"
    gets (
        pull_page (normalize_after (q.query "after") 0) (normalize_limit (q.query "limit") 100)
          (given (query_of q "peer")) (given room))
