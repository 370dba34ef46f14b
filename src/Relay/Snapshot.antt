-- ===== src/Relay/Snapshot.antt =====
-- snapshot and identitySnapshot of the relay's service (src/memory_handler.ts). A snapshot is the
-- JSON value that is stored. The objects that hold one property for each room, consumer, sender or
-- nonce list them in the order of JavaScript; payloads hold finite numbers, so that
-- `JSON.parse(JSON.stringify(x))` is `x`.
use bit_relay.Prelude.{
  ℕ, ltb, length, ◌||◌, if◌then◌else◌, List, [], ◌∷◌, ◌++◌, map, Option, none, some, String,
}
use bit_relay.Map.{Map}
use bit_relay.Map.Listed.{listed}
use bit_relay.Json.{Json, null, str, arr, obj, Items, nil, cons, Fields, end, field, prop}
use bit_relay.Room.{Envelope, PresenceRecord, ReviewRecord, ReviewVerdict, approve, deny, RoomState}
use bit_relay.Identity.{KeyStatus, active, revoked, KeyRecord, Identity}
use bit_relay.CacheExchange.{CacheExchangeRecord, Exchange}
use bit_relay.IssueSync.Snapshot
use bit_relay.IssueSync.Snapshot.{json_nat}
use bit_relay.Relay.{Relay}

module _ {ℓ} {V : Type ℓ} where
  abbrev pub to_items : (V → Json) → List V → Items
  to_items f [] = nil
  to_items f (v ∷ vs) = cons (f v) (to_items f vs)

  abbrev pub to_fields : (V → Json) → Map V → Fields
  to_fields f [] = end
  to_fields f ((k, v) ∷ m) = field k (f v) (to_fields f m)

  abbrev pub values : Map V → List V
  values [] = []
  values ((k, v) ∷ m) = v ∷ values m

abbrev pub nullable {ℓ} : {A : Type ℓ} → (A → Json) → Option A → Json
nullable f none = null
nullable f (some a) = f a

unfoldable pub json_of_envelope : Envelope → Json
json_of_envelope e = obj (
    field "room" (str e.room) (
      field "id" (str e.id) (
        field "sender" (str e.sender) (
          field "topic" (str e.topic)
            (field "payload" e.payload (field "signature" (nullable str e.signature) end))))))

abbrev pub json_of_ids : List String → Json
json_of_ids ids = arr (to_items str ids)

unfoldable pub json_of_presence : PresenceRecord → Json
json_of_presence r = obj (
    field "participant_id" (str r.participant_id) (
      field "status" (str r.status)
        (field "metadata" r.metadata (field "last_heartbeat" (json_nat r.last_heartbeat) end))))

abbrev pub verdict_text : ReviewVerdict → String
verdict_text approve = "approve"
verdict_text deny = "deny"

unfoldable pub json_of_review : String × ReviewRecord → Json
json_of_review (pr_id, r) = obj (
    field "sender" (str r.sender) (
      field "verdict" (str (verdict_text r.verdict)) (
        field "pr_id" (str pr_id) (
          field "submitted_at" (json_nat r.submitted_at)
            (field "updated_at" (json_nat r.updated_at) end)))))

-- The reviews of all requests, in one list.
abbrev pub review_rows : Map (Map ReviewRecord) → List (String × ReviewRecord)
review_rows [] = []
review_rows ((pr_id, senders) ∷ m) = map (λ r. (pr_id, r)) (values senders) ++ review_rows m

-- `...(items.length > 0 ? { name: items } : {})`
abbrev pub optional_items : String → Items → Fields → Fields
optional_items name nil rest = rest
optional_items name (cons v vs) rest = field name (arr (cons v vs)) rest

unfoldable pub snapshot_room : RoomState → Json
unfolding json_of_envelope json_of_presence json_of_review
snapshot_room r = obj (
    field "messages" (arr (to_items json_of_envelope r.messages)) (
      field "acks_by_consumer" (obj (to_fields json_of_ids (listed r.acks_by_consumer))) (
        optional_items "presence" (to_items json_of_presence (values r.presence_by_participant))
          (optional_items "reviews" (to_items json_of_review (review_rows r.reviews_by_pr)) end))))

abbrev pub status_text : KeyStatus → String
status_text active = "active"
status_text revoked = "revoked"

unfoldable pub json_of_key : KeyRecord → Json
json_of_key k = obj (
    field "public_key" (str k.public_key) (
      field "status" (str (status_text k.status)) (
        field "first_seen_at" (json_nat k.first_seen_at) (
          field "last_seen_at" (json_nat k.last_seen_at) (
            field "rotated_at" (nullable json_nat k.rotated_at) (
              field "revoked_at" (nullable json_nat k.revoked_at) (
                field "github_username" (nullable str k.github_username)
                  (field "github_verified_at" (nullable json_nat k.github_verified_at) end))))))))

abbrev pub json_of_nonces : Map ℕ → Json
json_of_nonces nonces = obj (to_fields json_nat (listed nonces))

-- The fields that both snapshots hold.
unfoldable pub identity_fields : Identity → Fields → Fields
unfolding json_of_key
identity_fields s rest =
    field "keys_by_sender" (obj (to_fields json_of_key (listed s.key_registry)))
      (field "nonces_by_sender" (obj (to_fields json_of_nonces (listed s.nonces_by_sender))) rest)

unfoldable pub identity_snapshot : Identity → Json
unfolding identity_fields
identity_snapshot s = obj (identity_fields s end)

unfoldable pub json_of_record : CacheExchangeRecord → Json
unfolding json_of_envelope
json_of_record r = obj (
    field "cursor" (json_nat r.cursor) (
      field "envelope" (json_of_envelope r.envelope) (
        field "origin" (str r.origin)
          (field "hop_count" (json_nat r.hop_count) (field "max_hops" (json_nat r.max_hops) end)))))

unfoldable pub json_of_exchange : Exchange → Json
unfolding json_of_record
json_of_exchange x = obj (
    field "cursor" (json_nat x.cursor)
      (field "records" (arr (to_items json_of_record x.records)) end))

-- An exchange that never held a record is left out.
unfoldable pub exchange_field : Exchange → Fields → Fields
unfolding json_of_exchange
exchange_field x rest =
    if ltb 0 (length x.records) || ltb 0 x.cursor
    then field "cache_exchange" (json_of_exchange x) rest
    else rest

abbrev pub optional_fields : String → Fields → Fields → Fields
optional_fields name end rest = rest
optional_fields name (field k v fs) rest = field name (obj (field k v fs)) rest

-- The webhook's part, left out where it holds no delivery and no entry.
abbrev pub webhook_part : Option Json → Option Json → Json → Fields
webhook_part (some (obj end)) (some (arr nil)) whole = end
webhook_part deliveries dlq whole = field "github_webhook" whole end

unfoldable pub webhook_field : Json → Fields
unfolding prop
webhook_field (obj fs) = webhook_part (prop "deliveries" fs) (prop "dlq" fs) (obj fs)
webhook_field _ = end

-- The cursors of the issue cache are given by the adapter.
unfoldable pub snapshot : (issue_cursors : Fields) → Relay → Fields
unfolding snapshot_room identity_fields exchange_field webhook_field Snapshot.snapshot
snapshot issue_cursors s = field "rooms" (obj (to_fields snapshot_room (listed s.rooms))) (
    identity_fields s.identity (
      exchange_field s.exchange (
        optional_fields "issue_cursors" issue_cursors
          (webhook_field (Snapshot.snapshot s.github_issue_sync)))))
