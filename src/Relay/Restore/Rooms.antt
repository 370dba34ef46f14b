-- ===== src/Relay/Restore/Rooms.antt =====
-- The restoring of rooms (src/memory_handler.ts): log, acknowledgements, presence and reviews are read
-- back from their snapshot; sockets are not stored.

use bit_relay.Prelude.{
  ℕ, ◌+◌, ◌≤◌, ◌<◌, ◌≡◌, refl, ap, sym, ◌∙◌, subst, ltb, leb, ◌||◌, if◌then◌else◌, true, false,
  List, [], ◌∷◌, ◌++◌, some, String, arith, length, All, append-nil, append_assoc,
}
use bit_relay.Map
use bit_relay.Map.{Map}
use bit_relay.Map.Listed.{listed, IsOwn}
use bit_relay.Text.{trim, is_empty, matches_name}
use bit_relay.Json.{Items, nil, cons, Fields, end, str, prop, items, entries}
use bit_relay.Room.{
  Envelope, PresenceRecord, RoomState, includes, is_valid_topic, trim_log, array_items,
}
use bit_relay.IssueSync.RoundTrip.{IsName}
use bit_relay.Relay.{RelayOptions}
use bit_relay.Relay.Invariant.{IsNamedRoom}
use bit_relay.Relay.Snapshot.{
  to_items, values, json_of_envelope, json_of_ids, json_of_presence, json_of_review, review_rows,
  optional_items, snapshot_room,
}
use bit_relay.Relay.StoredRooms.{
  room_of_parts, restore_message, restore_ids, restore_acks, restore_presence, restored_room,
  restore_room,
}
use bit_relay.Relay.Restore.Loops.{
  read_all-Reads, put_all-Reads, put_all-listed, map_values_id, items-Reads, values-Reads, All-map,
}
use bit_relay.Relay.Restore.Keys.{text-nullable}
use bit_relay.Relay.Restore.Reviews.{IsStoredRequest, reviews-Reads}

abbrev pub IsStoredMessage : Envelope → Type 0
IsStoredMessage e = (is_empty e.id ≡ false) × (is_empty e.sender ≡ false)

-- Each text is a name that is not among those before it.
abbrev pub IsTextSet : (before : List String) → List String → Type 0
IsTextSet before [] = Unit
IsTextSet before (s ∷ ss) = IsName s × (includes before s ≡ false) × IsTextSet (before ++ s ∷ []) ss

-- A participant under their own name, not expired.
abbrev pub IsStoredPresence : (ttl now : ℕ) → String × PresenceRecord → Type 0
IsStoredPresence ttl now (id, r) =
    (r.participant_id ≡ id) × IsName id × (now < r.last_heartbeat + ttl)

pub record IsStoredRoom (ttl now : ℕ) (r : RoomState) : Type 0 where
  pub messages : All IsStoredMessage r.messages
  pub consumers : Map.Distinct r.acks_by_consumer
  pub own_consumers : IsOwn r.acks_by_consumer
  pub acks : All (λ e. IsTextSet [] e.1) r.acks_by_consumer
  pub participants : Map.Distinct r.presence_by_participant
  pub presence : All (IsStoredPresence ttl now) r.presence_by_participant
  pub requests : Map.Distinct r.reviews_by_pr
  pub reviews : All IsStoredRequest r.reviews_by_pr

-- The room as a restore leaves it: nobody is connected, and the consumers stand as they were listed.
abbrev pub restored_from : RoomState → RoomState
restored_from r = record r { acks_by_consumer = listed r.acks_by_consumer; sessions = [] }

topic-filled : (s : String) → is_valid_topic s ≡ true → is_empty s ≡ false
unfolding is_valid_topic matches_name
topic-filled String.[] h = absurd (ground arith)
topic-filled (String.◌∷◌ c s) h = refl

message-Reads :
    (room : String) (e : Envelope)
    → IsStoredMessage e
    → is_valid_topic e.topic ≡ true
    → restore_message room (json_of_envelope e) ≡ some e
unfolding restore_message json_of_envelope prop Map.get
message-Reads room e (id, sender) topic =
    rw (id, sender, topic-filled e.topic topic, text-nullable e.signature) refl

messages-Reads :
    (room : String) (es : List Envelope)
    → All IsStoredMessage es
    → All (λ e. is_valid_topic e.topic ≡ true) es
    → All (λ e. restore_message room (json_of_envelope e) ≡ some e) es
messages-Reads room [] h topics = tt
messages-Reads room (e ∷ es) (here, h) (topic, topics) =
    (message-Reads room e here topic, messages-Reads room es h topics)

ids-Reads :
    (ids before : List String)
    → IsTextSet before ids
    → restore_ids (items (to_items str ids)) before ≡ before ++ ids
unfolding restore_ids
ids-Reads [] before h = sym (append-nil before)
ids-Reads (s ∷ ss) before (name, new, h) =
    let filled : is_empty (trim s) ≡ false = rw (name.0) name.1 in
    let new' : includes before (trim s) ≡ false = rw (name.0) new in
    let next : (if is_empty (trim s) || includes before (trim s)
          then before
          else before ++ trim s ∷ [])
        ≡ before ++ s ∷ [] =
      rw (filled, new') (ap (λ q. before ++ q ∷ []) name.0) in
    ap (restore_ids (items (to_items str ss))) next
    ∙ ids-Reads ss (before ++ s ∷ []) h
    ∙ append_assoc before (s ∷ []) ss

acks-Reads :
    (e : String × List String) → IsTextSet [] e.1 → restore_acks (e.0, json_of_ids e.1) ≡ some e
unfolding restore_acks
acks-Reads (consumer, ids) h = ap (λ q. some (consumer, q)) (ids-Reads ids [] h)

module _ (ttl now : ℕ) where
  presence-Reads :
      (e : String × PresenceRecord)
      → IsStoredPresence ttl now e
      → restore_presence ttl now (json_of_presence e.1) ≡ some e
  unfolding restore_presence json_of_presence prop Map.get
  presence-Reads (id, r) (own, name, fresh) =
      let name' = subst IsName (sym own) name in
      let filled : is_empty (trim r.participant_id) ≡ false = rw (name'.0) name'.1 in
      let kept : leb (r.last_heartbeat + ttl) now ≡ false = ground (arith, fresh) in
      rw (filled, kept, name'.0) (ap (λ s. some (s, r)) own)

-- The lists that a room's snapshot leaves out where they are empty.
abbrev pub optional_lists : (presence reviews : Items) → Fields
optional_lists presence reviews =
    optional_items "presence" presence (optional_items "reviews" reviews end)

optional-presence :
    (presence reviews : Items)
    → array_items (Map.get "presence" (entries (optional_lists presence reviews))) ≡ items presence
unfolding Map.get
optional-presence nil nil = refl
optional-presence nil (cons v vs) = refl
optional-presence (cons v vs) reviews = refl

optional-reviews :
    (presence reviews : Items)
    → array_items (Map.get "reviews" (entries (optional_lists presence reviews))) ≡ items reviews
unfolding Map.get
optional-reviews nil nil = refl
optional-reviews nil (cons v vs) = refl
optional-reviews (cons w ws) nil = refl
optional-reviews (cons w ws) (cons v vs) = refl

log-kept : (most : ℕ) (es : List Envelope) → length es ≤ most → trim_log most es ≡ es
unfolding trim_log
log-kept most es le = let short : ltb most (length es) ≡ false = ground (arith, le) in rw short refl

module _ (o : RelayOptions) (now : ℕ) where
  pub room-Reads :
      (e : String × RoomState)
      → IsNamedRoom o.max_messages_per_room e
      → IsStoredRoom o.presence_ttl_sec now e.1
      → restore_room o now (e.0, snapshot_room e.1) ≡ some (e.0, restored_from e.1)
  unfolding restore_room room_of_parts restored_room snapshot_room prop Map.get
  room-Reads (room, r) w h =
      let presence = to_items json_of_presence (values r.presence_by_participant) in
      let reviews = to_items json_of_review (review_rows r.reviews_by_pr) in
      let messages =
        read_all-Reads (restore_message room) (items (to_items json_of_envelope r.messages))
          r.messages
          (items-Reads _ json_of_envelope r.messages
            (messages-Reads room r.messages h.messages w.room.topics)) in
      let acks =
        put_all-listed restore_acks json_of_ids (λ ids. ids) r.acks_by_consumer h.consumers
          (All-map acks-Reads r.acks_by_consumer h.acks)
        ∙ map_values_id (listed r.acks_by_consumer) in
      let present =
        put_all-Reads (restore_presence o.presence_ttl_sec now) (items presence)
          r.presence_by_participant []
          (values-Reads _ json_of_presence r.presence_by_participant
            (All-map (presence-Reads o.presence_ttl_sec now) r.presence_by_participant h.presence))
          h.participants in
      let reviewed = reviews-Reads r.reviews_by_pr [] h.reviews h.requests in
      rw
        (
          w.name,
          messages,
          log-kept o.max_messages_per_room r.messages w.room.within,
          acks,
          optional-presence presence reviews,
          present,
          optional-reviews presence reviews,
          reviewed,
        )
        refl
