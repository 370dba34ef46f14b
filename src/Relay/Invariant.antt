-- ===== src/Relay/Invariant.antt =====
-- What a relay's state is at any time (src/memory_handler.ts): the invariants of its rooms, of the
-- exchange and of the webhook's queue, and that a publish keeps them.
use bit_relay.Prelude.{
  ◌-◌, ◌+◌, ℕ, ◌<◌, ◌≡◌, ◌≢◌, ◌⊎◌, inl, inr, refl, true, [], ◌∷◌, ◌++◌, Option, none, some, String,
  arith, length, All, Bool-cases, Option-cases,
}
use bit_relay.Map
use bit_relay.Map.{Map}
use bit_relay.Map.Keys.{set-All, get-All}
use bit_relay.Json.{Json}
use bit_relay.Http.{Platform}
use bit_relay.Room.{
  Envelope, RoomState, create_room_state, is_valid_room_name, is_valid_topic, has_id, new_envelope,
  publish_into_room,
}
use bit_relay.Room.Log.{All-append, drop-All, trim_log-eq-drop}
use bit_relay.Room.Publish.{IsRoom, Publish, publish-IsRoom}
use bit_relay.Review.{broadcast}
use bit_relay.CacheExchange.{
  CacheExchangeRecord, Exchange, record_cache_exchange, append_cache_exchange_record,
}
use bit_relay.CacheExchange.Kept.{IsExchange, record-IsExchange}
use bit_relay.IssueSync.Invariant.{IsEngine}
use bit_relay.Relay.{RelayOptions, Relay, room_of, deliver, publish_and_record}

-- A room stands under a valid name; its log is well formed and holds envelopes of that room.
pub record IsNamedRoom (most : ℕ) (entry : String × RoomState) : Type 0 where
  pub name : is_valid_room_name entry.0 ≡ true
  pub room : IsRoom most entry.1
  pub own : All (λ e. e.room ≡ entry.0) entry.1.messages

-- A record may still travel, and one of this relay's own envelopes has not travelled.
abbrev pub IsRecord : String → CacheExchangeRecord → Type 0
IsRecord node r = (r.hop_count < r.max_hops) × ((r.origin ≢ node) ⊎ (r.hop_count ≡ 0))

pub record IsRelay (o : RelayOptions) (s : Relay) : Type 0 where
  pub distinct : Map.Distinct s.rooms
  pub rooms : All (IsNamedRoom o.max_messages_per_room) s.rooms
  pub exchange : IsExchange o.cache_exchange_max_records s.exchange
  pub records : All (IsRecord o.relay_node_id) s.exchange.records
  pub engine : IsEngine o.github_issue_sync s.github_issue_sync

new_room-IsNamedRoom :
    (most : ℕ) (name : String)
    → is_valid_room_name name ≡ true
    → IsNamedRoom most (name, create_room_state)
new_room-IsNamedRoom most name valid = record {
  name = valid;
  room = record { ids = tt; topics = tt; within = omega arith };
  own = tt;
}

pub room_of-IsNamedRoom :
    (most : ℕ) (rooms : Map RoomState) (name : String)
    → All (IsNamedRoom most) rooms
    → is_valid_room_name name ≡ true
    → IsNamedRoom most (name, room_of rooms name)
room_of-IsNamedRoom most rooms name h valid = elim (Option-cases (Map.get name rooms)) [
  | inl new ↦ rw new (new_room-IsNamedRoom most name valid)
  | inr (r, found) ↦ rw found (get-All _ name r rooms found h)
]

-- A publish leaves the room's log as it was or with the envelope at its end.
published-own :
    (most : ℕ) (r : RoomState) (p : Publish)
    → All (λ e. e.room ≡ p.room) r.messages
    → All
        (λ e. e.room ≡ p.room)
        (publish_into_room r p.room p.sender p.topic p.id p.signature p.payload most).0.messages
unfolding publish_into_room
published-own most r p h = elim (Bool-cases (is_valid_topic p.topic)) [
  | inr bad ↦ rw bad h
  | inl good ↦ elim (Bool-cases (has_id p.id r.messages)) [
    | inl old ↦ rw (good, old) h
    | inr new ↦
        let e = new_envelope p.room p.sender p.topic p.id p.signature p.payload in
        let longer = r.messages ++ e ∷ [] in
        rw (good, new, trim_log-eq-drop most longer)
          (drop-All _ (length longer - most) longer (All-append _ r.messages (e ∷ []) h (refl, tt)))
  ]
]

pub publish-IsNamedRoom :
    (most : ℕ) (r : RoomState) (p : Publish)
    → IsNamedRoom most (p.room, r)
    → IsNamedRoom most
        (p.room, (publish_into_room r p.room p.sender p.topic p.id p.signature p.payload most).0)
publish-IsNamedRoom most r p h = record {
  name = h.name;
  room = publish-IsRoom most r p h.room;
  own = published-own most r p h.own;
}

-- A room's sockets play no part in it.
pub sessions-IsNamedRoom :
    (most : ℕ) (name : String) (r r' : RoomState)
    → r'.messages ≡ r.messages
    → IsNamedRoom most (name, r)
    → IsNamedRoom most (name, r')
sessions-IsNamedRoom most name r r' same h = record {
  name = h.name;
  room = record {
    ids = rw same h.room.ids;
    topics = rw same h.room.topics;
    within = rw same h.room.within;
  };
  own = rw same h.own;
}

module _ (o : RelayOptions) where
  pub set_room-IsRelay :
      (s : Relay) (name : String) (r : RoomState)
      → IsNamedRoom o.max_messages_per_room (name, r)
      → IsRelay o s
      → IsRelay o (record s { rooms = Map.set name r s.rooms })
  set_room-IsRelay s name r room h = record {
    distinct = Map.set-Distinct name r s.rooms h.distinct;
    rooms = set-All _ name r s.rooms room h.rooms;
    exchange = h.exchange;
    records = h.records;
    engine = h.engine;
  }

  longer-All :
      (x : Exchange) (envelope : Envelope) (origin : String) (hop_count max_hops : ℕ)
      → All (IsRecord o.relay_node_id) x.records
      → hop_count < max_hops
      → (origin ≢ o.relay_node_id) ⊎ (hop_count ≡ 0)
      → All
          (IsRecord o.relay_node_id)
          (record_cache_exchange o.cache_exchange_max_records x envelope origin hop_count
            max_hops).records
  unfolding record_cache_exchange append_cache_exchange_record
  longer-All x envelope origin hop_count max_hops h hops own =
      let r : CacheExchangeRecord = record {
        cursor = x.cursor + 1;
        envelope = envelope;
        origin = origin;
        hop_count = hop_count;
        max_hops = max_hops;
      } in
      let longer = x.records ++ r ∷ [] in
      rw (trim_log-eq-drop o.cache_exchange_max_records longer) (
        drop-All _ (length longer - o.cache_exchange_max_records) longer
          (All-append _ x.records (r ∷ []) h ((hops, own), tt)))

  deliver-IsRelay :
      (p : Platform) (s : Relay) (name : String) (r : RoomState) (origin : String)
      (hop_count max_hops : ℕ) (accepted : Option Envelope)
      → IsNamedRoom o.max_messages_per_room (name, r)
      → hop_count < max_hops
      → (origin ≢ o.relay_node_id) ⊎ (hop_count ≡ 0)
      → IsRelay o s
      → IsRelay o (deliver p o s name r origin hop_count max_hops accepted)
  unfolding deliver
  deliver-IsRelay p s name r origin hop_count max_hops none room hops own h =
      set_room-IsRelay s name r room h
  deliver-IsRelay p s name r origin hop_count max_hops (some e) room hops own h =
      let sessions = (broadcast p.send_throws r.sessions).0 in
      let r' : RoomState = record r { sessions = sessions } in
      let kept =
        set_room-IsRelay s name r'
          (sessions-IsNamedRoom o.max_messages_per_room name r r' refl room) h in
      record {
        distinct = kept.distinct;
        rooms = kept.rooms;
        exchange =
            record-IsExchange o.cache_exchange_max_records s.exchange e origin hop_count max_hops
              h.exchange.0;
        records = longer-All s.exchange e origin hop_count max_hops h.records hops own;
        engine = h.engine;
      }

  -- A publish into a room with a valid name keeps the relay well formed, where the envelope may
  -- still travel and has not come back.
  pub publish-IsRelay :
      (p : Platform) (s : Relay) (room sender topic id signature : String) (payload : Json)
      (origin : String) (hop_count max_hops : ℕ)
      → is_valid_room_name room ≡ true
      → hop_count < max_hops
      → (origin ≢ o.relay_node_id) ⊎ (hop_count ≡ 0)
      → IsRelay o s
      → IsRelay o
          (publish_and_record p o s room sender topic id signature payload origin hop_count
            max_hops).0
  unfolding publish_and_record
  publish-IsRelay p s room sender topic id signature payload origin hop_count max_hops valid hops
        own h =
      let call : Publish = record {
        room = room;
        sender = sender;
        topic = topic;
        id = id;
        signature = signature;
        payload = payload;
      } in
      deliver-IsRelay p s room _ origin hop_count max_hops _
        (publish-IsNamedRoom o.max_messages_per_room (room_of s.rooms room) call
          (room_of-IsNamedRoom o.max_messages_per_room s.rooms room h.rooms valid))
        hops own h
