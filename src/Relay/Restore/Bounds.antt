-- ===== src/Relay/Restore/Bounds.antt =====
-- What a restore (src/memory_handler.ts) leaves, whatever JSON value was stored.
use bit_relay.Prelude.{
  ℕ, ◌+◌, ◌≤◌, ◌≡◌, ◌-◌, max, refl, subst, true, List, [], ◌∷◌, ◌++◌, Option, none, some, String,
  arith, length, All, Bool-cases, Option-cases, inl, inr,
}
use bit_relay.Map
use bit_relay.Map.{Map}
use bit_relay.Map.Keys.{set-All}
use bit_relay.Json.{Json, arr, obj, Fields, prop, items, as_record}
use bit_relay.Room.{Envelope, RoomState, is_valid_room_name}
use bit_relay.Room.Log.{trim_log-eq-drop, length-trim_log, drop-All, All-append}
use bit_relay.CacheExchange.{
  CacheExchangeRecord, Exchange, append_cache_exchange_record, record_cache_exchange,
}
use bit_relay.Relay.{RelayOptions, Relay}
use bit_relay.Relay.Restore.{
  restore_record, restore_records, restore_exchange, record_messages, record_rooms,
  exchange_of_records, exchange_of, restore_from, restore_fields, restore,
}
use bit_relay.Relay.StoredRooms.{
  put_all, read_all, read_fields, record_entries, restored_room, room_of_parts, restore_room,
}
use bit_relay.Relay.Restore.Loops.{All-map}

-- What is read satisfies a predicate.
abbrev pub Holds {ℓ} : {B : Type ℓ} → (B → Type 0) → Option B → Type 0
Holds P none = Unit
Holds P (some b) = P b

read_fields-Holds :
    {B : Type 0} (P : B → Type 0) (value : Option Fields) (f : Fields → Option B)
    → ((fs : Fields) → Holds P (f fs))
    → Holds P (read_fields value f)
read_fields-Holds P none f h = tt
read_fields-Holds P (some fs) f h = h fs

module _ {A V : Type 0} (f : A → Option (String × V)) (P : String × V → Type 0) where
  pub put_all-All :
      ((a : A) → Holds P (f a)) → (more : List A) (m : Map V) → All P m → All P (put_all f more m)
  unfolding put_all
  put_all-All h [] m all = all
  put_all-All h (a ∷ more) m all = elim (Option-cases (f a)) [
    | inl passed ↦ rw (passed, put_all) (put_all-All h more m all)
    | inr ((k, v), read) ↦
        rw (read, put_all)
          (put_all-All h more (Map.set k v m) (set-All P k v m (subst (Holds P) read (h a)) all))
  ]

pub put_all-Distinct :
    {A V : Type 0} (f : A → Option (String × V)) (more : List A) (m : Map V)
    → Map.Distinct m
    → Map.Distinct (put_all f more m)
unfolding put_all
put_all-Distinct f [] m d = d
put_all-Distinct f (a ∷ more) m d = elim (Option-cases (f a)) [
  | inl passed ↦ rw (passed, put_all) (put_all-Distinct f more m d)
  | inr ((k, v), read) ↦
      rw (read, put_all) (put_all-Distinct f more (Map.set k v m) (Map.set-Distinct k v m d))
]

-- A room under a valid name whose log is within its bound.
abbrev pub IsBoundedRoom : (most : ℕ) → String × RoomState → Type 0
IsBoundedRoom most (room, r) =
    (is_valid_room_name room ≡ true) × (length r.messages ≤ most) × (r.sessions ≡ [])

-- Records within their bound, none ahead of the cursor.
abbrev pub IsBoundedExchange : (most : ℕ) → Exchange → Type 0
IsBoundedExchange most x = (length x.records ≤ most) × All (λ r. r.cursor ≤ x.cursor) x.records

pub record IsRestored (o : RelayOptions) (s : Relay) : Type 0 where
  pub distinct : Map.Distinct s.rooms
  pub rooms : All (IsBoundedRoom o.max_messages_per_room) s.rooms
  pub exchange : IsBoundedExchange o.cache_exchange_max_records s.exchange

module _ (o : RelayOptions) (now : ℕ) where
  parts-Holds :
      (room : String) (fs : Fields) (messages acks : Option Json)
      → is_valid_room_name room ≡ true
      → Holds (IsBoundedRoom o.max_messages_per_room) (room_of_parts o now room fs messages acks)
  unfolding room_of_parts restored_room
  parts-Holds room fs (some (arr messages)) (some (obj acks)) valid =
      (valid, length-trim_log o.max_messages_per_room _, refl)
  parts-Holds room fs _ _ valid = tt

  room-Holds :
      (e : String × Json) → Holds (IsBoundedRoom o.max_messages_per_room) (restore_room o now e)
  unfolding restore_room
  room-Holds (room, value) = elim (Bool-cases (is_valid_room_name room)) [
    | inr bad ↦ rw bad tt
    | inl valid ↦ rw valid (
        read_fields-Holds (IsBoundedRoom o.max_messages_per_room) (as_record value) _
          λ fs. parts-Holds room fs (prop "messages" fs) (prop "acks_by_consumer" fs) valid)
  ]

  -- The bound of a record grows with the cursor.
  append-Bounded :
      (x : Exchange) (r : CacheExchangeRecord) (cursor : ℕ)
      → All (λ q. q.cursor ≤ cursor) x.records
      → r.cursor ≤ cursor
      → (length (append_cache_exchange_record o.cache_exchange_max_records x r).records
          ≤ o.cache_exchange_max_records)
        × All
            (λ q. q.cursor ≤ cursor)
            (append_cache_exchange_record o.cache_exchange_max_records x r).records
  unfolding append_cache_exchange_record
  append-Bounded x r cursor h le =
      let longer = x.records ++ r ∷ [] in
      (
        length-trim_log o.cache_exchange_max_records longer,
        rw (trim_log-eq-drop o.cache_exchange_max_records longer) (
            drop-All _ (length longer - o.cache_exchange_max_records) longer
              (All-append _ x.records (r ∷ []) h (le, tt))),
      )

  raise-All :
      (low high : ℕ) (rs : List CacheExchangeRecord)
      → low ≤ high
      → All (λ q. q.cursor ≤ low) rs
      → All (λ q. q.cursor ≤ high) rs
  raise-All low high rs le h = All-map (λ r below. omega (arith, le, below)) rs h

  records-Bounded :
      (rs : List CacheExchangeRecord) (x : Exchange) (n : ℕ)
      → length x.records ≤ o.cache_exchange_max_records
      → All (λ q. q.cursor ≤ n) x.records
      → (length (restore_records o rs x n).0.records ≤ o.cache_exchange_max_records)
        × All (λ q. q.cursor ≤ (restore_records o rs x n).1) (restore_records o rs x n).0.records
  unfolding restore_records
  records-Bounded [] x n le h = (le, h)
  records-Bounded (r ∷ rs) x n le h =
      let top = max r.cursor n in
      let longer =
        append-Bounded x r top (raise-All n top x.records (omega arith) h) (omega arith) in
      records-Bounded rs (append_cache_exchange_record o.cache_exchange_max_records x r) top
        longer.0 longer.1

  record-Bounded :
      (x : Exchange) (e : Envelope)
      → IsBoundedExchange o.cache_exchange_max_records x
      → IsBoundedExchange o.cache_exchange_max_records (
          record_cache_exchange o.cache_exchange_max_records x e o.relay_node_id 0
            o.cache_exchange_max_hops)
  unfolding record_cache_exchange append_cache_exchange_record
  record-Bounded x e (le, h) =
      append-Bounded (record x { cursor = x.cursor + 1 })
        (record {
          cursor = x.cursor + 1;
          envelope = e;
          origin = o.relay_node_id;
          hop_count = 0;
          max_hops = o.cache_exchange_max_hops;
        })
        (x.cursor + 1) (raise-All x.cursor (x.cursor + 1) x.records (omega arith) h) (omega arith)

  messages-Bounded :
      (es : List Envelope) (x : Exchange)
      → IsBoundedExchange o.cache_exchange_max_records x
      → IsBoundedExchange o.cache_exchange_max_records (record_messages o es x)
  unfolding record_messages
  messages-Bounded [] x h = h
  messages-Bounded (e ∷ es) x h = messages-Bounded es _ (record-Bounded x e h)

  rooms-Bounded :
      (rooms : Map RoomState) (x : Exchange)
      → IsBoundedExchange o.cache_exchange_max_records x
      → IsBoundedExchange o.cache_exchange_max_records (record_rooms o rooms x)
  unfolding record_rooms
  rooms-Bounded [] x h = h
  rooms-Bounded ((room, r) ∷ rooms) x h = rooms-Bounded rooms _ (messages-Bounded r.messages x h)

  -- The exchange with no record.
  empty-Bounded :
      IsBoundedExchange o.cache_exchange_max_records (record { records = []; cursor = 0 })
  empty-Bounded = (omega arith, tt)

  stored-Bounded :
      (rooms : Map RoomState) (fs : Fields) (records : Option Json)
      → IsBoundedExchange o.cache_exchange_max_records (exchange_of_records o rooms fs records)
  unfolding exchange_of_records restore_exchange
  stored-Bounded rooms fs (some (arr records)) =
      let rs = read_all (restore_record o.cache_exchange_max_hops) (items records) in
      let (le, h) = records-Bounded rs (record { records = []; cursor = 0 }) 0 (omega arith) tt in
      (le, raise-All _ _ _ (omega arith) h)
  stored-Bounded rooms fs _ = rooms-Bounded rooms _ empty-Bounded

  exchange-Bounded :
      (rooms : Map RoomState) (value : Option Json)
      → IsBoundedExchange o.cache_exchange_max_records (exchange_of o rooms value)
  unfolding exchange_of
  exchange-Bounded rooms (some (obj fs)) = stored-Bounded rooms fs (prop "records" fs)
  exchange-Bounded rooms _ = rooms-Bounded rooms _ empty-Bounded

  fields-IsRestored :
      (value : Option Fields) (s : Relay) → IsRestored o (restore_fields o now value s)
  unfolding restore_fields restore_from
  fields-IsRestored none s = record { distinct = tt; rooms = tt; exchange = empty-Bounded }
  fields-IsRestored (some fs) s = record {
    distinct = put_all-Distinct (restore_room o now) (record_entries (prop "rooms" fs)) [] tt;
    rooms =
        put_all-All (restore_room o now) (IsBoundedRoom o.max_messages_per_room) room-Holds
          (record_entries (prop "rooms" fs)) [] tt;
    exchange =
        exchange-Bounded (put_all (restore_room o now) (record_entries (prop "rooms" fs)) [])
          (prop "cache_exchange" fs);
  }

  -- Whatever value is restored: each room stands once, under a valid name, disconnected and with its
  -- log within its bound, and the exchange is within its bound with no record ahead of its cursor.
  pub restore-IsRestored : (value : Json) (s : Relay) → IsRestored o (restore o now value s)
  unfolding restore
  restore-IsRestored value s = fields-IsRestored (as_record value) s
