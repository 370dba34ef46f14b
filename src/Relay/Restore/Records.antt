-- ===== src/Relay/Restore/Records.antt =====
-- The restoring of the exchange (src/memory_handler.ts): its records are read back from their
-- snapshot with the cursor.
use bit_relay.Prelude.{
  ℕ, ◌≤◌, ◌<◌, ◌≡◌, max, refl, ap, sym, ◌∙◌, subst, ltb, true, false, List, [], ◌∷◌, ◌++◌, some,
  arith, length, All, append-nil, append_assoc, length-append, ◌==◌,
}
use bit_relay.Map
use bit_relay.Text.{trim, is_empty}
use bit_relay.Json.{prop, items}
use bit_relay.Room.{RoomState, is_valid_room_name, is_valid_topic, trim_log}
use bit_relay.CacheExchange.{CacheExchangeRecord, Exchange, append_cache_exchange_record}
use bit_relay.CacheExchange.Kept.{Between, IsExchange}
use bit_relay.IssueSync.RoundTrip.{IsName}
use bit_relay.Relay.{RelayOptions}
use bit_relay.Relay.Snapshot.{to_items, json_of_envelope, json_of_record, json_of_exchange}
use bit_relay.Relay.Restore.{
  restore_record, record_of_fields, restore_records, restore_exchange, exchange_of,
}
use bit_relay.Relay.Restore.Loops.{read_all-Reads, items-Reads, All-map}
use bit_relay.Relay.Restore.Keys.{text-nullable}

-- What may stand in the exchange of this relay and be read back.
pub record IsStoredRecord (r : CacheExchangeRecord) : Type 0 where
  pub origin : IsName r.origin
  pub room : is_valid_room_name r.envelope.room ≡ true
  pub id : is_empty r.envelope.id ≡ false
  pub sender : is_empty r.envelope.sender ≡ false
  pub topic : is_valid_topic r.envelope.topic ≡ true
  pub cursor : 0 < r.cursor
  pub max_hops : 0 < r.max_hops

record-Reads :
    (most_hops : ℕ) (r : CacheExchangeRecord)
    → IsStoredRecord r
    → restore_record most_hops (json_of_record r) ≡ some r
unfolding restore_record record_of_fields json_of_record json_of_envelope prop Map.get
record-Reads most_hops r h =
    let started : (r.cursor == 0) ≡ false = ground (arith, h.cursor) in
    let hops : max 1 r.max_hops ≡ r.max_hops = omega (arith, h.max_hops) in
    let filled : is_empty (trim r.origin) ≡ false = rw (h.origin.0) h.origin.1 in
    rw
      (
        started,
        filled,
        h.room,
        h.id,
        h.sender,
        h.topic,
        h.origin.0,
        hops,
        text-nullable r.envelope.signature,
      )
      refl

module _ (o : RelayOptions) where
  abbrev greatest : List CacheExchangeRecord → ℕ → ℕ
  greatest [] n = n
  greatest (r ∷ rs) n = greatest rs (max r.cursor n)

  Between-le : (low high : ℕ) (rs : List CacheExchangeRecord) → Between low high rs → low ≤ high
  Between-le low high [] h = h
  Between-le low high (r ∷ rs) (up, h) = omega (arith, up, Between-le r.cursor high rs h)

  greatest-Between :
      (low high n : ℕ) (rs : List CacheExchangeRecord)
      → Between low high rs
      → n ≤ high
      → greatest rs n ≤ high
  greatest-Between low high n [] h le = le
  greatest-Between low high n (r ∷ rs) (up, h) le =
      greatest-Between r.cursor high (max r.cursor n) rs h
        (omega (arith, Between-le r.cursor high rs h))

  -- A log within its bound is not cut.
  appended :
      (x : Exchange) (r : CacheExchangeRecord)
      → length (x.records ++ r ∷ []) ≤ o.cache_exchange_max_records
      → append_cache_exchange_record o.cache_exchange_max_records x r
        ≡ record x { records = x.records ++ r ∷ [] }
  unfolding append_cache_exchange_record trim_log
  appended x r le =
      let short : ltb o.cache_exchange_max_records (length (x.records ++ r ∷ [])) ≡ false =
        ground (arith, le) in
      rw short refl

  restored-records :
      (rs : List CacheExchangeRecord) (x : Exchange) (n : ℕ)
      → length (x.records ++ rs) ≤ o.cache_exchange_max_records
      → restore_records o rs x n ≡ (record x { records = x.records ++ rs }, greatest rs n)
  unfolding restore_records
  restored-records [] x n le = rw (append-nil x.records) refl
  restored-records (r ∷ rs) x n le =
      let shifted = append_assoc x.records (r ∷ []) rs in
      let short : length (x.records ++ r ∷ []) ≤ o.cache_exchange_max_records =
        omega (arith, le, length-append x.records (r ∷ []), length-append x.records (r ∷ rs)) in
      rw (appended x r short) (
        restored-records rs (record x { records = x.records ++ r ∷ [] }) (max r.cursor n)
          (subst (λ q. length q ≤ o.cache_exchange_max_records) (sym shifted) le)
        ∙ ap (λ q. (record x { records = q }, greatest rs (max r.cursor n))) shifted)

  -- An exchange that is well formed comes back with its cursor and its records.
  pub exchange-Reads :
      (rooms : Map.Map RoomState) (x : Exchange)
      → IsExchange o.cache_exchange_max_records x
      → All IsStoredRecord x.records
      → exchange_of o rooms (some (json_of_exchange x)) ≡ x
  unfolding exchange_of restore_exchange json_of_exchange prop Map.get
  exchange-Reads rooms x (between, within) h =
      let read =
        read_all-Reads (restore_record o.cache_exchange_max_hops)
          (items (to_items json_of_record x.records)) x.records
          (items-Reads _ json_of_record x.records
            (All-map (record-Reads o.cache_exchange_max_hops) x.records h)) in
      let start : Exchange = record { records = []; cursor = 0 } in
      let all = restored-records x.records start 0 within in
      let cursor : max x.cursor (greatest x.records 0) ≡ x.cursor =
        omega (arith, greatest-Between 0 x.cursor 0 x.records between (omega arith)) in
      rw (read, all, cursor) refl
