-- ===== src/Relay/Preserve/Publish.antt =====
-- A publish and a trigger callback keep the relay well formed (src/memory_handler.ts).
use bit_relay.Prelude.{
  ℕ, ◌<◌, ◌≡◌, inr, refl, Bool, true, false, not, String, arith, Bool-cases, inl,
}
use bit_relay.Json.{Json}
use bit_relay.Http.{Platform, Request}
use bit_relay.Room.{is_valid_room_name}
use bit_relay.Text.{is_empty}
use bit_relay.Identity.{Identity}
use bit_relay.Relay.{RelayOptions, Relay}
use bit_relay.Relay.Action.{run}
use bit_relay.Relay.Publish.{
  count_ip, count_sender, count_room, verify_publish, publish_own, handle_publish,
  handle_trigger_callback,
}
use bit_relay.Relay.Keeps.{Keeps, pure-Keeps, run-Keeps, or_raise-Keeps, >>=-Keeps, guard-Keeps}
use bit_relay.Relay.Invariant.{IsRelay, publish-IsRelay}
use bit_relay.Relay.Preserve.Rooms.{refuse-Keeps}

-- The keys and the rate counts play no part in it.
pub identity-IsRelay :
    (o : RelayOptions) (s : Relay) (identity : Identity)
    → IsRelay o s
    → IsRelay o (record s { identity = identity })
identity-IsRelay o s identity h = record {
  distinct = h.distinct;
  rooms = h.rooms;
  exchange = h.exchange;
  records = h.records;
  engine = h.engine;
}

module _ (p : Platform) (o : RelayOptions) where
  count_ip-IsRelay :
      (ip : String) (now : ℕ) (s : Relay) → IsRelay o s → IsRelay o (count_ip o ip now s).0
  unfolding count_ip
  count_ip-IsRelay ip now s h = elim (Bool-cases (is_empty ip)) [
    | inl unknown ↦ rw unknown h
    | inr known ↦ rw known (record {
      distinct = h.distinct;
      rooms = h.rooms;
      exchange = h.exchange;
      records = h.records;
      engine = h.engine;
    })
  ]

  count_sender-IsRelay :
      (sender : String) (now : ℕ) (s : Relay)
      → IsRelay o s
      → IsRelay o (count_sender o sender now s).0
  unfolding count_sender
  count_sender-IsRelay sender now s h = record {
    distinct = h.distinct;
    rooms = h.rooms;
    exchange = h.exchange;
    records = h.records;
    engine = h.engine;
  }

  count_room-IsRelay :
      (room : String) (now : ℕ) (s : Relay) → IsRelay o s → IsRelay o (count_room o room now s).0
  unfolding count_room
  count_room-IsRelay room now s h = record {
    distinct = h.distinct;
    rooms = h.rooms;
    exchange = h.exchange;
    records = h.records;
    engine = h.engine;
  }

  verify-IsRelay :
      (q : Request) (sender room id topic : String) (payload : Json) (now : ℕ) (s : Relay)
      → IsRelay o s
      → IsRelay o (verify_publish p o q sender room id topic payload now s).0
  unfolding verify_publish
  verify-IsRelay q sender room id topic payload now s h = identity-IsRelay o s _ h

  own-Keeps :
      (room sender topic id signature : String) (payload : Json)
      → is_valid_room_name room ≡ true
      → 0 < o.cache_exchange_max_hops
      → Keeps (IsRelay o) (run (publish_own p o room sender topic id signature payload))
  unfolding publish_own
  own-Keeps room sender topic id signature payload valid hops = run-Keeps (IsRelay o) _ λ s h.
      publish-IsRelay o p s room sender topic id signature payload o.relay_node_id 0
        o.cache_exchange_max_hops valid hops (inr refl) h

  pub valid_of : (b : Bool) → not b ≡ false → b ≡ true
  valid_of true h = refl
  valid_of false h = absurd (ground arith)

  pub publish-Keeps :
      (q : Request) (now_ms now_sec : ℕ) (fresh_id : String)
      → 0 < o.cache_exchange_max_hops
      → Keeps (IsRelay o) (handle_publish p o q now_ms now_sec fresh_id)
  unfolding handle_publish
  publish-Keeps q now_ms now_sec fresh_id hops = guard-Keeps _ _ _ _ _ λ _.
      guard-Keeps _ _ _ _ _ λ _. guard-Keeps _ _ _ _ _ λ valid. guard-Keeps _ _ _ _ _ λ _.
        >>=-Keeps _ _ _ (run-Keeps _ _ (count_ip-IsRelay _ now_ms)) λ _. guard-Keeps _ _ _ _ _ λ _.
          >>=-Keeps _ _ _ (run-Keeps _ _ (count_sender-IsRelay _ now_ms)) λ _.
            guard-Keeps _ _ _ _ _ λ _.
              >>=-Keeps _ _ _ (run-Keeps _ _ (count_room-IsRelay _ now_ms)) λ _.
                guard-Keeps _ _ _ _ _ λ _. guard-Keeps _ _ _ _ _ λ _. guard-Keeps _ _ _ _ _ λ _.
                  >>=-Keeps _ _ _ (or_raise-Keeps _ _ _ _) λ parsed.
                    >>=-Keeps _ _ _ (run-Keeps _ _ (verify-IsRelay q _ _ _ _ _ now_sec)) λ verdict.
                      >>=-Keeps _ _ _ (refuse-Keeps p o verdict) λ signature.
                        >>=-Keeps _ _ _ (own-Keeps _ _ _ _ _ _ (valid_of _ valid) hops)
                          λ result. pure-Keeps _ _

  pub callback-Keeps :
      (q : Request) (now : ℕ) (fresh_id : String)
      → 0 < o.cache_exchange_max_hops
      → Keeps (IsRelay o) (handle_trigger_callback p o q now fresh_id)
  unfolding handle_trigger_callback
  callback-Keeps q now fresh_id hops = guard-Keeps _ _ _ _ _ λ _.
      >>=-Keeps _ _ _ (or_raise-Keeps _ _ _ _) λ fs. guard-Keeps _ _ _ _ _ λ _.
        guard-Keeps _ _ _ _ _ λ _. guard-Keeps _ _ _ _ _ λ valid. guard-Keeps _ _ _ _ _ λ _.
          >>=-Keeps _ _ _ (own-Keeps _ _ _ _ _ _ (valid_of _ valid) hops) λ result. pure-Keeps _ _
