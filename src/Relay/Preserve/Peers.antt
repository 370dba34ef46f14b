-- ===== src/Relay/Preserve/Peers.antt =====
-- A push or a pull of the cache exchange keeps the relay well formed (src/memory_handler.ts).
use bit_relay.Prelude.{
  ℕ, ◌+◌, ◌<◌, ◌≡◌, ◌≢◌, ◌⊎◌, inl, inr, true, List, [], ◌∷◌, str_eq, eq_iff, arith, leb, Bool-cases,
  Option-cases,
}
use bit_relay.Json.{Json}
use bit_relay.Http.{Platform, Request, room_token_refused}
use bit_relay.Room.{is_valid_room_name, is_valid_topic, find_envelope_by_id}
use bit_relay.CacheExchange.{
  IncomingExchangeEntry, ParsedEntry, parse_incoming_cache_exchange_entry,
}
use bit_relay.Relay.{RelayOptions, Relay, PushCounts, room_of}
use bit_relay.Relay.Action.{raise, ◌>>=◌}
use bit_relay.Relay.Peers.{
  push_new, invalid_entry, push_checked, push_entry, push_entries, handle_cache_exchange_push,
  handle_cache_exchange_pull,
}
use bit_relay.Relay.Keeps.{
  Keeps, raise-Keeps, pure-Keeps, gets-Keeps, or_raise-Keeps, >>=-Keeps, guard-Keeps,
}
use bit_relay.Relay.Invariant.{IsRelay, publish-IsRelay}

module _ (p : Platform) (o : RelayOptions) where
  push_checked-IsRelay :
      (s : Relay) (c : PushCounts) (entry : IncomingExchangeEntry)
      → is_valid_room_name entry.envelope.room ≡ true
      → entry.hop_count < entry.max_hops
      → (entry.origin ≢ o.relay_node_id) ⊎ (entry.hop_count ≡ 0)
      → IsRelay o s
      → IsRelay o (push_checked p o s c entry).0
  unfolding push_checked push_new
  push_checked-IsRelay s c entry valid hops own h =
      let e = entry.envelope in
      elim (Option-cases (find_envelope_by_id (room_of s.rooms e.room).messages e.id)) [
        | inl new ↦
            rw (push_checked, new)
              (publish-IsRelay o p s e.room e.sender e.topic e.id _ e.payload entry.origin
                entry.hop_count entry.max_hops valid hops own h)
        | inr (existing, found) ↦ rw (push_checked, found) h
      ]

  push_entry-Keeps :
      (q : Request) (c : PushCounts) (entry : IncomingExchangeEntry)
      → Keeps (IsRelay o) (push_entry p o q c entry)
  unfolding push_entry
  push_entry-Keeps q c entry s h =
      let e = entry.envelope in
      elim (Bool-cases (is_valid_room_name e.room)) [
        | inr bad ↦ rw bad h
        | inl name ↦ elim (Bool-cases (is_valid_topic e.topic)) [
          | inr bad ↦ rw (name, bad) h
          | inl topic ↦ elim (Bool-cases (room_token_refused o.room_tokens q e.room)) [
            | inl closed ↦ rw (name, topic, closed) h
            | inr opened ↦ elim (Bool-cases (str_eq entry.origin o.relay_node_id)) [
              | inl back ↦ rw (name, topic, opened, back) h
              | inr away ↦ elim (Bool-cases (leb entry.max_hops entry.hop_count)) [
                | inl over ↦ rw (name, topic, opened, away, over) h
                | inr under ↦
                    rw (name, topic, opened, away, under)
                      (push_checked-IsRelay s c entry name (ground (arith, under))
                        (inl
                          λ same. ground (arith, eq_iff entry.origin o.relay_node_id, same, away))
                        h)
              ]
            ]
          ]
        ]
      ]

  push_entries-Keeps :
      (q : Request) (i : ℕ) (values : List Json) (c : PushCounts)
      → Keeps (IsRelay o) (push_entries p o q i values c)
  unfolding push_entries
  push_entries-Keeps q i [] c = pure-Keeps _ _
  push_entries-Keeps q i (value ∷ values) c =
      elim (parse_incoming_cache_exchange_entry value o.cache_exchange_max_hops)
        as (λ x. Keeps (IsRelay o) (elim x [
          | ParsedEntry.error reason ↦ raise 400 (invalid_entry p o i reason)
          | ParsedEntry.ok entry ↦ push_entry p o q c entry >>= push_entries p o q (i + 1) values
        ])) [
          | ParsedEntry.error reason ↦ raise-Keeps (IsRelay o) _ _ _
          | ParsedEntry.ok entry ↦
              >>=-Keeps (IsRelay o) (push_entry p o q c entry) (push_entries p o q (i + 1) values)
                (push_entry-Keeps q c entry) (push_entries-Keeps q (i + 1) values)
        ]

  pub push-Keeps : (q : Request) → Keeps (IsRelay o) (handle_cache_exchange_push p o q)
  unfolding handle_cache_exchange_push
  push-Keeps q = guard-Keeps _ _ _ _ _ λ _. guard-Keeps _ _ _ _ _ λ _.
      >>=-Keeps _ _ _ (or_raise-Keeps _ _ _ _) λ fs.
        >>=-Keeps _ _ _ (or_raise-Keeps _ _ _ _) λ values.
          >>=-Keeps _ _ _ (push_entries-Keeps q 0 values _)
            λ counts. >>=-Keeps _ _ _ (gets-Keeps _ _) λ cursor. pure-Keeps _ _

  pub pull-Keeps : (q : Request) → Keeps (IsRelay o) (handle_cache_exchange_pull p o q)
  unfolding handle_cache_exchange_pull
  pull-Keeps q = guard-Keeps _ _ _ _ _ λ _.
      guard-Keeps _ _ _ _ _
        λ _. guard-Keeps _ _ _ _ _ λ _. guard-Keeps _ _ _ _ _ λ _. gets-Keeps _ _
