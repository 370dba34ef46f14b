-- ===== src/Relay/Accounts.antt =====
-- What a push to the cache exchange reports (handleCacheExchangePush of src/memory_handler.ts).
use bit_relay.Prelude.{
  ℕ, suc, ◌+◌, ◌≡◌, inl, inr, refl, Bool, true, false, List, [], ◌∷◌, Option, some, String, str_eq,
  arith, leb, length, length-append, Bool-cases, Option-cases,
}
use bit_relay.Json.{Json, Items, obj, arr, items, Fields, prop}
use bit_relay.Http.{Platform, Request, room_token_refused}
use bit_relay.Room.{
  PublishResult, RoomState, is_valid_room_name, is_valid_topic, publish_into_room,
  find_envelope_by_id,
}
use bit_relay.CacheExchange.{
  IncomingExchangeEntry, ParsedEntry, parse_incoming_cache_exchange_entry, CacheExchangeCollision,
  duplicate, conflict, record_cache_exchange, append_cache_exchange_record,
}
use bit_relay.Relay.{
  RelayOptions, Relay, RejectionReason, invalid_room, invalid_topic, loop_origin, max_hops_reached,
  Response, PushCounts, push_body, publish_and_record, deliver, room_of,
}
use bit_relay.Relay.Action.{
  Outcome, next, reply, Action, continue, ◌>>=◌, ◌>>◌, pure, raise, raise_if, or_raise, gets,
}
use bit_relay.Relay.Peers.{
  no_counts, reject, or_empty_text, count_collision, count_result, push_new, push_checked,
  push_entry, push_entries, invalid_entry, handle_cache_exchange_push,
}

-- Where an action goes on, its state and value have a property.
abbrev pub Ends {ℓ κ} : {A : Type ℓ} → (Relay → A → Type κ) → Relay × Outcome A → Type κ
Ends Q (s, next a) = Q s a
Ends Q (s, reply response) = Unit

module _ {ℓ κ ℓ' κ'} {A : Type ℓ} {B : Type κ} (Q : Relay → A → Type ℓ')
    (R : Relay → B → Type κ') where
  continue-Ends :
      (k : A → Action B)
      → ((s : Relay) (a : A) → Q s a → Ends R (k a s))
      → (s : Relay) (outcome : Outcome A) → Ends Q (s, outcome)
      → Ends R (continue k s outcome)
  continue-Ends k later s (next a) h = later s a h
  continue-Ends k later s (reply response) h = tt

  pub >>=-Ends :
      (m : Action A) (k : A → Action B) (s : Relay)
      → Ends Q (m s)
      → ((s' : Relay) (a : A) → Q s' a → Ends R (k a s'))
      → Ends R ((m >>= k) s)
  unfolding ◌>>=◌
  >>=-Ends m k s h later = continue-Ends k later (m s).0 (m s).1 h

pub guard-Ends {ℓ κ} :
    {B : Type ℓ} (R : Relay → B → Type κ) (test : Bool) (status : ℕ) (reason : String)
    (k : Action B) (s : Relay)
    → Ends R (k s)
    → Ends R ((raise_if test status reason >> k) s)
unfolding ◌>>=◌ raise_if
guard-Ends R true status reason k s h = tt
guard-Ends R false status reason k s h = h

pub or_raise-Ends {ℓ κ λ'} :
    {A : Type ℓ} {B : Type κ} (R : Relay → B → Type λ') (found : Option A) (status : ℕ)
    (reason : String) (k : A → Action B) (s : Relay) (a : A)
    → found ≡ some a
    → Ends R (k a s)
    → Ends R ((or_raise found status reason >>= k) s)
unfolding ◌>>=◌ or_raise pure
or_raise-Ends R found status reason k s a e h = rw e h

-- The entries that a count covers.
abbrev pub total : PushCounts → ℕ
total c = c.accepted + c.duplicates + c.conflicts + length c.rejections

module _ (p : Platform) (o : RelayOptions) where
  -- `n` more entries are counted, and each accepted one has moved the cursor by one.
  abbrev pub Accounts : ℕ → Relay → PushCounts → Relay → PushCounts → Type 0
  Accounts n s c s' c' =
      (total c' ≡ total c + n) × (s'.exchange.cursor + c.accepted ≡ s.exchange.cursor + c'.accepted)

  rejected-total :
      (c : PushCounts) (reason : RejectionReason) → total (reject c reason) ≡ total c + 1
  rejected-total c reason = omega (arith, length-append c.rejections (reason ∷ []))

  delivered-Accounts :
      (s : Relay) (c : PushCounts) (name : String) (r : RoomState) (origin : String)
      (hop_count max_hops : ℕ) (result : PublishResult)
      → Accounts 1 s c
          (deliver p o s name r origin hop_count max_hops result.envelope)
          (count_result result c)
  unfolding deliver record_cache_exchange append_cache_exchange_record
  delivered-Accounts s c name r origin hop_count max_hops result =
      ground (arith, rejected-total c invalid_topic)

  new-Accounts :
      (s : Relay) (c : PushCounts) (entry : IncomingExchangeEntry)
      → Accounts 1 s c (push_new p o s c entry).0 (push_new p o s c entry).1
  unfolding push_new publish_and_record
  new-Accounts s c entry =
      let e = entry.envelope in
      delivered-Accounts s c e.room _ entry.origin entry.hop_count entry.max_hops
        (publish_into_room (room_of s.rooms e.room) e.room e.sender e.topic e.id
          (or_empty_text e.signature) e.payload o.max_messages_per_room).1

  collision-Accounts :
      (s : Relay) (c : PushCounts) (collision : CacheExchangeCollision)
      → Accounts 1 s c s (count_collision collision c)
  collision-Accounts s c duplicate = (omega arith, omega arith)
  collision-Accounts s c conflict = (omega arith, omega arith)

  checked-Accounts :
      (s : Relay) (c : PushCounts) (entry : IncomingExchangeEntry)
      → Accounts 1 s c (push_checked p o s c entry).0 (push_checked p o s c entry).1
  unfolding push_checked
  checked-Accounts s c entry =
      let e = entry.envelope in
      elim (Option-cases (find_envelope_by_id (room_of s.rooms e.room).messages e.id)) [
        | inl new ↦ rw (push_checked, new) (new-Accounts s c entry)
        | inr (existing, found) ↦ rw (push_checked, found) (collision-Accounts s c _)
      ]

  rejected-Accounts :
      (s : Relay) (c : PushCounts) (reason : RejectionReason) → Accounts 1 s c s (reject c reason)
  rejected-Accounts s c reason = (rejected-total c reason, omega arith)

  entry-Accounts :
      (q : Request) (c : PushCounts) (entry : IncomingExchangeEntry) (s : Relay)
      → Ends (Accounts 1 s c) (push_entry p o q c entry s)
  unfolding push_entry
  entry-Accounts q c entry s =
      let e = entry.envelope in
      elim (Bool-cases (is_valid_room_name e.room)) [
        | inr bad ↦ rw bad (rejected-Accounts s c invalid_room)
        | inl name ↦ elim (Bool-cases (is_valid_topic e.topic)) [
          | inr bad ↦ rw (name, bad) (rejected-Accounts s c invalid_topic)
          | inl topic ↦ elim (Bool-cases (room_token_refused o.room_tokens q e.room)) [
            | inl closed ↦ rw (name, topic, closed) tt
            | inr opened ↦ elim (Bool-cases (str_eq entry.origin o.relay_node_id)) [
              | inl back ↦ rw (name, topic, opened, back) (rejected-Accounts s c loop_origin)
              | inr away ↦ elim (Bool-cases (leb entry.max_hops entry.hop_count)) [
                | inl over ↦
                    rw (name, topic, opened, away, over) (rejected-Accounts s c max_hops_reached)
                | inr under ↦ rw (name, topic, opened, away, under) (checked-Accounts s c entry)
              ]
            ]
          ]
        ]
      ]

  Accounts-trans :
      (n : ℕ) (s s' s'' : Relay) (c c' c'' : PushCounts)
      → Accounts 1 s c s' c'
      → Accounts n s' c' s'' c''
      → Accounts (suc n) s c s'' c''
  Accounts-trans n s s' s'' c c' c'' (here, moved) (later, moved') = (omega arith, omega arith)

  Ends-trans :
      (n : ℕ) (s s' : Relay) (c c' : PushCounts) (outcome : Relay × Outcome PushCounts)
      → Accounts 1 s c s' c'
      → Ends (Accounts n s' c') outcome
      → Ends (Accounts (suc n) s c) outcome
  Ends-trans n s s' c c' (s'', next c'') here later = Accounts-trans n s s' s'' c c' c'' here later
  Ends-trans n s s' c c' (s'', reply response) here later = tt

  -- The counts of the loop over the entries.
  pub entries-Accounts :
      (q : Request) (i : ℕ) (values : List Json) (c : PushCounts) (s : Relay)
      → Ends (Accounts (length values) s c) (push_entries p o q i values c s)
  unfolding push_entries pure raise
  entries-Accounts q i [] c s = (omega arith, omega arith)
  entries-Accounts q i (value ∷ values) c s =
      elim (parse_incoming_cache_exchange_entry value o.cache_exchange_max_hops)
        as (λ x. Ends (Accounts (suc (length values)) s c) (
          (elim x as (λ _. Action PushCounts) [
            | ParsedEntry.error reason ↦ raise 400 (invalid_entry p o i reason)
            | ParsedEntry.ok entry ↦ push_entry p o q c entry >>= push_entries p o q (i + 1) values
          ])
            s)) [
              | ParsedEntry.error reason ↦ tt
              | ParsedEntry.ok entry ↦
                  >>=-Ends (Accounts 1 s c) (Accounts (suc (length values)) s c)
                    (push_entry p o q c entry) (push_entries p o q (i + 1) values) s
                    (entry-Accounts q c entry s)
                    λ s' c' here.
                      Ends-trans (length values) s s' c c' (push_entries p o q (i + 1) values c' s')
                        here (entries-Accounts q (i + 1) values c' s')
            ]

  -- What the reply to a push of some entries says.
  abbrev pub IsReport : List Json → Relay → Relay → Response → Type 0
  IsReport values s s' response = elim response.body [
    | push_body counts cursor ↦
        (total counts ≡ length values)
        × (cursor ≡ s'.exchange.cursor)
        × (cursor ≡ s.exchange.cursor + counts.accepted)
    | _ ↦ ⊥
  ]

  reported :
      (values : List Json) (s s' : Relay) (counts : PushCounts)
      → Accounts (length values) s no_counts s' counts
      → IsReport values s s' (record { status = 200; body = push_body counts s'.exchange.cursor })
  reported values s s' counts (all, moved) = (omega arith, refl, omega arith)

  reply-IsReport :
      (values : List Json) (s s' : Relay) (counts : PushCounts)
      → Accounts (length values) s no_counts s' counts
      → Ends (IsReport values s) (
          (gets (λ x. x.exchange.cursor) >>= λ cursor.
          pure (record { status = 200; body = push_body counts cursor }))
            s')
  unfolding ◌>>=◌ gets pure
  reply-IsReport values s s' counts h = reported values s s' counts h

  -- A push that is answered with counts counts each of its entries once, as accepted, duplicate,
  -- conflict or rejected; the cursor in the answer is the exchange's, which has moved by one for
  -- each accepted entry.
  pub push-IsReport :
      (q : Request) (s : Relay) (fs : Fields) (vs : Items)
      → p.json_parse q.body ≡ some (obj fs)
      → prop "entries" fs ≡ some (arr vs)
      → Ends (IsReport (items vs) s) (handle_cache_exchange_push p o q s)
  unfolding handle_cache_exchange_push
  push-IsReport q s fs vs parsed listed =
      let R = IsReport (items vs) s in
      guard-Ends R _ _ _ _ s (
        guard-Ends R _ _ _ _ s (
          or_raise-Ends R _ _ _ _ s fs (rw parsed refl) (
            or_raise-Ends R _ _ _ _ s (items vs) (rw listed refl) (
              >>=-Ends (Accounts (length (items vs)) s no_counts) R _ _ s
                (entries-Accounts q 0 (items vs) no_counts s) (reply-IsReport (items vs) s)))))
