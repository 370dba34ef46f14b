-- ===== src/Relay/Restore/RoundTrip.antt =====
-- A snapshot of the relay restores it (src/memory_handler.ts).
use bit_relay.Prelude.{
  ℕ, ◌<◌, ◌≡◌, refl, ap, sym, subst, some, ◌∙◌, ltb, length, ◌||◌, true, [], ◌∷◌, arith, All,
}
use bit_relay.Map
use bit_relay.Map.{Map}
use bit_relay.Map.Listed.{listed, get-listed_own, IsOwn}
use bit_relay.Json.{arr, obj, Items, nil, cons, Fields, end, field, prop}
use bit_relay.Room.{RoomState}
use bit_relay.IssueSync.{Engine}
use bit_relay.IssueSync.Snapshot
use bit_relay.IssueSync.Snapshot.{snapshot_deliveries, items_of}
use bit_relay.IssueSync.RoundTrip.{IsName, SameEngine}
use bit_relay.IssueSync.RoundTrip as Engines
use bit_relay.Relay.{RelayOptions, Relay}
use bit_relay.Relay.Invariant.{IsNamedRoom, IsRelay}
use bit_relay.Relay.Snapshot as Stored
use bit_relay.Relay.Snapshot.{
  to_fields, snapshot_room, identity_fields, exchange_field, json_of_exchange, optional_fields,
  webhook_field,
}
use bit_relay.Relay.Restore.{identity_of_fields, exchange_of, engine_of, restore_from, restore}
use bit_relay.Relay.StoredRooms.{put_all, restore_room, record_entries}
use bit_relay.Relay.Restore.Same.{SameRelay, restored_rooms, rooms-Both, nonces-SameEntries}
use bit_relay.Relay.Restore.Loops.{put_all-listed}
use bit_relay.Relay.Restore.Rooms.{IsStoredRoom, restored_from, room-Reads}
use bit_relay.Relay.Restore.Keys.{IsStoredIdentity, identity_from, restore_identity-fields}
use bit_relay.Relay.Restore.Records.{IsStoredRecord, exchange-Reads}

-- What a relay holds that a snapshot keeps: names with no white space around them and none of them
-- `__proto__`, nothing expired, and an exchange that has recorded
-- something.
pub record IsStorable (o : RelayOptions) (now : ℕ) (s : Relay) : Type 0 where
  pub own_rooms : IsOwn s.rooms
  pub rooms : All (λ e. IsStoredRoom o.presence_ttl_sec now e.1) s.rooms
  pub identity : IsStoredIdentity o.identity.nonce_ttl_sec now s.identity
  pub records : All IsStoredRecord s.exchange.records
  pub recorded : 0 < s.exchange.cursor
  pub own_deliveries : IsOwn s.github_issue_sync.delivery_ids
  pub deliveries : All (λ d. IsName d.0) s.github_issue_sync.delivery_ids
  pub dlq : All Engines.IsStored s.github_issue_sync.dlq

module _ (o : RelayOptions) (now : ℕ) where
  rooms-Reads :
      (rooms : Map RoomState)
      → All (IsNamedRoom o.max_messages_per_room) rooms
      → All (λ e. IsStoredRoom o.presence_ttl_sec now e.1) rooms
      → All (λ e. restore_room o now (e.0, snapshot_room e.1) ≡ some (e.0, restored_from e.1)) rooms
  rooms-Reads [] w h = tt
  rooms-Reads ((room, r) ∷ rooms) (named, w) (here, h) =
      (room-Reads o now (room, r) named here, rooms-Reads rooms w h)

  -- The webhook's part is left out only where the engine is empty.
  part-engine :
      (deliveries : Fields) (dlq : Items)
      → engine_of o now (
          prop "github_webhook"
            (webhook_field (obj (field "deliveries" (obj deliveries) (field "dlq" (arr dlq) end)))))
        ≡ Snapshot.restore o.github_issue_sync now
            (obj (field "deliveries" (obj deliveries) (field "dlq" (arr dlq) end)))
  unfolding engine_of webhook_field prop Map.get Snapshot.restore Snapshot.restore_deliveries
      Snapshot.restore_dlq
  part-engine end nil = refl
  part-engine end (cons v vs) = refl
  part-engine (field k v fs) dlq = refl

  engine-Reads :
      (e : Engine)
      → engine_of o now (prop "github_webhook" (webhook_field (Snapshot.snapshot e)))
        ≡ Snapshot.restore o.github_issue_sync now (Snapshot.snapshot e)
  unfolding Snapshot.snapshot
  engine-Reads e = part-engine _ _

  tail-webhook :
      (issue_cursors webhook : Fields)
      → prop "github_webhook" (optional_fields "issue_cursors" issue_cursors webhook)
        ≡ prop "github_webhook" webhook
  unfolding prop Map.get
  tail-webhook end webhook = refl
  tail-webhook (field k v fs) webhook = refl

  module _ (issue_cursors : Fields) (s : Relay) (w : IsRelay o s) (h : IsStorable o now s) where
    written : (ltb 0 (length s.exchange.records) || ltb 0 s.exchange.cursor) ≡ true
    written = ground (arith, h.recorded)

    restored-rooms :
        put_all
          (restore_room o now)
          (record_entries (prop "rooms" (Stored.snapshot issue_cursors s)))
          []
        ≡ restored_rooms s.rooms
    unfolding Stored.snapshot prop Map.get
    restored-rooms =
        put_all-listed (restore_room o now) snapshot_room restored_from s.rooms w.distinct
          (rooms-Reads s.rooms w.rooms h.rooms)

    restored-identity :
        identity_of_fields o.identity.nonce_ttl_sec now (Stored.snapshot issue_cursors s)
        ≡ identity_from s.identity
    unfolding identity_of_fields Stored.snapshot identity_fields prop Map.get
    restored-identity =
        restore_identity-fields o.identity.nonce_ttl_sec now s.identity end h.identity

    restored-exchange :
        (rooms : Map RoomState)
        → exchange_of o rooms (prop "cache_exchange" (Stored.snapshot issue_cursors s)) ≡ s.exchange
    unfolding Stored.snapshot identity_fields exchange_field prop Map.get
    restored-exchange rooms =
        rw (exchange_field, written) (exchange-Reads o rooms s.exchange w.exchange h.records)

    restored-sync :
        engine_of o now (prop "github_webhook" (Stored.snapshot issue_cursors s))
        ≡ record s.github_issue_sync { delivery_ids = listed s.github_issue_sync.delivery_ids }
    unfolding Stored.snapshot identity_fields exchange_field prop Map.get
    restored-sync =
        rw (exchange_field, written)
          (ap (engine_of o now) (tail-webhook issue_cursors _)
            ∙ engine-Reads s.github_issue_sync
            ∙ Engines.restored-engine o.github_issue_sync now s.github_issue_sync w.engine
                h.deliveries h.dlq)

    restored_as :
        (before : Relay)
        → restore o now (obj (Stored.snapshot issue_cursors s)) before ≡ record before {
          rooms = restored_rooms s.rooms;
          identity = identity_from s.identity;
          exchange = s.exchange;
          github_issue_sync = record s.github_issue_sync {
            delivery_ids = listed s.github_issue_sync.delivery_ids;
          };
        }
    unfolding restore restore_from
    restored_as before =
        rw
          (
            restored-rooms,
            restored-identity,
            restored-exchange (restored_rooms s.rooms),
            restored-sync,
          )
          refl

    same-listed :
        (before : Relay)
        → SameRelay s (record before {
          rooms = restored_rooms s.rooms;
          identity = identity_from s.identity;
          exchange = s.exchange;
          github_issue_sync = record s.github_issue_sync {
            delivery_ids = listed s.github_issue_sync.delivery_ids;
          };
        })
    same-listed before = record {
      rooms = λ room. rooms-Both o.presence_ttl_sec now s.rooms room w.distinct h.own_rooms h.rooms;
      keys = λ k.
          sym (get-listed_own k s.identity.key_registry h.identity.senders h.identity.own_senders);
      nonces = λ sender.
          nonces-SameEntries o.identity.nonce_ttl_sec now s.identity.nonces_by_sender sender
            h.identity.nonce_senders h.identity.own_nonce_senders h.identity.nonces;
      exchange = refl;
      engine = record {
        deliveries = λ k.
            sym (get-listed_own k s.github_issue_sync.delivery_ids w.engine.0.0 h.own_deliveries);
        dlq = refl;
        dlq_order = refl;
      };
    }

    -- A snapshot of a well-formed relay, restored, gives back what the relay held, whatever was there
    -- before: each room under its name, disconnected, with its log, presence and reviews in their
    -- order and the same acknowledgements; each sender's key; each sender's nonces with their
    -- times; the exchange; and the webhook engine, its failed deliveries in order. What a restore
    -- does not touch, such as the rate counters, stays as it was before. The order of rooms, consumers,
    -- senders, nonces and deliveries is not claimed, since an object lists array indices first.
    -- The conditions: the relay is well formed and nothing in it has expired. Ids and senders of
    -- messages are not empty; consumers, acknowledged ids, participants, senders and nonces stand once
    -- each; participants, reviewers, acknowledged ids, public keys, origins, delivery ids and events are
    -- trimmed, and senders and nonces are not blank. A request that is stored has a valid id and a
    -- review. An exchange record has a valid room and
    -- topic, a positive cursor and positive hops, and the exchange's cursor is positive. No room,
    -- consumer, sender, nonce or delivery is called `__proto__`.
    pub restore-relay_snapshot :
        (before : Relay)
        → (let after = restore o now (obj (Stored.snapshot issue_cursors s)) before in
            SameRelay s after
            × (after ≡ record before {
              rooms = after.rooms;
              identity = after.identity;
              exchange = after.exchange;
              github_issue_sync = after.github_issue_sync;
            }))
    restore-relay_snapshot before =
        subst
          (λ after.
            SameRelay s after
            × (after ≡ record before {
              rooms = after.rooms;
              identity = after.identity;
              exchange = after.exchange;
              github_issue_sync = after.github_issue_sync;
            }))
          (sym (restored_as before)) (same-listed before, refl)
