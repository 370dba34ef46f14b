-- ===== src/IssueCache/Writes.antt =====
-- The cursors of rooms and persistEnvelope of the cache adapter (src/relay_cache_adapter.ts). A cached
-- object is written with the JSON value of its record.
use Prim.Native.String
use bit_relay.Prelude.{
  ℕ, ◌+◌, ◌-◌, max, zero, suc, Bool, true, false, Option, none, some, String, if◌then◌else◌,
}
use bit_relay.Map
use bit_relay.Map.{Map}
use bit_relay.Json.{Json}
use bit_relay.Http.{Platform}
use bit_relay.Room.{Envelope}
use bit_relay.CacheStore.{CacheStoreKind, object, issue}
use bit_relay.Signing.{canonicalize_json}
use bit_relay.Relay.Snapshot.{json_of_envelope}
use bit_relay.IssueProjection.{
  IssueCacheEventRecord, is_issue_topic, issue_event_storage_key, issue_snapshot_storage_key,
  issue_cursor_storage_key, extract_issue_id_from_envelope, derive_issue_action,
}
use bit_relay.IssueProjection.Records.{
  parse_issue_cache_snapshot_record, parse_issue_source_updated_at_ms, json_of_event,
  json_of_snapshot, json_of_cursor,
}
use bit_relay.IssueCache.{
  Lookup, found, Cache, AdapterOptions, parse_issue_source, should_update_snapshot_by_source_policy,
  or_zero, Adapter, Persist, ◌>>=◌, ◌>>◌, pure, cursor_in_memory, cursor_of_lookup,
}

-- The queue runs the task until it succeeds, at most once more for each retry that is left.
unfoldable pub run_task :
    {S : Type 0} → (retries : ℕ) → Persist S (Unit {0}) → Adapter S → Adapter S
run_task zero task s = (task s).0
run_task (suc retries) task s =
    let (s', outcome) = task s in elim outcome [ some _ ↦ s' | none ↦ run_task retries task s' ]

module _ {S : Type 0} (cache : Cache S) where
  unfoldable pub current_issue_cursor : String → Adapter S → Adapter S × ℕ
  unfolding cursor_in_memory cursor_of_lookup issue_cursor_storage_key Map.set
  current_issue_cursor room s =
      let (store, cached) = cache.get s.store object (issue_cursor_storage_key room) in
      let current = max (cursor_in_memory room s) (cursor_of_lookup room cached) in
      (
        record s {
          issue_cursor_by_room = Map.set room current s.issue_cursor_by_room;
          store = store;
        },
        current,
      )

  -- The hint is the room's cursor after the publish.
  unfoldable pub next_issue_cursor :
      String → (room_cursor_hint : Option ℕ) → Adapter S → Adapter S × ℕ
  unfolding current_issue_cursor Map.set
  next_issue_cursor room room_cursor_hint s =
      let (s', current) = current_issue_cursor room s in
      let next = max current (or_zero room_cursor_hint - 1) + 1 in
      (record s' { issue_cursor_by_room = Map.set room next s'.issue_cursor_by_room }, next)

  unfoldable pub allocate : String → Option ℕ → Persist S ℕ
  unfolding next_issue_cursor
  allocate room hint s = let (s', cursor) = next_issue_cursor room hint s in (s', some cursor)

  module _ (p : Platform) (o : AdapterOptions) (now : ℕ) where
    unfoldable pub put_cache_json_object :
        CacheStoreKind → (key room ref : String) → Json → Persist S (Unit {0})
    unfolding canonicalize_json
    put_cache_json_object kind key room ref value s =
        let (store, stored) = cache.put s.store (record {
          kind = kind;
          key = key;
          value = value;
          room = room;
          ref = ref;
          content_hash = p.sha256_hex (canonicalize_json p.number_text value);
          updated_at = now;
        }) in
        (record s { store = store }, if stored then some tt else none)

    -- Whether the cached snapshot gives way; where it cannot be read, it does.
    unfoldable pub should_update : Envelope → Option ℕ → Lookup → Bool
    unfolding parse_issue_cache_snapshot_record should_update_snapshot_by_source_policy
        parse_issue_source
    should_update envelope time (found body) = elim (parse_issue_cache_snapshot_record body) [
      | none ↦ true
      | some existing ↦
          should_update_snapshot_by_source_policy o.issue_source_of_truth
            (parse_issue_source p envelope.payload) (parse_issue_source p existing.envelope.payload)
            time existing.source_updated_at_ms
    ]
    should_update envelope time _ = true

    unfoldable pub read_should_update : Envelope → (issue_id : String) → Option ℕ → Persist S Bool
    unfolding should_update issue_snapshot_storage_key
    read_should_update envelope issue_id time s =
        let (store, existing) =
          cache.get s.store object (issue_snapshot_storage_key envelope.room issue_id) in
        (record s { store = store }, some (should_update envelope time existing))

    -- The snapshot of the issue, where it is to be updated.
    unfoldable pub put_snapshot :
        Envelope
        → (issue_id : String) → Option ℕ
        → (cursor : ℕ) → (update : Bool) → Persist S (Unit {0})
    unfolding put_cache_json_object issue_snapshot_storage_key json_of_snapshot pure
    put_snapshot envelope issue_id time cursor false = pure tt
    put_snapshot envelope issue_id time cursor true =
        put_cache_json_object object (issue_snapshot_storage_key envelope.room issue_id)
          envelope.room "issue_snapshot"
          (json_of_snapshot (record {
            room = envelope.room;
            issue_id = issue_id;
            last_cursor = cursor;
            envelope = envelope;
            source_updated_at_ms = time;
            updated_at = now;
          }))

    abbrev pub event_of : Envelope → (cursor : ℕ) → IssueCacheEventRecord
    unfolding extract_issue_id_from_envelope derive_issue_action parse_issue_source_updated_at_ms
    event_of envelope cursor = record {
      room = envelope.room;
      cursor = cursor;
      issue_id = extract_issue_id_from_envelope envelope;
      action = derive_issue_action envelope;
      envelope = envelope;
      source_updated_at_ms = parse_issue_source_updated_at_ms p envelope.payload;
      updated_at = now;
    }

    unfoldable pub persist_issue_projection_to_cache :
        Envelope → (room_cursor_hint : Option ℕ) → Persist S (Unit {0})
    unfolding allocate event_of put_cache_json_object json_of_event read_should_update put_snapshot
        json_of_cursor issue_event_storage_key issue_cursor_storage_key
    persist_issue_projection_to_cache envelope room_cursor_hint = do
      cursor ← allocate envelope.room room_cursor_hint
      let event = event_of envelope cursor
      put_cache_json_object object (issue_event_storage_key p envelope.room cursor envelope.id)
          envelope.room (String.◌++◌ "issue_event:" event.issue_id) (json_of_event event)
      update ← read_should_update envelope event.issue_id event.source_updated_at_ms
      put_snapshot envelope event.issue_id event.source_updated_at_ms cursor update
      put_cache_json_object object (issue_cursor_storage_key envelope.room) envelope.room
          "issue_cursor"
          (json_of_cursor (record { room = envelope.room; cursor = cursor; updated_at = now }))

    unfoldable pub project_issue : Bool → Envelope → Option ℕ → Persist S (Unit {0})
    unfolding persist_issue_projection_to_cache pure
    project_issue true envelope hint = persist_issue_projection_to_cache envelope hint
    project_issue false envelope hint = pure tt

    abbrev pub envelope_key : Envelope → String
    envelope_key e = String.◌++◌ e.room (String.◌++◌ "/" e.id)

    -- The task that persistEnvelope enqueues.
    unfoldable pub persist_task : Envelope → (room_cursor_hint : Option ℕ) → Persist S (Unit {0})
    unfolding is_issue_topic put_cache_json_object project_issue json_of_envelope
    persist_task envelope room_cursor_hint = do
      let is_issue = is_issue_topic envelope.topic
      put_cache_json_object (if is_issue then issue else object) (envelope_key envelope)
          envelope.room envelope.topic (json_of_envelope envelope)
      project_issue is_issue envelope room_cursor_hint

    -- Failures of the cache end in the adapter.
    unfoldable pub persist_envelope :
        Envelope → (room_cursor_hint : Option ℕ) → Adapter S → Adapter S
    unfolding run_task persist_task
    persist_envelope envelope room_cursor_hint =
        run_task o.max_retries (persist_task envelope room_cursor_hint)
