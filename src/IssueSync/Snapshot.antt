-- ===== src/IssueSync/Snapshot.antt =====
-- The snapshot of the engine and its restoring (src/issue_sync_engine.ts). The snapshot is the JSON
-- value that is stored.
use bit_relay.Prelude.{
  ℕ, false, List, [], ◌∷◌, ◌++◌, Option, none, some, String, if◌then◌else◌, leb, length,
}
use bit_relay.Map
use bit_relay.Map.{Map}
use bit_relay.Map.Listed.{listed}
use bit_relay.Text.{trim, is_empty}
use bit_relay.Json.{
  Number, Json, num, str, arr, obj, Items, nil, cons, Fields, end, field, entries, prop, as_record,
  string_or_empty, trunc_at_zero,
}
use bit_relay.Room.{array_items}
use bit_relay.IssueSync.{DlqEntry, EngineOptions, Engine, compute_next_retry_at, entries_of}

abbrev pub json_nat : ℕ → Json
json_nat n = num (Number.finite false n 0)

-- The record of deliveries, of the listed ones; blank ids are left out.
unfoldable pub snapshot_deliveries : Map ℕ → Fields
unfolding trim
snapshot_deliveries [] = end
snapshot_deliveries ((id, ts) ∷ rest) =
    let more = snapshot_deliveries rest in
    if is_empty (trim id) then more else field id (json_nat ts) more

unfoldable pub json_of_entry : DlqEntry → Json
json_of_entry e = obj (
    field "delivery_id" (str e.delivery_id) (
      field "event" (str e.event) (
        field "body" (str e.body) (
          field "created_at" (json_nat e.created_at) (
            field "updated_at" (json_nat e.updated_at) (
              field "retry_count" (json_nat e.retry_count) (
                field "next_retry_at" (json_nat e.next_retry_at)
                  (field "last_error" (str e.last_error) end))))))))

abbrev pub items_of : List DlqEntry → Items
items_of [] = nil
items_of (e ∷ es) = cons (json_of_entry e) (items_of es)

unfoldable pub snapshot : Engine → Json
unfolding snapshot_deliveries entries_of json_of_entry
snapshot e = obj (
    field "deliveries" (obj (snapshot_deliveries (listed e.delivery_ids)))
      (field "dlq" (arr (items_of (entries_of e.dlq_order e.dlq))) end))

-- `Math.max(0, Math.trunc(value))` of a finite number.
abbrev pub finite_at_zero : Option Json → Option ℕ
finite_at_zero (some (num (Number.finite negative whole fraction))) =
    some (trunc_at_zero negative whole)
finite_at_zero _ = none

abbrev pub or_else : Option ℕ → ℕ → ℕ
or_else none fallback = fallback
or_else (some n) fallback = n

abbrev put_delivery : String → Option ℕ → Map ℕ → Map ℕ
put_delivery id none ids = ids
put_delivery id (some ts) ids = if is_empty (trim id) then ids else Map.set id ts ids

-- The loop over `Object.entries(snapshotData.deliveries)`.
unfoldable pub restore_deliveries : Map Json → Map ℕ → Map ℕ
unfolding trim Map.set
restore_deliveries [] ids = ids
restore_deliveries ((id, ts) ∷ rest) ids =
    restore_deliveries rest (put_delivery id (finite_at_zero (some ts)) ids)

module _ (o : EngineOptions) (now : ℕ) where
  abbrev pub entry_of_fields : String → Fields → DlqEntry
  entry_of_fields id fs =
      let created_at = or_else (finite_at_zero (prop "created_at" fs)) 0 in
      let retry_count = or_else (finite_at_zero (prop "retry_count" fs)) 0 in
      record {
        delivery_id = id;
        event = trim (string_or_empty (prop "event" fs));
        body = string_or_empty (prop "body" fs);
        created_at = created_at;
        updated_at = or_else (finite_at_zero (prop "updated_at" fs)) created_at;
        retry_count = retry_count;
        next_retry_at =
            or_else (finite_at_zero (prop "next_retry_at" fs))
              (compute_next_retry_at o.retry_base_sec now retry_count);
        last_error = string_or_empty (prop "last_error" fs);
      }

  -- The entry of a value, unless it is passed over.
  abbrev pub entry_of_value : Option Fields → Option DlqEntry
  entry_of_value none = none
  entry_of_value (some fs) =
      let id = trim (string_or_empty (prop "delivery_id" fs)) in
      if is_empty id then none else some (entry_of_fields id fs)

  -- The loop over `snapshotData.dlq`, which ends where the queue is full.
  unfoldable pub restore_dlq : List Json → Map DlqEntry → List String → Map DlqEntry × List String
  unfolding Map.set trim prop compute_next_retry_at
  restore_dlq [] dlq order = (dlq, order)
  restore_dlq (value ∷ values) dlq order = elim (entry_of_value (as_record value)) [
    | none ↦ restore_dlq values dlq order
    | some entry ↦
        let dlq' = Map.set entry.delivery_id entry dlq in
        let order' = order ++ entry.delivery_id ∷ [] in
        let more = restore_dlq values dlq' order' in
        if leb o.max_dlq_entries (length order') then (dlq', order') else more
  ]

  abbrev delivery_entries : Option Json → Map Json
  delivery_entries (some (obj fs)) = entries fs
  delivery_entries _ = []

  abbrev restore_fields : Option Fields → Engine
  restore_fields none = record { delivery_ids = []; dlq = []; dlq_order = [] }
  restore_fields (some fs) =
      let (dlq, order) = restore_dlq (array_items (prop "dlq" fs)) [] [] in
      record {
        delivery_ids = restore_deliveries (delivery_entries (prop "deliveries" fs)) [];
        dlq = dlq;
        dlq_order = order;
      }

  unfoldable pub restore : Json → Engine
  unfolding restore_dlq restore_deliveries prop
  restore stored = restore_fields (as_record stored)
