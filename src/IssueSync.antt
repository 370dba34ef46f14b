-- ===== src/IssueSync.antt =====
-- The issue synchronisation engine (src/issue_sync_engine.ts): the deliveries it has applied and
-- the queue of those that failed. `toLowerCase`, a Unicode table, is a parameter; the clock is an
-- argument, as is what `JSON.parse` makes of a request's body, `none` where it throws.
pub mod Invariant
pub mod Apply
pub mod Runs
pub mod Retry
pub mod Snapshot
pub mod RoundTrip
pub mod Memory
pub mod Once
pub mod Published
use bit_relay.Prelude.{
  ℕ, ◌+◌, ◌-◌, ◌*◌, ◌^◌, min, max, zero, suc, Bool, true, false, not, ◌&&◌, ◌||◌, List, [], ◌∷◌,
  ◌++◌, Option, none, some, String, str_eq, if◌then◌else◌, ltb, leb, ◌==◌, length, slice,
}
use bit_relay.Map
use bit_relay.Map.{Map}
use bit_relay.Text.{trim, is_empty, remove_first}
use bit_relay.Json.{
  Number, Json, null, num, str, arr, obj, Items, nil, cons, items, Fields, end, field, entries,
  prop, as_record, string_or_empty, trunc_at_zero,
}

pub record DlqEntry : Type 0 where
  pub delivery_id : String
  pub event : String
  pub body : String
  pub created_at : ℕ
  pub updated_at : ℕ
  pub retry_count : ℕ
  pub next_retry_at : ℕ
  pub last_error : String

-- normalizePositiveInt: the whole part of a finite number above 0.
unfoldable pub normalize_positive_int : Option Number → ℕ → ℕ
normalize_positive_int (some (Number.finite false zero zero)) fallback = fallback
normalize_positive_int (some (Number.finite false whole fraction)) fallback = whole
normalize_positive_int _ fallback = fallback

-- The options after normalizePositiveInt.
pub record EngineOptions : Type 0 where
  pub max_delivery_ids : ℕ
  pub max_dlq_entries : ℕ
  pub retry_base_sec : ℕ

pub record Engine : Type 0 where
  pub delivery_ids : Map ℕ
  pub dlq : Map DlqEntry
  pub dlq_order : List String

abbrev pub create_engine : Engine
create_engine = record { delivery_ids = []; dlq = []; dlq_order = [] }

unfoldable pub has_delivery_id : Engine → String → Bool
unfolding Map.has
has_delivery_id e id = Map.has id e.delivery_ids

-- The loop over `deliveryIds.keys()` that deletes the first `overflow` of them.
unfoldable pub evict_keys {ℓ} : {V : Type ℓ} → ℕ → Map V → Map V
unfolding Map.delete
evict_keys (suc overflow) ((k, v) ∷ m) = evict_keys overflow (Map.delete k ((k, v) ∷ m))
evict_keys _ m = m

unfoldable pub compute_next_retry_at : (base current retry_count : ℕ) → ℕ
compute_next_retry_at base current retry_count = current + min 3600 (base * max 1 (2 ^ retry_count))

-- The loop that shifts `overflow` ids off the order. An empty id ends it.
unfoldable pub shift_dlq : ℕ → List String → Map DlqEntry → List String × Map DlqEntry
unfolding Map.delete
shift_dlq (suc overflow) (removed ∷ order) dlq =
    let more = shift_dlq overflow order (Map.delete removed dlq) in
    if is_empty removed then (order, dlq) else more
shift_dlq _ order dlq = (order, dlq)

unfoldable pub remove_dlq : Engine → String → Engine
unfolding Map.has Map.delete remove_first
remove_dlq e id =
    if not (Map.has id e.dlq)
    then e
    else record e { dlq = Map.delete id e.dlq; dlq_order = remove_first id e.dlq_order }

unfoldable pub get_dlq_entry : Engine → String → Option DlqEntry
unfolding Map.get
get_dlq_entry e id = Map.get id e.dlq

unfoldable pub entries_of : List String → Map DlqEntry → List DlqEntry
unfolding Map.get
entries_of [] dlq = []
entries_of (id ∷ ids) dlq =
    let rest = entries_of ids dlq in
    elim (Map.get id dlq) [ none ↦ rest | some entry ↦ entry ∷ rest ]

-- A page, with its next cursor.
unfoldable pub list_dlq : Engine → (after limit : ℕ) → List DlqEntry × ℕ
unfolding entries_of
list_dlq e after limit =
    let page_ids = slice after (after + limit) e.dlq_order in
    let page = entries_of page_ids e.dlq in
    let next = after + length page_ids in
    (page, if ltb next (length e.dlq_order) then next else after + length page)

pub record EnqueueArgs : Type 0 where
  pub delivery_id : String
  pub event : String
  pub body : String
  pub error : String
  pub increment_retry : Bool

pub record MappedEnvelope : Type 0 where
  pub room : String
  pub sender : String
  pub topic : String
  pub issue_id : String
  pub action : String
  pub envelope_id : String
  pub payload : Json

pub record MapInput : Type 0 where
  pub event : String
  pub delivery_id : String
  pub parsed : Fields

pub data MapResult : Type 0 where
  ok : MappedEnvelope → MapResult
  error : String → MapResult

pub record PublishReply : Type 0 where
  pub status : ℕ
  pub accepted : Bool
  pub cursor : Option ℕ

pub data ApplyError : Type 0 where
  message : String → ApplyError
  publish_failed : (status : ℕ) → ApplyError

pub data ApplyResult : Type 0 where
  duplicate_delivery : (delivery_id event : String) → ApplyResult
  applied :
      (delivery_id event : String) → MappedEnvelope → (accepted : Bool) → Option ℕ → ApplyResult
  failed : (delivery_id event : String) → ApplyError → ApplyResult

-- What a delivery is given besides the engine.
pub record Delivery : Type 0 where
  pub event : String
  pub delivery_id : String
  pub parsed : Option Json
  pub now : ℕ

abbrev pub retries : Option DlqEntry → Bool → ℕ
retries none increment = if increment then 1 else 0
retries (some existing) increment = existing.retry_count + (if increment then 1 else 0)

-- `if (!existing) dlqOrder.push(args.deliveryId)`
abbrev pub order_with : Option DlqEntry → List String → String → List String
order_with none order id = order ++ id ∷ []
order_with (some existing) order id = order

abbrev pub fields_of : Option Json → Option Fields
fields_of none = none
fields_of (some parsed) = as_record parsed

module _ (options : EngineOptions) where
  unfoldable pub remember_delivery_id : Engine → String → ℕ → Engine
  unfolding Map.set evict_keys
  remember_delivery_id e id ts =
      let ids = Map.set id ts e.delivery_ids in
      if leb (length ids) options.max_delivery_ids
      then record e { delivery_ids = ids }
      else record e { delivery_ids = evict_keys (length ids - options.max_delivery_ids) ids }

  abbrev pub entry_of : EnqueueArgs → Option DlqEntry → ℕ → DlqEntry
  unfolding compute_next_retry_at
  entry_of args existing now =
      let count = retries existing args.increment_retry in
      record {
        delivery_id = args.delivery_id;
        event = args.event;
        body = args.body;
        created_at = elim existing [ none ↦ now | some entry ↦ entry.created_at ];
        updated_at = now;
        retry_count = count;
        next_retry_at = compute_next_retry_at options.retry_base_sec now count;
        last_error = args.error;
      }

  abbrev with_both : Engine → List String × Map DlqEntry → Engine
  with_both e (order, dlq) = record e { dlq = dlq; dlq_order = order }

  abbrev pub with_order : Engine → Map DlqEntry → List String → Engine
  unfolding shift_dlq
  with_order e dlq order =
      if ltb options.max_dlq_entries (length order)
      then with_both e (shift_dlq (length order - options.max_dlq_entries) order dlq)
      else record e { dlq = dlq; dlq_order = order }

  unfoldable pub enqueue_dlq : Engine → EnqueueArgs → ℕ → Engine × DlqEntry
  unfolding Map.get Map.set compute_next_retry_at shift_dlq
  enqueue_dlq e args now =
      let id = args.delivery_id in
      let existing = Map.get id e.dlq in
      let entry = entry_of args existing now in
      let dlq = Map.set id entry e.dlq in
      (with_order e dlq (order_with existing e.dlq_order id), entry)

  abbrev pub settle :
      Engine → String → String → MappedEnvelope → PublishReply → ℕ → Engine × ApplyResult
  unfolding remember_delivery_id remove_dlq
  settle e id event mapped published now =
      if not (published.status == 200)
      then (e, failed id event (publish_failed published.status))
      else let remembered = remember_delivery_id e id now in
        let engine = if published.accepted then remove_dlq remembered id else remembered in
        (engine, applied id event mapped published.accepted published.cursor)

  module _ (to_lower_case : String → String) (map_input : MapInput → MapResult)
      (publish : MappedEnvelope → PublishReply) where
    abbrev pub apply_mapped : Engine → String → String → MapResult → ℕ → Engine × ApplyResult
    apply_mapped e id event (MapResult.error reason) now = (e, failed id event (message reason))
    apply_mapped e id event (MapResult.ok mapped) now =
        settle e id event mapped (publish mapped) now

    abbrev pub apply_parsed : Engine → String → String → Option Fields → ℕ → Engine × ApplyResult
    apply_parsed e id event none now = (e, failed id event (message "invalid json payload"))
    apply_parsed e id event (some fs) now =
        let input : MapInput = record { event = event; delivery_id = id; parsed = fs } in
        apply_mapped e id event (map_input input) now

    unfoldable pub apply_delivery : Engine → Delivery → Engine × ApplyResult
    unfolding trim has_delivery_id remember_delivery_id remove_dlq
    apply_delivery e d =
        let event = to_lower_case (trim d.event) in
        let id = trim d.delivery_id in
        if is_empty event
        then (e, failed id event (message "missing issue sync event"))
        else if is_empty id
        then (e, failed id event (message "missing issue sync delivery id"))
        else if has_delivery_id e id
        then (e, duplicate_delivery id event)
        else apply_parsed e id event (fields_of d.parsed) d.now
