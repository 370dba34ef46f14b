-- ===== src/Tests/Issues.antt =====
-- The issue synchronisation engine.
use bit_relay.Prelude.{◌≡◌, refl, true, List, [], ◌∷◌, some, String, arith}
use bit_relay.Map
use bit_relay.Map.Order.{IsOrdered, named}
use bit_relay.Text.{trim}
use bit_relay.Json.{null, obj, end}
use bit_relay.IssueSync.Snapshot.{restore, snapshot}
use bit_relay.IssueSync.RoundTrip.{SameEngine, restore-snapshot}
use bit_relay.IssueSync.{
  Engine, DlqEntry, EngineOptions, EnqueueArgs, MappedEnvelope, MapInput, MapResult, PublishReply,
  Delivery, ApplyResult, create_engine, apply_delivery, enqueue_dlq,
}
use bit_relay.IssueSync.Invariant.{IsEngine}
use bit_relay.IssueSync.Apply.{ApplySpec, apply-ApplySpec}
use bit_relay.IssueSync.Runs.{Operation, run, run-IsEngine}
use bit_relay.IssueSync.Once.{apply-once}

abbrev small : EngineOptions
small = record { max_delivery_ids = 2; max_dlq_entries = 2; retry_base_sec = 30 }

abbrev mapped : MappedEnvelope
mapped = record {
  room = "main";
  sender = "github";
  topic = "issue.opened";
  issue_id = "7";
  action = "opened";
  envelope_id = "e7";
  payload = null;
}

abbrev lower : String → String
lower s = s

abbrev map_input : MapInput → MapResult
map_input input = MapResult.ok mapped

abbrev publish : MappedEnvelope → PublishReply
publish envelope = record { status = 200; accepted = true; cursor = some 1 }

abbrev delivery : String → Delivery
delivery id = record { event = "issues"; delivery_id = id; parsed = some (obj end); now = 100 }

abbrev failed_delivery : EnqueueArgs
failed_delivery = record {
  delivery_id = "d9";
  event = "issues";
  body = "";
  error = "publish failed";
  increment_retry = true;
}

empty-IsEngine : IsEngine small create_engine
empty-IsEngine = ((tt, omega arith), (tt, refl, tt, omega arith))

apply-ApplySpec_example :
    ApplySpec small lower map_input publish create_engine
      (delivery "d1")
      (apply_delivery small lower map_input publish create_engine (delivery "d1"))
apply-ApplySpec_example =
    apply-ApplySpec small lower map_input publish create_engine (delivery "d1") empty-IsEngine
      (omega arith)

applied_test :
    (apply_delivery small lower map_input publish create_engine (delivery "d1")).1
    ≡ ApplyResult.applied "d1" "issues" mapped true (some 1)
unfolding apply_delivery trim Map.get
applied_test = refl

apply-once_example :
    let ops = Operation.apply (delivery "d2") ∷ [] in
    let e =
      run small lower map_input publish create_engine (Operation.apply (delivery "d1") ∷ ops) in
    apply_delivery small lower map_input publish e (delivery "d1")
    ≡ (e, ApplyResult.duplicate_delivery "d1" (lower (trim "issues")))
unfolding trim
apply-once_example =
    apply-once small lower map_input publish create_engine (delivery "d1") (delivery "d1")
      (Operation.apply (delivery "d2") ∷ []) "d1" "issues" mapped true (some 1) empty-IsEngine
      (omega arith) applied_test (tt, tt) (omega arith) refl refl refl

abbrev operations : List Operation
operations =
    Operation.apply (delivery "d1")
    ∷ Operation.enqueue failed_delivery 100
    ∷ Operation.remove "d9"
    ∷ []

run-IsEngine_example : IsEngine small (run small lower map_input publish create_engine operations)
run-IsEngine_example =
    run-IsEngine small lower map_input publish create_engine operations (tt, (refl, (tt, tt)))
      empty-IsEngine

abbrev stored_entry : DlqEntry
stored_entry = (enqueue_dlq small create_engine failed_delivery 100).1

abbrev stored_engine : Engine
stored_engine = record {
  delivery_ids = ("10", 90) ∷ ("9", 95) ∷ [];
  dlq = ("d9", stored_entry) ∷ [];
  dlq_order = "d9" ∷ [];
}

stored_engine-IsEngine : IsEngine small stored_engine
unfolding Map.get enqueue_dlq
stored_engine-IsEngine =
    (((refl, (refl, tt)), omega arith), ((refl, tt), refl, ((refl, refl), tt), omega arith))

restore-snapshot_example :
    let after = restore small 200 (snapshot stored_engine) in
    SameEngine stored_engine after
    × IsOrdered after.delivery_ids
    × (named after.delivery_ids ≡ named stored_engine.delivery_ids)
unfolding trim enqueue_dlq Map.get
restore-snapshot_example =
    restore-snapshot small 200 stored_engine stored_engine-IsEngine
      ((refl, refl), ((refl, refl), tt)) (((refl, refl), refl, refl), tt) refl
