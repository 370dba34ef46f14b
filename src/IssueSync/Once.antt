-- ===== src/IssueSync/Once.antt =====
-- A delivery is applied once (src/issue_sync_engine.ts).
use bit_relay.Prelude.{
  subst, ℕ, suc, ◌+◌, ◌<◌, ◌≡◌, ◌∙◌, Bool, true, false, List, [], ◌∷◌, Option, String, arith,
  length, All,
}
use bit_relay.Map
use bit_relay.Text.{trim, is_empty}
use bit_relay.IssueSync.{
  EngineOptions, Engine, MappedEnvelope, MapInput, MapResult, PublishReply, ApplyResult, Delivery,
  has_delivery_id, apply_delivery,
}
use bit_relay.IssueSync.Invariant.{IsEngine}
use bit_relay.IssueSync.Memory.{Remembered}
use bit_relay.IssueSync.Apply.{apply-ApplySpec, ApplySpec}
use bit_relay.IssueSync.Runs.{Operation, IsNamed, step, run, step-IsEngine, step-Remembered}

module _ (o : EngineOptions) (lower : String → String) (map_input : MapInput → MapResult)
    (publish : MappedEnvelope → PublishReply) where
  run-Remembered :
      (e : Engine) (ops : List Operation) (id : String) (n : ℕ)
      → All IsNamed ops
      → IsEngine o e
      → n + length ops < o.max_delivery_ids
      → Remembered id n e.delivery_ids
      → Map.has id (run o lower map_input publish e ops).delivery_ids ≡ true
  run-Remembered e [] id n named w lt held = held.0
  run-Remembered e (op ∷ ops) id n (here, named) w lt held =
      run-Remembered (step o lower map_input publish e op) ops id (suc n) named
        (step-IsEngine o lower map_input publish e op here w) (omega arith)
        (step-Remembered o lower map_input publish e op id n w (omega arith) held)

  known :
      (e : Engine) (d : Delivery)
      → has_delivery_id e (trim d.delivery_id) ≡ true
      → is_empty (lower (trim d.event)) ≡ false
      → is_empty (trim d.delivery_id) ≡ false
      → apply_delivery o lower map_input publish e d
        ≡ (e, ApplyResult.duplicate_delivery (trim d.delivery_id) (lower (trim d.event)))
  unfolding apply_delivery
  known e d old event id = rw (event, id, old)

  -- Once a delivery is applied, a delivery with its id and some event is answered as a duplicate
  -- and changes nothing, after any fewer operations than the engine remembers deliveries.
  pub apply-once :
      (e : Engine) (d again : Delivery) (ops : List Operation) (id event : String)
      (mapped : MappedEnvelope) (accepted : Bool) (cursor : Option ℕ)
      → IsEngine o e
      → 0 < o.max_delivery_ids
      → (apply_delivery o lower map_input publish e d).1
        ≡ ApplyResult.applied id event mapped accepted cursor
      → All IsNamed ops
      → length ops < o.max_delivery_ids
      → trim again.delivery_id ≡ id
      → is_empty id ≡ false
      → is_empty (lower (trim again.event)) ≡ false
      → apply_delivery o lower map_input publish
          (run o lower map_input publish e (Operation.apply d ∷ ops))
          again
        ≡ (
          run o lower map_input publish e (Operation.apply d ∷ ops),
          ApplyResult.duplicate_delivery id (lower (trim again.event)),
        )
  unfolding has_delivery_id
  apply-once e d again ops id event mapped accepted cursor w room done named few same there
        event_there =
      let e' = (apply_delivery o lower map_input publish e d).0 in
      let spec : ApplySpec o lower map_input publish e d
          (e', ApplyResult.applied id event mapped accepted cursor) =
        subst (λ r. ApplySpec o lower map_input publish e d (e', r)) done
          (apply-ApplySpec o lower map_input publish e d w room) in
      let w' = step-IsEngine o lower map_input publish e (Operation.apply d) tt w in
      let old : Map.has (trim again.delivery_id) (run o lower map_input publish e' ops).delivery_ids
          ≡ true =
        rw same (run-Remembered e' ops id 0 named w' (omega arith) spec.0) in
      let there' : is_empty (trim again.delivery_id) ≡ false = rw same there in
      known (run o lower map_input publish e' ops) again old event_there there' ∙ rw same
