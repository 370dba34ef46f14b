-- ===== src/IssueSync/Published.antt =====
-- What applyDelivery hands to its `publish` (src/issue_sync_engine.ts).
use bit_relay.Prelude.{◌≡◌, refl, Option, none, some, String, inl, inr, if◌then◌else◌, Bool-cases}
use bit_relay.Text.{trim, is_empty}
use bit_relay.Json.{Fields}
use bit_relay.IssueSync.{
  EngineOptions, Engine, MappedEnvelope, MapInput, MapResult, PublishReply, ApplyResult, Delivery,
  has_delivery_id, fields_of, settle, apply_mapped, apply_parsed, apply_delivery,
}

abbrev pub mapped_or_none : MapResult → Option MappedEnvelope
mapped_or_none (MapResult.error reason) = none
mapped_or_none (MapResult.ok mapped) = some mapped

module _ (to_lower_case : String → String) (map_input : MapInput → MapResult) where
  abbrev pub parsed_input : String → String → Option Fields → Option MappedEnvelope
  parsed_input id event none = none
  parsed_input id event (some fs) =
      mapped_or_none (map_input (record { event = event; delivery_id = id; parsed = fs }))

  -- The envelope that `args.publish` is called with, `none` where it is not called.
  unfoldable pub publish_input : Engine → Delivery → Option MappedEnvelope
  unfolding trim has_delivery_id
  publish_input e d =
      let event = to_lower_case (trim d.event) in
      let id = trim d.delivery_id in
      if is_empty event
      then none
      else if is_empty id
      then none
      else if has_delivery_id e id
      then none
      else parsed_input id event (fields_of d.parsed)

  -- The engine and the result, by what was published.
  abbrev pub IsSettled :
      EngineOptions
      → (MappedEnvelope → PublishReply)
      → Engine
      → Delivery
      → Option MappedEnvelope
      → Engine × ApplyResult
      → Type 0
  IsSettled o publish e d none outcome = outcome.0 ≡ e
  IsSettled o publish e d (some mapped) outcome =
      outcome
      ≡ settle o e (trim d.delivery_id) (to_lower_case (trim d.event)) mapped (publish mapped) d.now

  parsed-IsSettled :
      (o : EngineOptions) (publish : MappedEnvelope → PublishReply) (e : Engine) (d : Delivery)
      (fs : Option Fields)
      → IsSettled o publish e d
          (parsed_input (trim d.delivery_id) (to_lower_case (trim d.event)) fs)
          (apply_parsed o to_lower_case map_input publish e
            (trim d.delivery_id)
            (to_lower_case (trim d.event))
            fs
            d.now)
  parsed-IsSettled o publish e d none = refl
  parsed-IsSettled o publish e d (some fs) = mapped (
      map_input (record {
        event = to_lower_case (trim d.event);
        delivery_id = trim d.delivery_id;
        parsed = fs;
      }))
    where
      mapped :
          (result : MapResult)
          → IsSettled o publish e d (mapped_or_none result) (
              apply_mapped o to_lower_case map_input publish e
                (trim d.delivery_id)
                (to_lower_case (trim d.event))
                result
                d.now)
      mapped (MapResult.error reason) = refl
      mapped (MapResult.ok m) = refl

  -- Where nothing is published the engine does not change; otherwise it settles the reply.
  pub apply_delivery-IsSettled :
      (o : EngineOptions) (publish : MappedEnvelope → PublishReply) (e : Engine) (d : Delivery)
      → IsSettled o publish e d
          (publish_input e d)
          (apply_delivery o to_lower_case map_input publish e d)
  unfolding apply_delivery publish_input
  apply_delivery-IsSettled o publish e d =
      elim (Bool-cases (is_empty (to_lower_case (trim d.event)))) [
        | inl no_event ↦ rw no_event refl
        | inr event ↦ elim (Bool-cases (is_empty (trim d.delivery_id))) [
          | inl no_id ↦ rw (event, no_id) refl
          | inr id ↦ elim (Bool-cases (has_delivery_id e (trim d.delivery_id))) [
            | inl old ↦ rw (event, id, old) refl
            | inr new ↦ rw (event, id, new) (parsed-IsSettled o publish e d (fields_of d.parsed))
          ]
        ]
      ]
