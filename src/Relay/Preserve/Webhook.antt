-- ===== src/Relay/Preserve/Webhook.antt =====
-- The GitHub webhook keeps the relay well formed (src/memory_handler.ts).
use bit_relay.Prelude.{
  ℕ, ◌<◌, ◌≡◌, inl, inr, refl, true, false, Option, none, some, String, Bool-cases,
}
use bit_relay.Map.Keys.{get-All}
use bit_relay.Text.{trim, is_empty}
use bit_relay.Http.{Platform, Request, query_of}
use bit_relay.GitHub.{map_delivery}
use bit_relay.GitHub.Mapped.{IsAddressed, publish_input-IsAddressed}
use bit_relay.IssueSync.{
  Engine, Delivery, DlqEntry, EnqueueArgs, MappedEnvelope, ApplyResult, get_dlq_entry,
}
use bit_relay.IssueSync.Invariant.{IsEngine, IsFiled, enqueue-IsEngine, remove-IsEngine}
use bit_relay.IssueSync.Published.{publish_input}
use bit_relay.IssueSync.Runs.{Operation, step-IsEngine}
use bit_relay.Relay.{RelayOptions, Relay}
use bit_relay.Relay.Webhook.{
  with_engine, publish_any, reply_to, delivery_of, applied_delivery, apply_github_webhook_delivery,
  queue, args_of, answer_webhook, answer_retry, remove_queued, retry_entry, handle_github_webhook,
  handle_github_webhook_dlq_list, handle_github_webhook_dlq_retry,
}
use bit_relay.Relay.Keeps.{
  Keeps, pure-Keeps, gets-Keeps, run-Keeps, or_raise-Keeps, >>=-Keeps, guard-Keeps, gets->>=-Keeps,
  or_raise->>=-Keeps,
}
use bit_relay.Relay.Invariant.{IsRelay, publish-IsRelay}

module _ (p : Platform) (o : RelayOptions) where
  with_engine-IsRelay :
      (s : Relay) (engine : Engine)
      → IsEngine o.github_issue_sync engine
      → IsRelay o s
      → IsRelay o (with_engine s engine)
  with_engine-IsRelay s engine e h = record {
    distinct = h.distinct;
    rooms = h.rooms;
    exchange = h.exchange;
    records = h.records;
    engine = e;
  }

  publish_any-IsRelay :
      (s : Relay) (mapped : Option MappedEnvelope)
      → 0 < o.cache_exchange_max_hops
      → IsAddressed mapped
      → IsRelay o s
      → IsRelay o (publish_any p o s mapped)
  publish_any-IsRelay s none hops addressed h = h
  publish_any-IsRelay s (some m) hops (room, topic) h =
      publish-IsRelay o p s m.room m.sender m.topic m.envelope_id "" m.payload o.relay_node_id 0
        o.cache_exchange_max_hops room hops (inr refl) h

  applied-IsRelay :
      (s : Relay) (event : String) (d : Delivery)
      → 0 < o.cache_exchange_max_hops
      → IsRelay o s
      → IsRelay o (applied_delivery p o s event d).0
  unfolding applied_delivery
  applied-IsRelay s event d hops h =
      let input = publish_input p.to_lower_case (map_delivery p event) s.github_issue_sync d in
      let s' = publish_any p o s input in
      with_engine-IsRelay s' _
        (step-IsEngine o.github_issue_sync p.to_lower_case (map_delivery p event) (reply_to p o s)
          s.github_issue_sync (Operation.apply d) tt h.engine)
        (publish_any-IsRelay s input hops (publish_input-IsAddressed p event s.github_issue_sync d)
          h)

  apply-IsRelay :
      (event delivery_id body : String) (now : ℕ)
      → 0 < o.cache_exchange_max_hops
      → (s : Relay) → IsRelay o s
      → IsRelay o (apply_github_webhook_delivery p o s event delivery_id body now).0
  unfolding apply_github_webhook_delivery
  apply-IsRelay event delivery_id body now hops s h =
      elim (Bool-cases (is_empty (p.to_lower_case (trim event)))) [
        | inl no_event ↦ rw no_event h
        | inr named ↦ rw named (
            applied-IsRelay s (p.to_lower_case (trim event))
              (delivery_of p o (p.to_lower_case (trim event)) (trim delivery_id) body now) hops h)
      ]

  queue-IsRelay :
      (now : ℕ) (args : EnqueueArgs)
      → is_empty args.delivery_id ≡ false
      → (s : Relay) → IsRelay o s
      → IsRelay o (queue p o now args s).0
  queue-IsRelay now args named s h =
      with_engine-IsRelay s _
        (enqueue-IsEngine o.github_issue_sync s.github_issue_sync args now h.engine named) h

  answer_webhook-Keeps :
      (delivery_id event body : String) (now : ℕ) (result : ApplyResult)
      → is_empty delivery_id ≡ false
      → Keeps (IsRelay o) (answer_webhook p o delivery_id event body now result)
  answer_webhook-Keeps id event body now (ApplyResult.duplicate_delivery _ _) named = pure-Keeps _ _
  answer_webhook-Keeps id event body now (ApplyResult.applied _ _ _ _ _) named = pure-Keeps _ _
  answer_webhook-Keeps id event body now (ApplyResult.failed _ _ reason) named =
      >>=-Keeps _ _ _
        (run-Keeps _ _ (queue-IsRelay now (args_of p o id event body reason false) named))
        λ queued. pure-Keeps _ _

  pub webhook-Keeps :
      (q : Request) (now : ℕ)
      → 0 < o.cache_exchange_max_hops
      → Keeps (IsRelay o) (handle_github_webhook p o q now)
  unfolding handle_github_webhook
  webhook-Keeps q now hops = guard-Keeps _ _ _ _ _ λ _. guard-Keeps _ _ _ _ _ λ _.
      guard-Keeps _ _ _ _ _ λ named. >>=-Keeps _ _ _ (or_raise-Keeps _ _ _ _) λ signature.
        guard-Keeps _ _ _ _ _ λ _.
          >>=-Keeps _ _ _ (run-Keeps _ _ (apply-IsRelay _ _ q.body now hops))
            λ result. answer_webhook-Keeps _ _ q.body now result named

  pub dlq_list-Keeps : (q : Request) → Keeps (IsRelay o) (handle_github_webhook_dlq_list p o q)
  unfolding handle_github_webhook_dlq_list
  dlq_list-Keeps q = guard-Keeps _ _ _ _ _ λ _. gets-Keeps _ _

  removed-IsRelay : (id : String) (s : Relay) → IsRelay o s → IsRelay o (remove_queued p o id s).0
  removed-IsRelay id s h =
      with_engine-IsRelay s _ (remove-IsEngine o.github_issue_sync s.github_issue_sync id h.engine)
        h

  answer_retry-Keeps :
      (found : DlqEntry) (delivery_id : String) (now : ℕ) (result : ApplyResult)
      → is_empty found.delivery_id ≡ false
      → Keeps (IsRelay o) (answer_retry p o found delivery_id now result)
  answer_retry-Keeps found id now (ApplyResult.duplicate_delivery _ _) named =
      >>=-Keeps _ _ _ (run-Keeps _ _ (removed-IsRelay id)) λ gone. pure-Keeps _ _
  answer_retry-Keeps found id now (ApplyResult.applied _ _ _ _ _) named =
      >>=-Keeps _ _ _ (run-Keeps _ _ (removed-IsRelay id)) λ gone. pure-Keeps _ _
  answer_retry-Keeps found id now (ApplyResult.failed _ _ reason) named =
      >>=-Keeps _ _ _
        (run-Keeps _ _ (
          queue-IsRelay now (args_of p o found.delivery_id found.event found.body reason true)
            named))
        λ queued. pure-Keeps _ _

  found-named :
      (s : Relay) (id : String) (found : DlqEntry)
      → IsRelay o s
      → is_empty id ≡ false
      → get_dlq_entry s.github_issue_sync id ≡ some found
      → is_empty found.delivery_id ≡ false
  unfolding get_dlq_entry
  found-named s id found h named e =
      let filed : IsFiled (id, found) =
        get-All IsFiled id found s.github_issue_sync.dlq e h.engine.1.2 in
      rw filed.0 named

  retry_entry-Keeps :
      (delivery_id : String) (now : ℕ) (found : DlqEntry)
      → 0 < o.cache_exchange_max_hops
      → is_empty found.delivery_id ≡ false
      → Keeps (IsRelay o) (retry_entry p o delivery_id now found)
  unfolding retry_entry
  retry_entry-Keeps id now found hops named =
      >>=-Keeps _ _ _
        (run-Keeps _ _ (apply-IsRelay found.event found.delivery_id found.body now hops))
        λ result. answer_retry-Keeps found id now result named

  pub dlq_retry-Keeps :
      (q : Request) (now : ℕ)
      → 0 < o.cache_exchange_max_hops
      → Keeps (IsRelay o) (handle_github_webhook_dlq_retry p o q now)
  unfolding handle_github_webhook_dlq_retry
  dlq_retry-Keeps q now hops =
      let id = query_of q "delivery_id" in
      guard-Keeps _ _ _ _ _ λ _. guard-Keeps _ _ _ _ _ λ named. gets->>=-Keeps _ _ _ λ s h.
        or_raise->>=-Keeps (IsRelay o) (get_dlq_entry s.github_issue_sync id) 404
          "delivery_id not found in dlq" (retry_entry p o id now) s h
          λ found e. retry_entry-Keeps id now found hops (found-named s id found h named e) s h
