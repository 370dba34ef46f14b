-- ===== src/Relay/Webhook.antt =====
-- The GitHub webhook of src/memory_handler.ts: applyGitHubWebhookDelivery, handleGitHubWebhook and
-- the handlers of its dead-letter queue. Times are epoch seconds.
use Prim.Native.String
use bit_relay.Prelude.{ℕ, Bool, true, false, not, Option, none, some, String, str_eq, if◌then◌else◌}
use bit_relay.Text.{trim, is_empty}
use bit_relay.Http.{Platform, Request, header_of, query_of, normalize_limit, normalize_after}
use bit_relay.TimingSafe.{timing_safe_equal}
use bit_relay.Room.{PublishResult, PublishBody, published, invalid_topic}
use bit_relay.GitHub.{parse_github_signature_header, map_delivery}
use bit_relay.IssueSync.{
  Engine, Delivery, DlqEntry, EnqueueArgs, MappedEnvelope, PublishReply, ApplyError, message,
  publish_failed, ApplyResult, apply_delivery, enqueue_dlq, remove_dlq, get_dlq_entry, list_dlq,
}
use bit_relay.IssueSync.Published.{publish_input}
use bit_relay.Relay.{
  RelayOptions, Relay, Response, webhook_duplicate, webhook_applied, webhook_queued, dlq_body,
  publish_and_record,
}
use bit_relay.Relay.Action.{Action, ◌>>=◌, ◌>>◌, pure, raise_if, or_raise, gets, run}

abbrev pub accepted_of : PublishBody → Bool × Option ℕ
accepted_of (published accepted cursor) = (accepted, some cursor)
accepted_of (invalid_topic topic) = (false, none)

abbrev pub reply_of : PublishResult → PublishReply
reply_of result = record {
  status = result.status;
  accepted = (accepted_of result.body).0;
  cursor = (accepted_of result.body).1;
}

abbrev pub with_engine : Relay → Engine → Relay
with_engine s engine = record s { github_issue_sync = engine }

module _ (p : Platform) (o : RelayOptions) where
  abbrev pub publish_mapped : Relay → MappedEnvelope → Relay × PublishResult
  publish_mapped s m =
      publish_and_record p o s m.room m.sender m.topic m.envelope_id "" m.payload o.relay_node_id 0
        o.cache_exchange_max_hops

  abbrev pub delivery_of : (event delivery_id request_body : String) → ℕ → Delivery
  delivery_of event delivery_id request_body now = record {
    event = event;
    delivery_id = delivery_id;
    parsed = p.json_parse request_body;
    now = now;
  }

  abbrev pub publish_any : Relay → Option MappedEnvelope → Relay
  publish_any s none = s
  publish_any s (some m) = (publish_mapped s m).0

  abbrev pub reply_to : Relay → MappedEnvelope → PublishReply
  reply_to s m = reply_of (publish_mapped s m).1

  -- The delivery through the engine, and the publish that the engine asks for.
  unfoldable pub applied_delivery : Relay → String → Delivery → Relay × ApplyResult
  applied_delivery s event d =
      let engine = s.github_issue_sync in
      let (engine', result) =
        apply_delivery o.github_issue_sync p.to_lower_case (map_delivery p event) (reply_to s)
          engine d in
      (
        with_engine (publish_any s (publish_input p.to_lower_case (map_delivery p event) engine d))
            engine',
        result,
      )

  unfoldable pub apply_github_webhook_delivery :
      Relay → (event delivery_id request_body : String) → ℕ → Relay × ApplyResult
  unfolding trim
  apply_github_webhook_delivery s event delivery_id request_body now =
      let event' = p.to_lower_case (trim event) in
      let id = trim delivery_id in
      if is_empty event'
      then (s, ApplyResult.failed id event' (message "missing github event"))
      else applied_delivery s event' (delivery_of event' id request_body now)

  abbrev pub error_text : ApplyError → String
  error_text (message reason) = reason
  error_text (publish_failed status) = String.◌++◌ "publish failed: status=" (p.integer_text status)

  -- A failed delivery is put into the queue.
  abbrev pub queue : ℕ → EnqueueArgs → Relay → Relay × DlqEntry
  queue now args s =
      let (engine, entry) = enqueue_dlq o.github_issue_sync s.github_issue_sync args now in
      (with_engine s engine, entry)

  abbrev pub args_of : (delivery_id event body : String) → ApplyError → Bool → EnqueueArgs
  args_of delivery_id event body reason increment_retry = record {
    delivery_id = delivery_id;
    event = event;
    body = body;
    error = error_text reason;
    increment_retry = increment_retry;
  }

  abbrev pub answer_webhook :
      (delivery_id event request_body : String) → ℕ → ApplyResult → Action Response
  answer_webhook delivery_id event request_body now (ApplyResult.duplicate_delivery id event') =
      pure (record { status = 200; body = webhook_duplicate id event' })
  answer_webhook delivery_id event request_body now
        (ApplyResult.applied id event' mapped accepted cursor) =
      pure (record { status = 200; body = webhook_applied id event' mapped accepted cursor })
  answer_webhook delivery_id event request_body now (ApplyResult.failed id event' reason) = do
    queued ← run (queue now (args_of delivery_id event request_body reason false))
    pure (record { status = 202; body = webhook_queued queued })

  unfoldable pub handle_github_webhook : Request → ℕ → Action Response
  unfolding header_of trim parse_github_signature_header timing_safe_equal
  handle_github_webhook q now = do
    raise_if (not (str_eq q.method "POST")) 405 "method not allowed"
    raise_if (is_empty o.github_webhook_secret) 503 "github webhook secret is not configured"
    let event = p.to_lower_case (header_of q "x-github-event")
    let delivery_id = header_of q "x-github-delivery"
    raise_if (is_empty delivery_id) 400 "missing github delivery id"
    signature ←
        or_raise (parse_github_signature_header p (header_of q "x-hub-signature-256")) 401
          "invalid github webhook signature"
    let expected = p.hmac_sha256_hex o.github_webhook_secret q.body
    raise_if (not (timing_safe_equal expected signature)) 401 "invalid github webhook signature"
    result ← run (λ s. apply_github_webhook_delivery s event delivery_id q.body now)
    answer_webhook delivery_id event q.body now result

  unfoldable pub dlq_page : (after limit : ℕ) → Relay → Response
  unfolding list_dlq
  dlq_page after limit s =
      let (page, cursor) = list_dlq s.github_issue_sync after limit in
      record { status = 200; body = dlq_body cursor page }

  unfoldable pub handle_github_webhook_dlq_list : Request → Action Response
  unfolding normalize_after normalize_limit
  handle_github_webhook_dlq_list q = do
    raise_if (not (str_eq q.method "GET")) 405 "method not allowed"
    gets (dlq_page (normalize_after (q.query "after") 0) (normalize_limit (q.query "limit") 100))

  abbrev pub remove_queued : String → Relay → Relay × Unit {0}
  remove_queued id s = (with_engine s (remove_dlq s.github_issue_sync id), tt)

  abbrev pub answer_retry : DlqEntry → (delivery_id : String) → ℕ → ApplyResult → Action Response
  answer_retry found delivery_id now (ApplyResult.duplicate_delivery id event) = do
    run (remove_queued delivery_id)
    pure (record { status = 200; body = webhook_duplicate id event })
  answer_retry found delivery_id now (ApplyResult.applied id event mapped accepted cursor) = do
    run (remove_queued delivery_id)
    pure (record { status = 200; body = webhook_applied id event mapped accepted cursor })
  answer_retry found delivery_id now (ApplyResult.failed id event reason) = do
    queued ← run (queue now (args_of found.delivery_id found.event found.body reason true))
    pure (record { status = 200; body = webhook_queued queued })

  -- The retry of an entry that is there.
  unfoldable pub retry_entry : (delivery_id : String) → ℕ → DlqEntry → Action Response
  retry_entry delivery_id now found = do
    result ← run (λ s. apply_github_webhook_delivery s found.event found.delivery_id found.body now)
    answer_retry found delivery_id now result

  unfoldable pub handle_github_webhook_dlq_retry : Request → ℕ → Action Response
  unfolding query_of get_dlq_entry
  handle_github_webhook_dlq_retry q now = do
    raise_if (not (str_eq q.method "POST")) 405 "method not allowed"
    let delivery_id = query_of q "delivery_id"
    raise_if (is_empty delivery_id) 400 "missing query: delivery_id"
    entry ← gets (λ s. get_dlq_entry s.github_issue_sync delivery_id)
    or_raise entry 404 "delivery_id not found in dlq" >>= retry_entry delivery_id now
