-- ===== src/Relay/Rooms.antt =====
-- The handlers of `fetch` that read a room or change it otherwise than by a publish: polls, the
-- inbox, trigger results, presence and reviews (src/memory_handler.ts).
use bit_relay.Prelude.{
  ℕ, ◌+◌, leb, Bool, not, ◌||◌, List, [], ◌∷◌, ◌++◌, Option, none, some, String, str_eq,
  if◌then◌else◌, length, drop,
}
use bit_relay.Map.{Map}
use bit_relay.Text.{is_empty, is_alnum, is_mark, matches_name}
use bit_relay.Text.Edit.{contains}
use bit_relay.Json.{Json, null, str, Fields, prop, as_record}
use bit_relay.Http.{
  Platform, Request, or_default, query_of, normalize_room, normalize_limit, normalize_after,
  room_token_refused,
}
use bit_relay.Room.{
  Envelope, SanitizedEnvelope, sanitize_envelope, RoomState, PresenceRecord, ReviewVerdict, approve,
  deny, is_valid_room_name, poll_from_room, inbox_pending_from_room, ack_into_room,
}
use bit_relay.Review.{
  reviews_of, compute_review_status, submit_review, prune_presence, heartbeat, leave,
}
use bit_relay.Signing.{build_review_signing_message}
use bit_relay.Identity.{
  Identity, denied, PublishAuthHeaders, ParsedAuth, bad, Verified, refused,
  parse_publish_auth_headers, verify_auth,
}
use bit_relay.Relay.{
  RelayOptions, Relay, Response, poll_body, pending_body, ack_body, results_body, heartbeat_body,
  presence_body, left_body, reviews_body, review_body, update_room,
}
use bit_relay.Relay.Action.{Action, ◌>>=◌, ◌>>◌, pure, raise, raise_if, or_raise, run}
use bit_relay.Relay.Publish.{signature_headers, or_refuse}

-- PR_ID_PATTERN, /^[A-Za-z0-9][A-Za-z0-9._-]{0,127}$/
unfoldable pub is_valid_pr_id : String → Bool
unfolding matches_name
is_valid_pr_id = matches_name is_alnum (λ c. is_alnum c || is_mark c) 127

-- VALID_VERDICTS
abbrev pub verdict_of : String → Option ReviewVerdict
verdict_of s =
    if str_eq s "approve" then some approve else if str_eq s "deny" then some deny else none

-- The loop over the messages from index `i` on, with the results so far and the cursor.
unfoldable pub collect_results :
    ℕ → ℕ → List Envelope → List (ℕ × SanitizedEnvelope) → ℕ → List (ℕ × SanitizedEnvelope) × ℕ
collect_results limit i [] results cursor = (results, cursor)
collect_results limit i (e ∷ es) results cursor =
    let longer = results ++ (i + 1, sanitize_envelope e) ∷ [] in
    let passed = collect_results limit (i + 1) es results (i + 1) in
    let taken = collect_results limit (i + 1) es longer (i + 1) in
    if not (str_eq e.topic "ci.result")
    then passed
    else if leb limit (length longer)
    then (longer, i + 1)
    else taken

abbrev pub results_of : (after limit : ℕ) → RoomState → List (ℕ × SanitizedEnvelope) × ℕ
unfolding collect_results
results_of after limit r =
    let (results, cursor) = collect_results limit after (drop after r.messages) [] after in
    (results, elim results [ [] ↦ after | e ∷ es ↦ cursor ])

-- The status and metadata of a heartbeat's JSON object.
abbrev status_or_online : Option Json → String
status_or_online (some (str s)) = s
status_or_online _ = "online"

abbrev metadata_or_null : Option Json → Json
metadata_or_null none = null
metadata_or_null (some v) = v

abbrev of_fields : Option Fields → String × Json
unfolding prop
of_fields none = ("online", null)
of_fields (some fs) = (status_or_online (prop "status" fs), metadata_or_null (prop "metadata" fs))

abbrev of_parsed : Option Json → Option (String × Json)
unfolding of_fields
of_parsed none = none
of_parsed (some parsed) = some (of_fields (as_record parsed))

-- A room's part of the state stays as it is.
unfoldable pub read_room {ℓ} : {A : Type ℓ} → String → (RoomState → A) → Relay → Relay × A
read_room room f = update_room room (λ r. (r, f r))

module _ (p : Platform) (o : RelayOptions) where
  -- The room that a request names, where its token lets the request in.
  unfoldable pub open_room : Request → Action String
  unfolding normalize_room is_valid_room_name room_token_refused
  open_room q = do
    let room = normalize_room (q.query "room")
    raise_if (not (is_valid_room_name room)) 400 "invalid room"
    raise_if (room_token_refused o.room_tokens q room) 403 "forbidden"
    pure room

  unfoldable pub handle_poll : Request → Action Response
  unfolding open_room normalize_after normalize_limit
  handle_poll q = do
    raise_if (not (str_eq q.method "GET")) 405 "method not allowed"
    room ← open_room q
    page ← run (
        read_room room (λ r.
          poll_from_room r (normalize_after (q.query "after") 0)
            (normalize_limit (q.query "limit") 100)))
    pure (record { status = 200; body = poll_body page })

  unfoldable pub handle_inbox_pending : Request → Action Response
  unfolding open_room query_of normalize_limit
  handle_inbox_pending q = do
    raise_if (not (str_eq q.method "GET")) 405 "method not allowed"
    room ← open_room q
    let consumer = query_of q "consumer"
    raise_if (is_empty consumer) 400 "missing query: consumer"
    page ← run (
        read_room room
          (λ r. inbox_pending_from_room r consumer (normalize_limit (q.query "limit") 100)))
    pure (record { status = 200; body = pending_body page })

  unfoldable pub handle_inbox_ack : Request → Action Response
  unfolding open_room query_of
  handle_inbox_ack q = do
    raise_if (not (str_eq q.method "POST")) 405 "method not allowed"
    room ← open_room q
    let consumer = query_of q "consumer"
    raise_if (is_empty consumer) 400 "missing query: consumer"
    answer ← run (update_room room (λ r. ack_into_room r consumer (p.json_parse q.body)))
    pure (record { status = answer.0; body = ack_body answer.1 })

  unfoldable pub handle_trigger_results : Request → Action Response
  unfolding open_room normalize_after normalize_limit results_of
  handle_trigger_results q = do
    raise_if (not (str_eq q.method "GET")) 405 "method not allowed"
    room ← open_room q
    page ← run (
        read_room room (
          results_of (normalize_after (q.query "after") 0) (normalize_limit (q.query "limit") 100)))
    pure (record { status = 200; body = results_body page.1 page.0 })

  -- `none` where a JSON body does not parse.
  abbrev pub heartbeat_of : Request → Option (String × Json)
  unfolding of_parsed contains
  heartbeat_of q =
      if contains "application/json" (p.to_lower_case (or_default (q.header "content-type") ""))
      then of_parsed (p.json_parse q.body)
      else some ("online", null)

  unfoldable pub handle_heartbeat : Request → (now : ℕ) → Action Response
  unfolding open_room query_of heartbeat_of
  handle_heartbeat q now = do
    raise_if (not (str_eq q.method "POST")) 405 "method not allowed"
    room ← open_room q
    let participant = query_of q "participant"
    raise_if (is_empty participant) 400 "missing query: participant"
    sent ← or_raise (heartbeat_of q) 400 "invalid json payload"
    joined ← run (update_room room (λ r. heartbeat p.send_throws r participant sent.0 sent.1 now))
    pure (record { status = 200; body = heartbeat_body participant sent.0 joined })

  abbrev pub list_presence : ℕ → RoomState → RoomState × Map PresenceRecord
  list_presence now r =
      let r' = prune_presence r now o.presence_ttl_sec in (r', r'.presence_by_participant)

  unfoldable pub get_presence : String → ℕ → Action Response
  get_presence room now = do
    participants ← run (update_room room (list_presence now))
    pure (record { status = 200; body = presence_body participants })

  unfoldable pub delete_presence : Request → String → Action Response
  unfolding query_of
  delete_presence q room = do
    let participant = query_of q "participant"
    raise_if (is_empty participant) 400 "missing query: participant"
    removed ← run (update_room room (λ r. leave p.send_throws r participant))
    pure (record { status = 200; body = left_body participant removed })

  unfoldable pub handle_presence : Request → (now : ℕ) → Action Response
  unfolding open_room get_presence delete_presence
  handle_presence q now = do
    room ← open_room q
    if str_eq q.method "GET"
        then get_presence room now
        else if str_eq q.method "DELETE"
        then delete_presence q room
        else raise 405 "method not allowed"

  -- A review's signature is checked whatever the options require.
  abbrev pub verify_review_headers :
      String → (PublishAuthHeaders → List ℕ) → ℕ → ParsedAuth → Identity → Identity × Verified
  unfolding verify_auth
  verify_review_headers sender message now (bad reason) s = (s, refused reason)
  verify_review_headers sender message now (ParsedAuth.ok none) s =
      (s, refused (denied 401 "missing signature headers"))
  verify_review_headers sender message now (ParsedAuth.ok (some auth)) s =
      verify_auth o.identity p.verify_signature s sender auth message now

  abbrev pub review_message : (sender room pr_id verdict : String) → PublishAuthHeaders → List ℕ
  unfolding build_review_signing_message
  review_message sender room pr_id verdict auth = build_review_signing_message (record {
    sender = sender;
    room = room;
    pr_id = pr_id;
    verdict = verdict;
    ts = auth.timestamp_sec;
    nonce = auth.nonce;
  })

  unfoldable pub verify_review :
      Request → (sender room pr_id verdict : String) → ℕ → Relay → Relay × Verified
  unfolding verify_review_headers parse_publish_auth_headers review_message
  verify_review q sender room pr_id verdict now s =
      let (identity, result) =
        verify_review_headers sender (review_message sender room pr_id verdict) now
          (parse_publish_auth_headers (signature_headers q)) s.identity in
      (record s { identity = identity }, result)

  unfoldable pub pr_id_of : Request → Action String
  unfolding query_of is_valid_pr_id
  pr_id_of q = do
    let pr_id = query_of q "pr_id"
    raise_if (is_empty pr_id) 400 "missing query: pr_id"
    raise_if (not (is_valid_pr_id pr_id)) 400 "invalid pr_id"
    pure pr_id

  unfoldable pub get_reviews : Request → String → Action Response
  unfolding pr_id_of compute_review_status
  get_reviews q room = do
    pr_id ← pr_id_of q
    reviews ← run (read_room room (λ r. reviews_of r pr_id))
    pure (record { status = 200; body = reviews_body (compute_review_status reviews) reviews })

  unfoldable pub post_review : Request → String → ℕ → Action Response
  unfolding query_of pr_id_of verify_review
  post_review q room now = do
    let sender = query_of q "sender"
    raise_if (is_empty sender) 400 "missing query: sender"
    pr_id ← pr_id_of q
    let named = query_of q "verdict"
    verdict ← or_raise (verdict_of named) 400 "invalid verdict"
    check ← run (verify_review q sender room pr_id named now)
    signature ← or_refuse p o check
    (submitted, status) ←
        run (update_room room (λ r. submit_review p.send_throws r sender pr_id verdict now))
    pure (record { status = 200; body = review_body sender pr_id verdict submitted status })

  unfoldable pub handle_review : Request → (now : ℕ) → Action Response
  unfolding open_room get_reviews post_review
  handle_review q now = do
    room ← open_room q
    if str_eq q.method "GET"
        then get_reviews q room
        else if str_eq q.method "POST"
        then post_review q room now
        else raise 405 "method not allowed"
