-- ===== src/GitSession/Answers.antt =====
-- No Git request is answered more often than it was sent (src/git_serve_session.ts).
use bit_relay.Prelude.{
  Option-cases, ℕ, ◌+◌, ◌≤◌, ◌≡◌, refl, Bool, List, [], ◌∷◌, Option, none, some, String,
  if◌then◌else◌, str_eq, arith, Bool-cases, inl, inr,
}
use bit_relay.Map
use bit_relay.Map.{Map}
use bit_relay.Map.Keys.{delete-All, set-All}
use bit_relay.GitRefs.{extract_incoming_refs, extract_all_relay_refs}
use bit_relay.Json.{as_record, string_or_empty, prop, Json, Fields}
use bit_relay.GitServe.{
  body_read, Session, PendingGitRequest, AgentResponse, Effect, cleanup, handle_register,
  handle_git_request, handle_poll, request_times_out, poll_times_out, restore, enqueue_request,
  drain_pending_to_poll_waiters,
}
use bit_relay.GitRespond.{respond_fields, decoded, respond_pending, handle_respond}
use bit_relay.GitSession.{Event, step, run}
use bit_relay.Text.{is_empty}
use bit_relay.GitSession.Count.{
  answers, sent_one, sent, waits, answers-append, Within, IsKeyed, IsSession, git_request-Within,
  body_read-Within, timeout-Within, cleanup-Within, poll-Within, poll_timeout-Within,
}
use bit_relay.GitSession.Responses.{respond-Within, respond_body-Ends}

pub drain-pending :
    (s : Session) → (drain_pending_to_poll_waiters s).0.pending_requests ≡ s.pending_requests
unfolding drain_pending_to_poll_waiters
drain-pending s = ground arith

enqueue-IsSession :
    (s : Session) (r : PendingGitRequest) → IsSession s → IsSession (enqueue_request s r).0
unfolding enqueue_request
enqueue-IsSession s r (d, keyed) =
    let pending = Map.set r.request_id r s.pending_requests in
    rw (drain-pending (record s { pending_requests = pending })) (
      Map.set-Distinct r.request_id r s.pending_requests d,
      set-All IsKeyed r.request_id r s.pending_requests refl keyed,
    )

pub delete-IsSession :
    (s : Session) (id : String)
    → IsSession s
    → IsSession (record s { pending_requests = Map.delete id s.pending_requests })
delete-IsSession s id (d, keyed) =
    (Map.delete-Distinct id s.pending_requests d, delete-All IsKeyed id s.pending_requests keyed)

module _ (to_lower_case : String → String) (decode : String → Option String)
    (set_headers : Map String → Option (Map String)) (accepts_response : AgentResponse → Bool)
    (search_param : List ℕ → List ℕ → Option (List ℕ)) where
  respond_pending-IsSession :
      (s : Session) (j : String) (fs : Fields) (found : Option PendingGitRequest)
      → IsSession s
      → IsSession
          (respond_pending to_lower_case decode set_headers accepts_response search_param s j fs
            found).0
  respond_pending-IsSession s j fs none w = w
  respond_pending-IsSession s j fs (some pending) w =
      let s' : Session = record s { pending_requests = Map.delete j s.pending_requests } in
      let body =
        decoded to_lower_case decode set_headers accepts_response search_param
          (prop "body_base64" fs) in
      let (same, most) =
        respond_body-Ends to_lower_case decode set_headers accepts_response search_param j s'
          pending fs body in
      rw same (delete-IsSession s j w)

  respond-IsSession :
      (s : Session) (parsed : Option Json)
      → IsSession s
      → IsSession
          (handle_respond to_lower_case decode set_headers accepts_response search_param s parsed).0
  unfolding handle_respond
  respond-IsSession s none w = w
  respond-IsSession s (some parsed) w = fields-IsSession (as_record parsed)
    where
      fields-IsSession :
          (fields : Option Fields)
          → IsSession
              (respond_fields to_lower_case decode set_headers accepts_response search_param s
                fields).0
      fields-IsSession none = w
      fields-IsSession (some fs) =
          let j = string_or_empty (prop "request_id" fs) in
          elim (Bool-cases (is_empty j)) [
            | inl no_id ↦ rw no_id w
            | inr there ↦
                rw there (respond_pending-IsSession s j fs (Map.get j s.pending_requests) w)
          ]

  abbrev pub step_here : Session → Event → Session × List Effect
  step_here = step to_lower_case decode set_headers accepts_response search_param

  step-IsSession : (s : Session) (event : Event) → IsSession s → IsSession (step_here s event).0
  unfolding step handle_register handle_poll handle_git_request body_read request_times_out
      poll_times_out cleanup restore
  step-IsSession s (Event.register token now) w = w
  step-IsSession s (Event.poll waiter token) w = ground arith
  step-IsSession s (Event.git_request request) w = elim (Bool-cases s.active) [
    | inr inactive ↦ rw (inactive, handle_git_request) w
    | inl active ↦ elim (Bool-cases (str_eq request.method "POST")) [
      | inl post ↦ rw (active, post, handle_git_request) w
      | inr other ↦ rw (active, other, handle_git_request) (enqueue-IsSession s request w)
    ]
  ]
  step-IsSession s (Event.body_read id base64 text is_push) w =
      elim (Option-cases (Map.get id s.reading)) [
        | inl unknown ↦ rw (unknown, body_read) w
        | inr (request, found) ↦
            rw (found, body_read)
              (enqueue-IsSession (record s { reading = Map.delete id s.reading })
                (record request {
                  request_id = id;
                  body_base64 = some base64;
                  incoming_refs = if is_push then extract_incoming_refs text else [];
                  all_relay_refs = if is_push then extract_all_relay_refs text else [];
                })
                w)
      ]
  step-IsSession s (Event.respond parsed) w = respond-IsSession s parsed w
  step-IsSession s (Event.request_timeout id) w = ground (arith, delete-IsSession s id w)
  step-IsSession s (Event.poll_timeout waiter) w = ground arith
  step-IsSession s Event.session_timeout w = elim (Bool-cases s.timer_runs) [
    | inl runs ↦ rw runs (tt, tt)
    | inr stopped ↦ rw stopped w
  ]
  step-IsSession s (Event.restored saved) w = w

  step-Within :
      (id : String) (s : Session) (event : Event)
      → IsSession s
      → Within id s (sent_one id event) (step_here s event)
  unfolding step handle_register restore answers
  step-Within id s (Event.register token now) w = omega arith
  step-Within id s (Event.poll waiter token) w = poll-Within id waiter token s
  step-Within id s (Event.git_request request) w = git_request-Within id s request
  step-Within id s (Event.body_read j base64 text is_push) w =
      body_read-Within id s j base64 text is_push
  step-Within id s (Event.respond parsed) w =
      respond-Within to_lower_case decode set_headers accepts_response search_param id s parsed w
  step-Within id s (Event.request_timeout j) w = timeout-Within id j s
  step-Within id s (Event.poll_timeout waiter) w = poll_timeout-Within id waiter s
  step-Within id s Event.session_timeout w = elim (Bool-cases s.timer_runs) [
    | inl runs ↦ rw runs (cleanup-Within id s w)
    | inr stopped ↦ rw stopped (omega arith)
  ]
  step-Within id s (Event.restored saved) w = omega arith

  abbrev pub run_here : Session → List Event → Session × List Effect
  run_here = run to_lower_case decode set_headers accepts_response search_param

  -- Whatever happens in whatever order, a request is answered, and then waits, no more often than it
  -- waited before and was sent: one that was sent once is answered at most once, and not while
  -- it waits.
  pub run-answers :
      (id : String) (s : Session) (events : List Event)
      → IsSession s
      → answers id (run_here s events).1 + waits id (run_here s events).0
        ≤ waits id s + sent id events
  unfolding run answers sent
  run-answers id s [] w = omega arith
  run-answers id s (event ∷ events) w =
      let s' = (step_here s event).0 in
      let now = step-Within id s event w in
      let later = run-answers id s' events (step-IsSession s event w) in
      omega (arith, now, later, answers-append id (step_here s event).1 (run_here s' events).1)
