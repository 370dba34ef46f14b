-- ===== src/GitSession/Lost.antt =====
-- Requests that a Git serve session loses (src/git_serve_session.ts).
use bit_relay.Prelude.{
  ℕ, ◌≡◌, ap, ◌∙◌, Bool, true, false, List, [], ◌∷◌, Option, none, some, String, if◌then◌else◌,
  eq_refl, arith,
}
use bit_relay.Map
use bit_relay.Map.{Map}
use bit_relay.Map.Keys.{has-delete, has_of_get}
use bit_relay.Text.{is_empty}
use bit_relay.Json.{obj, Fields, prop, string_or_empty}
use bit_relay.GitServe.{
  drain_pending_to_poll_waiters, Session, PendingGitRequest, AgentResponse, answer_respond, thrown,
  cleanup, enqueue_request, body_read,
}
use bit_relay.GitRefs.{extract_incoming_refs, extract_all_relay_refs}
use bit_relay.GitRespond.{handle_respond, decoded}
use bit_relay.GitSession.{Event, step, run}
use bit_relay.GitSession.Count.{answers, sent, waits, IsSession}
use bit_relay.GitSession.Answers.{delete-IsSession, run-answers, drain-pending}

module _ (to_lower_case : String → String) (decode : String → Option String)
    (set_headers : Map String → Option (Map String)) (accepts_response : AgentResponse → Bool)
    (search_param : List ℕ → List ℕ → Option (List ℕ)) where
  undecodable :
      (s : Session) (id : String) (request : PendingGitRequest) (fs : Fields)
      → Map.get id s.pending_requests ≡ some request
      → string_or_empty (prop "request_id" fs) ≡ id
      → is_empty id ≡ false
      → decoded to_lower_case decode set_headers accepts_response search_param
          (prop "body_base64" fs)
        ≡ none
      → step to_lower_case decode set_headers accepts_response search_param s
          (Event.respond (some (obj fs)))
        ≡ (
          record s { pending_requests = Map.delete id s.pending_requests },
          answer_respond thrown ∷ [],
        )
  unfolding step handle_respond
  undecodable s id request fs found named there bad = rw (named, there, found, bad)

  -- A pending request for which the agent gives a body that is not base64 is never answered, not
  -- even by its timer, whatever happens next, as long as it is not sent again.
  pub respond_lost :
      (s : Session) (id : String) (request : PendingGitRequest) (fs : Fields) (events : List Event)
      → IsSession s
      → Map.get id s.pending_requests ≡ some request
      → Map.has id s.reading ≡ false
      → string_or_empty (prop "request_id" fs) ≡ id
      → is_empty id ≡ false
      → decoded to_lower_case decode set_headers accepts_response search_param
          (prop "body_base64" fs)
        ≡ none
      → sent id events ≡ 0
      → answers id
          (run to_lower_case decode set_headers accepts_response search_param s
            (Event.respond (some (obj fs)) ∷ events)).1
        ≡ 0
  unfolding run answers
  respond_lost s id request fs events w found not_reading named there bad unsent =
      let s' : Session = record s { pending_requests = Map.delete id s.pending_requests } in
      let now = undecodable s id request fs found named there bad in
      let wait : waits id s' ≡ 0 =
        ground (arith, has-delete id id s.pending_requests, eq_refl id, not_reading) in
      let w' = delete-IsSession s id w in
      let later =
        run-answers to_lower_case decode set_headers accepts_response search_param id s' events
          w' in
      rw now (omega (arith, later, wait, unsent))

drain-active : (s : Session) → (drain_pending_to_poll_waiters s).0.active ≡ s.active
unfolding drain_pending_to_poll_waiters
drain-active s = ground arith

enqueue_request-has :
    (s : Session) (request : PendingGitRequest)
    → (Map.has request.request_id (enqueue_request s request).0.pending_requests ≡ true)
      × ((enqueue_request s request).0.active ≡ s.active)
unfolding enqueue_request
enqueue_request-has s request =
    let id = request.request_id in
    let pending = Map.set id request s.pending_requests in
    let s' : Session = record s { pending_requests = pending } in
    (
      ap (Map.has id) (drain-pending s')
          ∙ has_of_get id request pending (Map.get-set_self id request s.pending_requests),
      drain-active s',
    )

-- A request whose body is still read when the session closes becomes pending in the closed session,
-- where polls are denied.
pub closed_session_accepts :
    (s : Session) (id base64 : String) (text : List ℕ) (is_push : Bool)
    (request : PendingGitRequest)
    → Map.get id s.reading ≡ some request
    → (Map.has id (body_read (cleanup s).0 id base64 text is_push).0.pending_requests ≡ true)
      × ((body_read (cleanup s).0 id base64 text is_push).0.active ≡ false)
unfolding body_read cleanup
closed_session_accepts s id base64 text is_push request found = rw found (
    enqueue_request-has (record (cleanup s).0 { reading = Map.delete id s.reading })
      (record request {
        request_id = id;
        body_base64 = some base64;
        incoming_refs = if is_push then extract_incoming_refs text else [];
        all_relay_refs = if is_push then extract_all_relay_refs text else [];
      }))
