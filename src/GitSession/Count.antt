-- ===== src/GitSession/Count.antt =====
-- How often requests wait and are answered, at each event but a response
-- (src/git_serve_session.ts).
use bit_relay.Prelude.{
  Option-cases, All, ℕ, ◌+◌, ◌≤◌, ◌≡◌, refl, Bool, List, [], ◌∷◌, ◌++◌, map, some, String,
  if◌then◌else◌, str_eq, eq_iff, arith, inl, inr,
}
use bit_relay.Map
use bit_relay.Map.{Map}
use bit_relay.Map.Keys.{has_of_get, has-set, has-delete}
use bit_relay.GitRefs.{extract_incoming_refs, extract_all_relay_refs}
use bit_relay.GitServe
use bit_relay.GitServe.{
  thrown, responded, answer_respond, Session, PendingGitRequest, PersistableSession, AgentResponse,
  Effect, Reply, answer, answer_poll, cleanup, handle_register, handle_git_request, handle_poll,
  request_times_out, poll_times_out, restore, enqueue_request, drain_pending_to_poll_waiters,
  close_request, close_waiter,
}
use bit_relay.GitSession.{Event}

abbrev pub answers_one : String → Effect → ℕ
answers_one id (answer j reply) = if str_eq j id then 1 else 0
answers_one id _ = 0

-- How often a request is answered.
unfoldable pub answers : String → List Effect → ℕ
answers id [] = 0
answers id (effect ∷ effects) = answers_one id effect + answers id effects

abbrev pub sent_one : String → Event → ℕ
sent_one id (Event.git_request request) = if str_eq request.request_id id then 1 else 0
sent_one id _ = 0

-- How often a request is sent.
unfoldable pub sent : String → List Event → ℕ
sent id [] = 0
sent id (event ∷ events) = sent_one id event + sent id events

abbrev pub one : Bool → ℕ
one b = if b then 1 else 0

-- How often a request waits: for its body, and for the agent.
abbrev pub waits : String → Session → ℕ
waits id s = one (Map.has id s.pending_requests) + one (Map.has id s.reading)

pub answers-append :
    (id : String) (xs ys : List Effect) → answers id (xs ++ ys) ≡ answers id xs + answers id ys
unfolding answers
answers-append id [] ys = omega arith
answers-append id (x ∷ xs) ys = omega (arith, answers-append id xs ys)

pub answers_waiters :
    (id : String) (waiters : List String) → answers id (map close_waiter waiters) ≡ 0
unfolding answers
answers_waiters id [] = refl
answers_waiters id (w ∷ ws) = omega (arith, answers_waiters id ws)

pub answers_closed :
    (id : String) (m : Map PendingGitRequest)
    → Map.Distinct m
    → answers id (map close_request m) ≡ one (Map.has id m)
unfolding answers Map.has Map.get
answers_closed id [] d = refl
answers_closed id ((k, r) ∷ m) d = ground (arith, answers_closed id m d.1, eq_iff k id)

pub drain-waits :
    (id : String) (s : Session)
    → (waits id (drain_pending_to_poll_waiters s).0 ≡ waits id s)
      × (answers id (drain_pending_to_poll_waiters s).1 ≡ 0)
unfolding drain_pending_to_poll_waiters answers
drain-waits id s = ground arith

-- What an event may make of a request: an answer uses up one wait, or the sending of the request.
abbrev pub Within : String → Session → ℕ → Session × List Effect → Type 0
Within id s more (s', effects) = answers id effects + waits id s' ≤ waits id s + more

-- A pending request stands once, under its own id.
abbrev pub IsKeyed : String × PendingGitRequest → Type 0
IsKeyed (id, request) = request.request_id ≡ id

abbrev pub IsSession : Session → Type 0
IsSession s = Map.Distinct s.pending_requests × All IsKeyed s.pending_requests

pub enqueue-Within :
    (id : String) (s : Session) (request : PendingGitRequest)
    → Within id s (if str_eq request.request_id id then 1 else 0) (enqueue_request s request)
unfolding enqueue_request
enqueue-Within id s request =
    let pending = Map.set request.request_id request s.pending_requests in
    let (keeps, silent) = drain-waits id (record s { pending_requests = pending }) in
    ground (arith, keeps, silent, has-set request.request_id id request s.pending_requests)

pub git_request-Within :
    (id : String) (s : Session) (request : PendingGitRequest)
    → Within id s (sent_one id (Event.git_request request)) (handle_git_request s request)
unfolding handle_git_request answers
git_request-Within id s request =
    ground (arith, enqueue-Within id s request, has-set request.request_id id request s.reading)

pub body_read-Within :
    (id : String) (s : Session) (j base64 : String) (text : List ℕ) (is_push : Bool)
    → Within id s 0 (GitServe.body_read s j base64 text is_push)
unfolding GitServe.body_read answers
body_read-Within id s j base64 text is_push = elim (Option-cases (Map.get j s.reading)) [
  | inl unknown ↦ rw (unknown, GitServe.body_read) (omega arith)
  | inr (request, found) ↦
      let there = has_of_get j request s.reading found in
      let full : PendingGitRequest = record request {
        request_id = j;
        body_base64 = some base64;
        incoming_refs = if is_push then extract_incoming_refs text else [];
        all_relay_refs = if is_push then extract_all_relay_refs text else [];
      } in
      let s' : Session = record s { reading = Map.delete j s.reading } in
      let within = enqueue-Within id s' full in
      let waited : waits id s' + (if str_eq j id then 1 else 0) ≤ waits id s =
        ground (arith, has-delete j id s.reading, eq_iff j id, there) in
      rw (found, GitServe.body_read) (omega (arith, within, waited))
]

pub timeout-Within : (id j : String) (s : Session) → Within id s 0 (request_times_out s j)
unfolding request_times_out answers
timeout-Within id j s = ground (arith, has-delete j id s.pending_requests, eq_iff j id)

pub cleanup-Within : (id : String) (s : Session) → IsSession s → Within id s 0 (cleanup s)
unfolding cleanup Map.has Map.get
cleanup-Within id s d =
    let closed = map close_request s.pending_requests in
    let freed = map close_waiter s.poll_waiters in
    omega (
      arith,
      answers-append id closed freed,
      answers_closed id s.pending_requests d.0,
      answers_waiters id s.poll_waiters,
    )

pub poll-Within : (id w token : String) (s : Session) → Within id s 0 (handle_poll s w token)
unfolding handle_poll answers
poll-Within id w token s = ground arith

pub poll_timeout-Within : (id w : String) (s : Session) → Within id s 0 (poll_times_out s w)
unfolding poll_times_out answers
poll_timeout-Within id w s = ground arith
