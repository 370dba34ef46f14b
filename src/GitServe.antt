-- ===== src/GitServe.antt =====
-- The Git serve session (createGitServeSession of src/git_serve_session.ts): a state machine between
-- Git clients, whose requests wait, and an agent that polls for them and responds.
-- An event is what runs without interruption: a handler up to its first `await`, what follows the
-- `await` of a body, or a timer. Promises that are resolved are effects. Ids and tokens, which
-- the platform draws at random, are arguments, as are `atob` and the decoder of texts, and what
-- `new Headers` and `new Response` accept.
use bit_relay.Prelude.{
  any, keep, ℕ, Bool, true, false, not, ◌||◌, List, [], ◌∷◌, ◌++◌, map, Option, none, some, String,
  str_eq, if◌then◌else◌, ◌==◌, length,
}
use bit_relay.Map
use bit_relay.Map.{Map}
use bit_relay.Text.{remove_first}
use bit_relay.Json.{Number}
use bit_relay.GitRefs.{extract_incoming_refs, extract_all_relay_refs}

pub record PendingGitRequest : Type 0 where
  pub request_id : String
  pub method : String
  pub path : List ℕ
  pub headers : Map String
  pub body_base64 : Option String
  pub incoming_refs : List (List ℕ)
  pub all_relay_refs : List (List ℕ)

-- The session's state, with whether its timer runs, and the requests whose bodies are read.
pub record Session : Type 0 where
  pub active : Bool
  pub session_token : String
  pub registered_at : Option ℕ
  pub timer_runs : Bool
  pub reading : Map PendingGitRequest
  pub pending_requests : Map PendingGitRequest
  pub poll_waiters : List String

unfoldable pub create_git_serve_session : Session
create_git_serve_session = record {
  active = false;
  session_token = "";
  registered_at = none;
  timer_runs = false;
  reading = [];
  pending_requests = [];
  poll_waiters = [];
}

pub record AgentResponse : Type 0 where
  pub status : Number
  pub headers : Map String
  pub body : Option (List ℕ)

pub data Reply : Type 0 where
  session_closed request_timeout session_not_active : Reply
  from_agent : AgentResponse → Reply

pub data PollReply : Type 0 where
  requests : List PendingGitRequest → PollReply
  poll_denied : (status : ℕ) (error : String) → PollReply

pub data RespondReply : Type 0 where
  responded : RespondReply
  respond_denied : (status : ℕ) (error : String) → RespondReply
  thrown : RespondReply

-- A Git client, a poller or the agent gets its answer, or the relay is told of an incoming ref.
pub data Effect : Type 0 where
  answer : (request_id : String) → Reply → Effect
  answer_poll : (waiter : String) → PollReply → Effect
  answer_respond : RespondReply → Effect
  incoming_ref : List ℕ → Effect

abbrev pub close_request : String × PendingGitRequest → Effect
close_request (id, request) = answer id session_closed

abbrev pub close_waiter : String → Effect
close_waiter waiter = answer_poll waiter (requests [])

unfoldable pub cleanup : Session → Session × List Effect
cleanup s = (
  record s { active = false; timer_runs = false; pending_requests = []; poll_waiters = [] },
  map close_request s.pending_requests ++ map close_waiter s.poll_waiters,
)

unfoldable pub handle_register : Session → (token : String) (now : ℕ) → Session
handle_register s token now = record s {
  active = true;
  session_token = token;
  registered_at = some now;
  timer_runs = true;
}

-- validateToken: the error's status and text.
unfoldable pub validate_token : Session → String → Option (ℕ × String)
validate_token s token =
    if not s.active
    then some (404, "session not active")
    else if not (str_eq token s.session_token)
    then some (403, "invalid session token")
    else none

-- `Array.from(state.pendingRequests.values())`
abbrev pub values : Map PendingGitRequest → List PendingGitRequest
values m = map (λ e. e.1) m

unfoldable pub drain_pending_to_poll_waiters : Session → Session × List Effect
drain_pending_to_poll_waiters s = elim s.poll_waiters [
  | [] ↦ (s, [])
  | waiter ∷ rest ↦ if length s.pending_requests == 0 then (s, []) else (
    record s { poll_waiters = rest },
    answer_poll waiter (requests (values s.pending_requests)) ∷ [],
  )
]

-- The promise of handleGitRequest.
unfoldable pub enqueue_request : Session → PendingGitRequest → Session × List Effect
unfolding Map.set drain_pending_to_poll_waiters
enqueue_request s request =
    drain_pending_to_poll_waiters
      (record s { pending_requests = Map.set request.request_id request s.pending_requests })

-- handleGitRequest up to the reading of the body of a POST, which the other methods do not wait for.
unfoldable pub handle_git_request : Session → PendingGitRequest → Session × List Effect
unfolding Map.set enqueue_request
handle_git_request s request =
    if not s.active
    then (s, answer request.request_id session_not_active ∷ [])
    else if str_eq request.method "POST"
    then (record s { reading = Map.set request.request_id request s.reading }, [])
    else enqueue_request s request

-- The headers that the agent is sent; their names are in lower case.
abbrev is_forwarded : String × String → Bool
is_forwarded (name, value) =
    str_eq name "content-type"
    || str_eq name "content-encoding"
    || str_eq name "git-protocol"
    || str_eq name "accept"

unfoldable pub request_of :
    (id method : String) → (git_path query : List ℕ) → (headers : Map String) → PendingGitRequest
unfolding keep
request_of id method git_path query headers = record {
  request_id = id;
  method = method;
  path = git_path ++ query;
  headers = keep is_forwarded headers;
  body_base64 = none;
  incoming_refs = [];
  all_relay_refs = [];
}

-- What follows the reading of the body, given in base64 and as text. Whether the path ends in
-- '/git-receive-pack' is `is_push`.
unfoldable pub body_read :
    Session
    → (id : String) (base64 : String) (text : List ℕ) (is_push : Bool) → Session × List Effect
unfolding Map.get Map.delete enqueue_request extract_incoming_refs extract_all_relay_refs
body_read s id base64 text is_push = elim (Map.get id s.reading) [
  | none ↦ (s, [])
  | some request ↦
      enqueue_request (record s { reading = Map.delete id s.reading })
        (record request {
          request_id = id;
          body_base64 = some base64;
          incoming_refs = if is_push then extract_incoming_refs text else [];
          all_relay_refs = if is_push then extract_all_relay_refs text else [];
        })
]

-- The timer of a request, which is cleared where the request leaves the pending ones.
unfoldable pub request_times_out : Session → String → Session × List Effect
unfolding Map.has Map.delete
request_times_out s id =
    if Map.has id s.pending_requests
    then (
      record s { pending_requests = Map.delete id s.pending_requests },
      answer id request_timeout ∷ [],
    )
    else (s, [])

abbrev deny_poll : Session → String → ℕ × String → Session × List Effect
deny_poll s waiter (status, error) = (s, answer_poll waiter (poll_denied status error) ∷ [])

unfoldable pub handle_poll : Session → (waiter token : String) → Session × List Effect
unfolding validate_token
handle_poll s waiter token = elim (validate_token s token) [
  | some denied ↦ deny_poll s waiter denied
  | none ↦
      if not (length s.pending_requests == 0)
      then (s, answer_poll waiter (requests (values s.pending_requests)) ∷ [])
      else (record s { poll_waiters = s.poll_waiters ++ waiter ∷ [] }, [])
]

-- The timer of a poll, which is cleared where the poll stops waiting.
unfoldable pub poll_times_out : Session → String → Session × List Effect
unfolding remove_first
poll_times_out s waiter =
    if any (λ w. str_eq w waiter) s.poll_waiters
    then (
      record s { poll_waiters = remove_first waiter s.poll_waiters },
      answer_poll waiter (requests []) ∷ [],
    )
    else (s, [])

-- handleInfo: the denial, or what waits.
pub data InfoReply : Type 0 where
  info : (pending_requests poll_waiters : ℕ) (registered_at : Option ℕ) → InfoReply
  info_denied : (status : ℕ) (error : String) → InfoReply

unfoldable pub handle_info : Session → String → InfoReply
unfolding validate_token
handle_info s token = elim (validate_token s token) [
  | some (status, error) ↦ info_denied status error
  | none ↦ info (length s.pending_requests) (length s.poll_waiters) s.registered_at
]

-- The session as it is stored, and its restoring.
pub record PersistableSession : Type 0 where
  pub active : Bool
  pub session_token : String
  pub registered_at : Option ℕ

abbrev pub persistable_state : Session → PersistableSession
persistable_state s = record {
  active = s.active;
  session_token = s.session_token;
  registered_at = s.registered_at;
}

unfoldable pub restore : Session → PersistableSession → Session
restore s saved = record s {
  active = saved.active;
  session_token = saved.session_token;
  registered_at = saved.registered_at;
  timer_runs = saved.active || s.timer_runs;
}
