-- ===== src/GitSession.antt =====
-- The events of the Git serve session, in any order (src/git_serve_session.ts): what a handler does
-- up to its first `await`, what follows the `await` of a body, and the timers.
pub mod Count
pub mod Responses
pub mod Answers
pub mod Lost
use bit_relay.Prelude.{
  ℕ, Bool, true, false, List, [], ◌∷◌, ◌++◌, Option, none, some, String, if◌then◌else◌,
}
use bit_relay.Map.{Map}
use bit_relay.Json.{Json}
use bit_relay.GitServe
use bit_relay.GitServe.{
  Session, PendingGitRequest, PersistableSession, AgentResponse, Effect, cleanup, handle_register,
  handle_git_request, handle_poll, request_times_out, poll_times_out, restore,
}
use bit_relay.GitRespond.{handle_respond}

pub data Event : Type 0 where
  register : (token : String) → (now : ℕ) → Event
  poll : (waiter token : String) → Event
  git_request : PendingGitRequest → Event
  body_read : (id base64 : String) → (text : List ℕ) → (is_push : Bool) → Event
  respond : Option Json → Event
  request_timeout : (id : String) → Event
  poll_timeout : (waiter : String) → Event
  session_timeout : Event
  restored : PersistableSession → Event

module _ (to_lower_case : String → String) (decode : String → Option String)
    (set_headers : Map String → Option (Map String)) (accepts_response : AgentResponse → Bool)
    (search_param : List ℕ → List ℕ → Option (List ℕ)) where
  unfoldable pub step : Session → Event → Session × List Effect
  unfolding handle_register handle_poll handle_git_request GitServe.body_read handle_respond
      request_times_out poll_times_out cleanup restore
  step s (register token now) = (handle_register s token now, [])
  step s (poll waiter token) = handle_poll s waiter token
  step s (git_request request) = handle_git_request s request
  step s (body_read id base64 text is_push) = GitServe.body_read s id base64 text is_push
  step s (respond parsed) =
      handle_respond to_lower_case decode set_headers accepts_response search_param s parsed
  step s (request_timeout id) = request_times_out s id
  step s (poll_timeout waiter) = poll_times_out s waiter
  step s session_timeout = if s.timer_runs then cleanup s else (s, [])
  step s (restored saved) = (restore s saved, [])

  unfoldable pub run : Session → List Event → Session × List Effect
  unfolding step
  run s [] = (s, [])
  run s (event ∷ events) =
      let (s', effects) = step s event in let (s'', more) = run s' events in (s'', effects ++ more)
