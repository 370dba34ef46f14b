-- ===== src/Tests/Git.antt =====
-- The Git serve session.
use bit_relay.Prelude.{
  length, ◌<◌, ◌⊎◌, str_eq, if◌then◌else◌, ℕ, ◌+◌, ◌≤◌, ◌≡◌, refl, Bool, true, false, List, [], ◌∷◌,
  Option, none, some, String, All,
}
use bit_relay.Map
use bit_relay.Map.{Map}
use bit_relay.Text.{trim, chars}
use bit_relay.Json.{str, obj, Fields, end, field, prop}
use bit_relay.GitRefs.{
  compat_accepts, is_receive_pack_rpc_path, is_receive_pack_info_refs_path, extract_incoming_refs,
}
use bit_relay.GitServe
use bit_relay.GitServe.{
  Session, PendingGitRequest, AgentResponse, create_git_serve_session, request_of, cleanup,
  body_read,
}
use bit_relay.GitRespond.{final_response, ok_number, text_of}
use bit_relay.GitRespond.Compat.{IsIncoming, is_refused, final_response-cases}
use bit_relay.GitSession.{Event, run}
use bit_relay.GitSession.Count.{answers, sent, waits}
use bit_relay.GitSession.Answers.{run-answers}
use bit_relay.GitSession.Lost.{respond_lost, closed_session_accepts}

extract_test :
    extract_incoming_refs (chars "0 refs/relay/incoming/a refs/heads/b refs/relay/incoming/a")
    ≡ chars "refs/relay/incoming/a" ∷ []
unfolding extract_incoming_refs chars
extract_test = refl

abbrev lower : String → String
lower s = s

-- What is not base64 is "!" here.
abbrev decode : String → Option String
decode s = if str_eq s "!" then none else some s

abbrev set_headers : Map String → Option (Map String)
set_headers headers = some headers

abbrev accepts_response : AgentResponse → Bool
accepts_response response = true

abbrev search_param : List ℕ → List ℕ → Option (List ℕ)
search_param search name = none

abbrev get_request : PendingGitRequest
get_request = record {
  request_id = "r1";
  method = "GET";
  path = [];
  headers = [];
  body_base64 = none;
  incoming_refs = [];
  all_relay_refs = [];
}

abbrev events : List Event
events =
    Event.register "token" 1
    ∷ Event.git_request get_request
    ∷ Event.request_timeout "r1"
    ∷ Event.session_timeout
    ∷ []

abbrev run_events : Session → List Event → Session × List GitServe.Effect
run_events = run lower decode set_headers accepts_response search_param

run_test : answers "r1" (run_events create_git_serve_session events).1 ≡ 1
unfolding run answers create_git_serve_session Map.set Map.has Map.get Map.delete
run_test = refl

run-answers_example :
    answers "r1" (run_events create_git_serve_session events).1
      + waits "r1" (run_events create_git_serve_session events).0
    ≤ waits "r1" create_git_serve_session + sent "r1" events
unfolding create_git_serve_session
run-answers_example =
    run-answers lower decode set_headers accepts_response search_param "r1" create_git_serve_session
      events (tt, tt)

abbrev waiting : Session
waiting = record {
  active = true;
  session_token = "token";
  registered_at = some 1;
  timer_runs = true;
  reading = ("r2", get_request) ∷ [];
  pending_requests = ("r1", get_request) ∷ [];
  poll_waiters = [];
}

abbrev bad_response : Fields
bad_response = field "request_id" (str "r1") (field "body_base64" (str "!") end)

abbrev events_after : List Event
events_after = Event.request_timeout "r1" ∷ Event.session_timeout ∷ []

respond_lost_example :
    answers "r1" (run_events waiting (Event.respond (some (obj bad_response)) ∷ events_after)).1 ≡ 0
unfolding Map.get Map.has prop sent
respond_lost_example =
    respond_lost lower decode set_headers accepts_response search_param waiting "r1" get_request
      bad_response events_after ((refl, tt), (refl, tt)) refl refl refl refl refl refl

closed_session_accepts_example :
    (Map.has "r2" (body_read (cleanup waiting).0 "r2" "" [] false).0.pending_requests ≡ true)
    × ((body_read (cleanup waiting).0 "r2" "" [] false).0.active ≡ false)
unfolding Map.get
closed_session_accepts_example = closed_session_accepts waiting "r2" "" [] false get_request refl

abbrev push : PendingGitRequest
unfolding chars
push = record get_request {
  path = chars "/git-receive-pack";
  incoming_refs = chars "refs/relay/incoming/a" ∷ [];
  all_relay_refs = chars "refs/relay/incoming/a" ∷ [];
}

-- The agent refuses a push to an incoming ref.
final_response_test :
    (final_response lower decode set_headers accepts_response search_param push
      (ok_number 403)
      []
      (some "receive-pack not enabled")).status
    ≡ ok_number 200
unfolding final_response chars trim is_receive_pack_info_refs_path compat_accepts
final_response_test = refl

final_response-cases_example :
    let r =
      final_response lower decode set_headers accepts_response search_param push
        (ok_number 403)
        []
        (some "receive-pack not enabled") in
    let refused =
      is_refused lower decode set_headers accepts_response search_param
        (ok_number 403)
        (some "receive-pack not enabled") in
    ((r.status ≡ ok_number 403)
      × (r.headers ≡ [])
      × (r.body ≡ text_of (some "receive-pack not enabled")))
    ⊎ ((refused ≡ true)
        × ((is_receive_pack_info_refs_path search_param push.path ≡ true)
            ⊎ ((is_receive_pack_rpc_path push.path ≡ true)
                × (0 < length push.all_relay_refs)
                × All IsIncoming push.all_relay_refs)))
final_response-cases_example =
    final_response-cases lower decode set_headers accepts_response search_param push (ok_number 403)
      [] (some "receive-pack not enabled")
