-- ===== src/GitRespond.antt =====
-- handleRespond of the Git serve session, after its token is accepted and its body is read
-- (src/git_serve_session.ts). `decode` is `atob` and the decoding of the bytes as text, `none` where
-- it throws; `set_headers` is `Headers.set` of each entry, `none` where it throws;
-- `accepts_response` says where `new Response` does not throw.
pub mod Compat
use bit_relay.Prelude.{
  ℕ, zero, Bool, false, ◌&&◌, List, [], ◌∷◌, ◌++◌, map, Option, none, some, String, str_eq,
  if◌then◌else◌, ltb, leb, ◌==◌,
}
use bit_relay.Map
use bit_relay.Map.{Map}
use bit_relay.Text.{is_empty, trim, chars}
use bit_relay.Json.{Number, Json, num, str, obj, Fields, entries, prop, as_record, string_or_empty}
use bit_relay.GitRefs.{
  build_receive_pack_advertisement_body, build_receive_pack_result_body,
  is_receive_pack_info_refs_path, compat_accepts,
}
use bit_relay.GitServe.{
  Session, PendingGitRequest, AgentResponse, Effect, answer, answer_respond, incoming_ref,
  from_agent, responded, respond_denied, thrown,
}

abbrev pub ok_number : ℕ → Number
ok_number n = Number.finite false n 0

abbrev pub status_of : Option Json → Number
status_of (some (num n)) = n
status_of _ = ok_number 200

-- The entries of `body.headers` whose values are strings.
abbrev pub string_entries : Map Json → Map String
string_entries [] = []
string_entries ((name, str value) ∷ rest) = (name, value) ∷ string_entries rest
string_entries (_ ∷ rest) = string_entries rest

abbrev pub headers_of : Option Json → Map String
headers_of (some (obj fs)) = string_entries (entries fs)
headers_of _ = []

abbrev pub is_403 : Number → Bool
is_403 (Number.finite false whole zero) = whole == 403
is_403 _ = false

unfoldable pub is_successful_http_status : Number → Bool
is_successful_http_status (Number.finite false whole fraction) = leb 200 whole && ltb whole 300
is_successful_http_status _ = false

abbrev pub text_of : Option String → Option (List ℕ)
text_of none = none
text_of (some text) = some (chars text)

abbrev with_type : Map String → String → Map String
unfolding Map.set
with_type headers type = Map.set "cache-control" "no-cache" (Map.set "content-type" type headers)

module _ (to_lower_case : String → String) (decode : String → Option String)
    (set_headers : Map String → Option (Map String)) (accepts_response : AgentResponse → Bool)
    (search_param : List ℕ → List ℕ → Option (List ℕ)) where
  abbrev pub is_receive_pack_disabled_body : Option String → Bool
  is_receive_pack_disabled_body none = false
  is_receive_pack_disabled_body (some text) =
      str_eq (to_lower_case (trim text)) "receive-pack not enabled"

  -- The response that the client gets for the one that the agent gave.
  unfoldable pub final_response :
      PendingGitRequest → Number → Map String → Option String → AgentResponse
  unfolding with_type build_receive_pack_advertisement_body build_receive_pack_result_body chars
  final_response pending status headers body =
      let disabled = is_403 status && is_receive_pack_disabled_body body in
      if disabled && is_receive_pack_info_refs_path search_param pending.path
      then record {
        status = ok_number 200;
        headers = with_type headers "application/x-git-receive-pack-advertisement";
        body = some build_receive_pack_advertisement_body;
      }
      else if disabled && compat_accepts pending.path pending.incoming_refs pending.all_relay_refs
      then record {
        status = ok_number 200;
        headers = with_type headers "application/x-git-receive-pack-result";
        body = some (build_receive_pack_result_body pending.incoming_refs);
      }
      else record { status = status; headers = headers; body = text_of body }

  abbrev pub emitted : PendingGitRequest → AgentResponse → List Effect
  emitted pending response =
      if is_successful_http_status response.status
      then map incoming_ref pending.incoming_refs
      else []

  abbrev pub resolve : Session → PendingGitRequest → AgentResponse → Session × List Effect
  resolve s pending response =
      if accepts_response response
      then (
        s,
        emitted pending response
            ++ answer pending.request_id (from_agent response) ∷ answer_respond responded ∷ [],
      )
      else (s, emitted pending response ++ answer_respond thrown ∷ [])

  -- `bodyBase64 ? fromBase64(bodyBase64) : null`
  abbrev pub decoded : Option Json → Option (Option String)
  decoded (some (str base64)) =
      if is_empty base64
      then some none
      else elim (decode base64) [ none ↦ none | some text ↦ some (some text) ]
  decoded _ = some none

  -- An exception ends the handler: the request is no longer pending and gets no answer.
  abbrev pub respond_headers :
      Session
      → PendingGitRequest
      → Number
      → Option String
      → Option (Map String)
      → Session × List Effect
  respond_headers s pending status body none = (s, answer_respond thrown ∷ [])
  respond_headers s pending status body (some headers) =
      resolve s pending (final_response pending status headers body)

  abbrev pub respond_body :
      Session → PendingGitRequest → Fields → Option (Option String) → Session × List Effect
  respond_body s pending fs none = (s, answer_respond thrown ∷ [])
  respond_body s pending fs (some body) =
      respond_headers s pending (status_of (prop "status" fs)) body
        (set_headers (headers_of (prop "headers" fs)))

  abbrev pub respond_to : Session → PendingGitRequest → Fields → Session × List Effect
  respond_to s pending fs = respond_body s pending fs (decoded (prop "body_base64" fs))

  abbrev pub deny : Session → ℕ → String → Session × List Effect
  deny s status error = (s, answer_respond (respond_denied status error) ∷ [])

  abbrev pub respond_pending :
      Session → String → Fields → Option PendingGitRequest → Session × List Effect
  respond_pending s id fs none = deny s 404 "request not found or already resolved"
  respond_pending s id fs (some pending) =
      respond_to (record s { pending_requests = Map.delete id s.pending_requests }) pending fs

  abbrev pub respond_fields : Session → Option Fields → Session × List Effect
  respond_fields s none = deny s 400 "invalid json"
  respond_fields s (some fs) =
      let id = string_or_empty (prop "request_id" fs) in
      if is_empty id
      then deny s 400 "missing request_id"
      else respond_pending s id fs (Map.get id s.pending_requests)

  unfoldable pub handle_respond : Session → Option Json → Session × List Effect
  handle_respond s none = deny s 400 "invalid json"
  handle_respond s (some parsed) = respond_fields s (as_record parsed)
