-- ===== src/GitSession/Responses.antt =====
-- What a response does to the requests that wait (src/git_serve_session.ts).
use bit_relay.Prelude.{
  subst, ℕ, ◌+◌, ◌≤◌, ◌≡◌, refl, Bool, List, [], ◌∷◌, map, Option, none, some, String,
  if◌then◌else◌, str_eq, eq_iff, arith, Bool-cases, inl, inr,
}
use bit_relay.Map
use bit_relay.Map.{Map}
use bit_relay.Map.Keys.{get-All, has_of_get, has-delete}
use bit_relay.Json.{as_record, string_or_empty, prop, Number, Json, Fields}
use bit_relay.GitServe.{
  thrown, responded, answer_respond, Session, PendingGitRequest, AgentResponse, Effect, Reply,
  answer,
}
use bit_relay.GitRespond.{
  respond_fields, headers_of, final_response, decoded, respond_headers, status_of, respond_body,
  respond_pending, respond_to, resolve, emitted, handle_respond,
}
use bit_relay.Text.{is_empty}
use bit_relay.GitSession.Count.{answers, waits, answers-append, Within, IsKeyed, IsSession}

module _ (to_lower_case : String → String) (decode : String → Option String)
    (set_headers : Map String → Option (Map String)) (accepts_response : AgentResponse → Bool)
    (search_param : List ℕ → List ℕ → Option (List ℕ)) where
  pub answers_refs :
      (id : String) (refs : List (List ℕ)) → answers id (map Effect.incoming_ref refs) ≡ 0
  unfolding answers
  answers_refs id [] = refl
  answers_refs id (ref ∷ refs) = omega (arith, answers_refs id refs)

  pub answers-emitted :
      (id : String) (pending : PendingGitRequest) (r : AgentResponse)
      → answers id
          (emitted to_lower_case decode set_headers accepts_response search_param pending r)
        ≡ 0
  unfolding answers
  answers-emitted id pending r = ground (arith, answers_refs id pending.incoming_refs)

  abbrev pub Ends : String → Session → PendingGitRequest → Session × List Effect → Type 0
  Ends id s pending (s', effects) =
      (s' ≡ s) × (answers id effects ≤ (if str_eq pending.request_id id then 1 else 0))

  pub resolve-Ends :
      (id : String) (s : Session) (pending : PendingGitRequest) (r : AgentResponse)
      → Ends id s pending
          (resolve to_lower_case decode set_headers accepts_response search_param s pending r)
  unfolding answers
  resolve-Ends id s pending r =
      let e = emitted to_lower_case decode set_headers accepts_response search_param pending r in
      elim (Bool-cases (accepts_response r)) [
        | inl accepted ↦ rw accepted (
          refl,
          omega (
            arith,
            answers-emitted id pending r,
            answers-append id e
                (answer pending.request_id (Reply.from_agent r) ∷ answer_respond responded ∷ []),
          ),
        )
        | inr refused ↦ rw refused (
          refl,
          omega (
            arith,
            answers-emitted id pending r,
            answers-append id e (answer_respond thrown ∷ []),
          ),
        )
      ]

  pub respond_headers-Ends :
      (id : String) (s : Session) (pending : PendingGitRequest) (status : Number)
      (body : Option String) (headers : Option (Map String))
      → Ends id s pending (
          respond_headers to_lower_case decode set_headers accepts_response search_param s pending
            status body headers)
  unfolding answers
  respond_headers-Ends id s pending status body none = (refl, ground arith)
  respond_headers-Ends id s pending status body (some headers) = resolve-Ends id s pending (
      final_response to_lower_case decode set_headers accepts_response search_param pending status
        headers body)

  pub respond_body-Ends :
      (id : String) (s : Session) (pending : PendingGitRequest) (fs : Fields)
      (body : Option (Option String))
      → Ends id s pending (
          respond_body to_lower_case decode set_headers accepts_response search_param s pending fs
            body)
  unfolding answers
  respond_body-Ends id s pending fs none = (refl, ground arith)
  respond_body-Ends id s pending fs (some body) =
      respond_headers-Ends id s pending (status_of (prop "status" fs)) body
        (set_headers (headers_of (prop "headers" fs)))

  pub respond_pending-Within :
      (id : String) (s : Session) (j : String) (fs : Fields) (found : Option PendingGitRequest)
      → IsSession s
      → Map.get j s.pending_requests ≡ found
      → Within id s 0 (
          respond_pending to_lower_case decode set_headers accepts_response search_param s j fs
            found)
  unfolding answers
  respond_pending-Within id s j fs none w e = ground arith
  respond_pending-Within id s j fs (some pending) w e =
      let s' : Session = record s { pending_requests = Map.delete j s.pending_requests } in
      let (same, most) = respond_body-Ends id s' pending fs (
        decoded to_lower_case decode set_headers accepts_response search_param
          (prop "body_base64" fs)) in
      let there = has_of_get j pending s.pending_requests e in
      let keyed : pending.request_id ≡ j = get-All IsKeyed j pending s.pending_requests e w.1 in
      let waited : waits id s' + (if str_eq j id then 1 else 0) ≤ waits id s =
        ground (arith, has-delete j id s.pending_requests, eq_iff j id, there) in
      let most' =
        subst
          (λ k.
            answers id
              (respond_to to_lower_case decode set_headers accepts_response search_param s' pending
                fs).1
            ≤ (if str_eq k id then 1 else 0))
          keyed most in
      rw same (omega (arith, waited, most'))

  pub respond-Within :
      (id : String) (s : Session) (parsed : Option Json)
      → IsSession s
      → Within id s 0
          (handle_respond to_lower_case decode set_headers accepts_response search_param s parsed)
  unfolding handle_respond answers
  respond-Within id s none w = ground arith
  respond-Within id s (some parsed) w = fields-Within (as_record parsed)
    where
      fields-Within :
          (fields : Option Fields)
          → Within id s 0 (
              respond_fields to_lower_case decode set_headers accepts_response search_param s
                fields)
      fields-Within none = ground arith
      fields-Within (some fs) =
          let j = string_or_empty (prop "request_id" fs) in
          elim (Bool-cases (is_empty j)) [
            | inl no_id ↦ rw no_id (ground arith)
            | inr there ↦
                rw there (respond_pending-Within id s j fs (Map.get j s.pending_requests) w refl)
          ]
