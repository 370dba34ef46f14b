-- ===== src/GitRespond/Compat.antt =====
-- What the relay answers in the agent's place (handleRespond of src/git_serve_session.ts).
use bit_relay.Prelude.{
  ℕ, ◌<◌, ◌≡◌, ◌⊎◌, inl, inr, refl, Bool, true, ◌&&◌, List, [], ◌∷◌, ◌++◌, Option, some, String,
  arith, Bool-cases, length, all, All, Option-cases,
}
use bit_relay.Map.{Map}
use bit_relay.Json.{Number}
use bit_relay.GitServe.{PendingGitRequest, AgentResponse}
use bit_relay.GitRefs.{
  incoming_prefix, strip_prefix, starts_with_incoming, compat_accepts, is_receive_pack_rpc_path,
  is_receive_pack_info_refs_path,
}
use bit_relay.GitRespond.{is_403, is_receive_pack_disabled_body, final_response, text_of}

-- A ref below 'refs/relay/incoming/'.
abbrev pub IsIncoming : List ℕ → Type 0
IsIncoming ref = (rest : List ℕ) × (ref ≡ incoming_prefix ++ rest)

strip_prefix-append :
    (prefix text rest : List ℕ) → strip_prefix prefix text ≡ some rest → text ≡ prefix ++ rest
unfolding strip_prefix
strip_prefix-append [] text rest e = cc
strip_prefix-append (p ∷ ps) [] rest e = cc
strip_prefix-append (p ∷ ps) (c ∷ cs) rest e = ground (arith, strip_prefix-append ps cs rest)

starts_with-IsIncoming : (ref : List ℕ) → starts_with_incoming ref ≡ true → IsIncoming ref
unfolding starts_with_incoming
starts_with-IsIncoming ref h = elim (Option-cases (strip_prefix incoming_prefix ref)) [
  | inl no_prefix ↦ absurd (ground (arith, no_prefix))
  | inr (rest, found) ↦ (rest, strip_prefix-append incoming_prefix ref rest found)
]

all-IsIncoming : (refs : List (List ℕ)) → all starts_with_incoming refs ≡ true → All IsIncoming refs
all-IsIncoming [] h = tt
all-IsIncoming (ref ∷ refs) h =
    (starts_with-IsIncoming ref (ground arith), all-IsIncoming refs (ground arith))

module _ (to_lower_case : String → String) (decode : String → Option String)
    (set_headers : Map String → Option (Map String)) (accepts_response : AgentResponse → Bool)
    (search_param : List ℕ → List ℕ → Option (List ℕ)) where
  abbrev pub is_refused : Number → Option String → Bool
  is_refused status body =
      is_403 status
      && is_receive_pack_disabled_body to_lower_case decode set_headers accepts_response
          search_param body

  -- Either the agent's response stands; or the agent refused with 403 and its fixed text, and the
  -- request asks for the refs of a push, or is a push that names a ref and only refs below
  -- 'refs/relay/incoming/'.
  pub final_response-cases :
      (pending : PendingGitRequest) (status : Number) (headers : Map String) (body : Option String)
      → let r =
          final_response to_lower_case decode set_headers accepts_response search_param pending
            status headers body in
        ((r.status ≡ status) × (r.headers ≡ headers) × (r.body ≡ text_of body))
        ⊎ ((is_refused status body ≡ true)
            × ((is_receive_pack_info_refs_path search_param pending.path ≡ true)
                ⊎ ((is_receive_pack_rpc_path pending.path ≡ true)
                    × (0 < length pending.all_relay_refs)
                    × All IsIncoming pending.all_relay_refs)))
  unfolding final_response compat_accepts
  final_response-cases pending status headers body =
      let info = is_receive_pack_info_refs_path search_param pending.path in
      let compat = compat_accepts pending.path pending.incoming_refs pending.all_relay_refs in
      elim (Bool-cases (is_refused status body && info)) [
        | inl both ↦ inr (ground arith, inl (ground arith))
        | inr neither ↦ elim (Bool-cases (is_refused status body && compat)) [
          | inl accepts ↦ inr (
            ground arith,
            inr (ground arith, ground arith, all-IsIncoming pending.all_relay_refs (ground arith)),
          )
          | inr refuses ↦ rw (neither, refuses) (inl (refl, refl, refl))
        ]
      ]
