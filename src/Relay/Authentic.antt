-- ===== src/Relay/Authentic.antt =====
-- Whose requests change the rooms of a relay (src/memory_handler.ts).
use bit_relay.Prelude.{
  subst, ℕ, ◌≡◌, refl, sym, ◌∙◌, ap, ◌⊎◌, inl, inr, Bool, true, false, not, List, Option, none,
  some, String, arith, Bool-cases,
}
use bit_relay.Map.{Map}
use bit_relay.Text.{is_empty}
use bit_relay.Json.{Json}
use bit_relay.TimingSafe.{timing_safe_equal, timing_safe_equal_iff}
use bit_relay.Http.{
  Platform, Request, or_default, header_of, query_of, normalize_room, normalize_publish_payload,
  room_token_refused,
}
use bit_relay.Room.{RoomState}
use bit_relay.Identity.{
  Identity, PublishAuthHeaders, ParsedAuth, bad, Verified, refused, verified,
  parse_publish_auth_headers, handle_signature_verification, verify_parsed,
}
use bit_relay.Identity.Replay.{refused-ne-verified, Attempt, attempt}
use bit_relay.Identity.Keys.{attempt_keys, IsGenuine}
use bit_relay.CacheExchange.{Exchange}
use bit_relay.GitHub.{parse_github_signature_header}
use bit_relay.Relay.{RelayOptions, Relay, Response}
use bit_relay.Relay.Action.{Action, ◌>>=◌, raise, run}
use bit_relay.Relay.Webhook.{handle_github_webhook}
use bit_relay.Relay.Publish.{
  trimmed_or, count_ip, count_sender, count_room, signature_headers, signing_message,
  verify_publish, or_refuse, handle_publish,
}
use bit_relay.Relay.Guarded.{Guarded, guard-Guarded, or_raise-Guarded, run-Guarded}

module _ (p : Platform) (o : RelayOptions) where
  -- The header holds the HMAC of the body under the configured secret.
  abbrev pub IsSignedWebhook : Request → Type 0
  IsSignedWebhook q =
      (is_empty o.github_webhook_secret ≡ false)
      × (parse_github_signature_header p (header_of q "x-hub-signature-256")
          ≡ some (p.hmac_sha256_hex o.github_webhook_secret q.body))

  signed_by :
      (expected hex : String) (found : Option String)
      → found ≡ some hex
      → not (timing_safe_equal expected hex) ≡ false
      → found ≡ some expected
  signed_by expected hex found e equal =
      let same : timing_safe_equal expected hex ≡ true = ground arith in
      e ∙ ap some (sym ((timing_safe_equal_iff expected hex).0 same))

  -- A webhook request changes nothing of the relay, or a secret is configured and the request's
  -- signature header holds the HMAC of its body under it.
  pub webhook-signed :
      (q : Request) (now : ℕ) (s : Relay)
      → ((handle_github_webhook p o q now s).0 ≡ s) ⊎ IsSignedWebhook q
  unfolding handle_github_webhook
  webhook-signed q now s =
      let C = IsSignedWebhook q in
      guard-Guarded (λ x. x) C _ _ _ _ s
        λ _.
          guard-Guarded (λ x. x) C _ _ _ _ s
            λ secret.
              guard-Guarded (λ x. x) C _ _ _ _ s
                λ _.
                  or_raise-Guarded (λ x. x) C _ _ _ _ s
                    λ hex found.
                      guard-Guarded (λ x. x) C _ _ _ _ s
                        λ equal. inr (
                          secret,
                          signed_by (p.hmac_sha256_hex o.github_webhook_secret q.body) hex _ found
                              equal,
                        )

  -- The rooms and the exchange.
  abbrev pub published : Relay → Map RoomState × Exchange
  published s = (s.rooms, s.exchange)

  -- Headers that verify for the text to sign.
  abbrev pub IsSigned : Request → (PublishAuthHeaders → List ℕ) → Type 0
  IsSigned q text =
      (auth : PublishAuthHeaders) × (parse_publish_auth_headers (signature_headers q)
        ≡ ParsedAuth.ok (some auth))
      × (p.verify_signature auth.public_key (text auth) auth.signature ≡ true)

  attempt-verifies :
      (s : Identity) (a : Attempt) (signature : Option String)
      → (attempt o.identity p.verify_signature s a).1 ≡ verified signature
      → p.verify_signature a.auth.public_key (a.message a.auth) a.auth.signature ≡ true
  attempt-verifies s a signature e =
      let s' = (attempt o.identity p.verify_signature s a).0 in
      (subst (IsGenuine o.identity p.verify_signature a s') e
        (attempt_keys o.identity p.verify_signature s a a.sender).1).0

  parsed-IsSigned :
      (s : Identity) (q : Request) (sender : String) (text : PublishAuthHeaders → List ℕ) (now : ℕ)
      (signature : Option String) (parsed : ParsedAuth) (required : Bool)
      → required ≡ true
      → parse_publish_auth_headers (signature_headers q) ≡ parsed
      → (verify_parsed o.identity p.verify_signature s sender parsed text now required).1
        ≡ verified signature
      → IsSigned q text
  parsed-IsSigned s q sender text now signature (bad reason) required r h e =
      absurd (refused-ne-verified reason signature e)
  parsed-IsSigned s q sender text now signature (ParsedAuth.ok none) true r h e =
      absurd (refused-ne-verified _ signature e)
  parsed-IsSigned s q sender text now signature (ParsedAuth.ok none) false r h e =
      absurd (ground arith)
  parsed-IsSigned s q sender text now signature (ParsedAuth.ok (some auth)) required r h e =
      let a : Attempt = record { sender = sender; auth = auth; message = text; now = now } in
      (auth, h, attempt-verifies s a signature e)

  verify-IsSigned :
      (s : Relay) (q : Request) (sender room id topic : String) (payload : Json) (now : ℕ)
      (signature : Option String)
      → o.identity.require_signatures ≡ true
      → (verify_publish p o q sender room id topic payload now s).1 ≡ verified signature
      → IsSigned q (signing_message p o sender room id topic payload)
  unfolding verify_publish handle_signature_verification
  verify-IsSigned s q sender room id topic payload now signature required e =
      parsed-IsSigned s.identity q sender (signing_message p o sender room id topic payload) now
        signature (parse_publish_auth_headers (signature_headers q)) o.identity.require_signatures
        required refl e

  or_refuse-Guarded {ℓ κ} :
      {X : Type ℓ} {B : Type κ} (part : Relay → X) (C : Type 0) (verdict : Verified)
      (k : Option String → Action B) (s : Relay)
      → ((signature : Option String) → verdict ≡ verified signature → C)
      → Guarded part C (or_refuse p o verdict >>= k) s
  unfolding ◌>>=◌ raise
  or_refuse-Guarded part C (refused reason) k s h = inl refl
  or_refuse-Guarded part C (verified signature) k s h = inr (h signature refl)

  count_ip-published :
      (ip : String) (now : ℕ) (s : Relay) → published (count_ip o ip now s).0 ≡ published s
  unfolding count_ip
  count_ip-published ip now s = elim (Bool-cases (is_empty ip)) [
    | inl unknown ↦ rw unknown refl
    | inr known ↦ rw known refl
  ]

  -- A publish request that its room's token lets in and whose headers verify for its text.
  abbrev pub IsSignedPublish : Request → (fresh_id : String) → Type 0
  IsSignedPublish q fresh_id =
      let room = normalize_room (q.query "room") in
      (parsed : Json) × (p.json_parse q.body ≡ some parsed)
      × (room_token_refused o.room_tokens q room ≡ false)
      × IsSigned q (
          signing_message p o (query_of q "sender") room
            (trimmed_or (or_default (q.query "id") fresh_id) fresh_id)
            (trimmed_or (or_default (q.query "topic") "notify") "notify")
            (normalize_publish_payload parsed))

  -- From the check of the signature on.
  verify-Guarded :
      (q : Request) (sender room id topic : String) (payload : Json) (now : ℕ) (C : Type 0)
      (k : Option String → Action Response) (s : Relay)
      → o.identity.require_signatures ≡ true
      → (IsSigned q (signing_message p o sender room id topic payload) → C)
      → Guarded published C
          (run (verify_publish p o q sender room id topic payload now) >>= λ verdict.
            or_refuse p o verdict >>= k)
          s
  unfolding verify_publish
  verify-Guarded q sender room id topic payload now C k s required h =
      run-Guarded published C _ _ s refl (
        or_refuse-Guarded published C _ k _ λ signature e.
          h (verify-IsSigned s q sender room id topic payload now signature required e))

  -- Where signatures are required, a publish request changes no room and not the exchange, or the
  -- token of its room lets it in and its signature is genuine for the text of exactly this publish.
  pub publish-signed :
      (q : Request) (now_ms now_sec : ℕ) (fresh_id : String) (s : Relay)
      → o.identity.require_signatures ≡ true
      → (published (handle_publish p o q now_ms now_sec fresh_id s).0 ≡ published s)
        ⊎ IsSignedPublish q fresh_id
  unfolding handle_publish count_sender count_room
  publish-signed q now_ms now_sec fresh_id s required =
      let C = IsSignedPublish q fresh_id in
      guard-Guarded published C _ _ _ _ s λ _. guard-Guarded published C _ _ _ _ s λ _.
        guard-Guarded published C _ _ _ _ s λ _. guard-Guarded published C _ _ _ _ s λ opened.
          run-Guarded published C _ _ s (count_ip-published _ now_ms s) (
            guard-Guarded published C _ _ _ _ _ λ _. run-Guarded published C _ _ _ refl (
              guard-Guarded published C _ _ _ _ _ λ _. run-Guarded published C _ _ _ refl (
                guard-Guarded published C _ _ _ _ _ λ _. guard-Guarded published C _ _ _ _ _ λ _.
                  guard-Guarded published C _ _ _ _ _ λ _.
                    or_raise-Guarded published C _ _ _ _ _ λ parsed found.
                      verify-Guarded q _ _ _ _ _ now_sec C _ _ required
                        λ signed. (parsed, found, opened, signed))))
