-- ===== src/Identity.antt =====
-- Who may publish: nonces against replay, the key of each sender by trust on first use, the check
-- of a signed request and the rotation of a key (src/memory_handler.ts). Times are epoch seconds.
-- The Ed25519 check is the platform's, a parameter.
pub mod Nonces
pub mod Replay
pub mod Rotate
pub mod Keys
pub mod Rotation
use bit_relay.Prelude.{
  ℕ, ◌+◌, ◌-◌, zero, suc, Bool, true, false, not, ◌&&◌, ◌||◌, List, [], ◌∷◌, ◌++◌, Option, none,
  some, String, if◌then◌else◌, ltb, leb, ◌==◌, length, keep,
}
use bit_relay.Map
use bit_relay.Map.{Map, or_empty}
use bit_relay.Text.{trim, is_empty, utf16_length, parse_int}
use bit_relay.TimingSafe.{timing_safe_equal}
use bit_relay.Signing.{is_likely_base64_url, RotateSigningInput, build_rotate_signing_message}

pub data KeyStatus : Type 0 where
  active revoked : KeyStatus

pub record KeyRecord : Type 0 where
  pub public_key : String
  pub status : KeyStatus
  pub first_seen_at : ℕ
  pub last_seen_at : ℕ
  pub rotated_at : Option ℕ
  pub revoked_at : Option ℕ
  pub github_username : Option String
  pub github_verified_at : Option ℕ

pub record IdentityOptions : Type 0 where
  pub require_signatures : Bool
  pub max_clock_skew_sec : ℕ
  pub nonce_ttl_sec : ℕ
  pub max_nonces_per_sender : ℕ

-- `keyRegistry` and `noncesBySender`.
pub record Identity : Type 0 where
  pub key_registry : Map KeyRecord
  pub nonces_by_sender : Map (Map ℕ)

-- An error reply: `toErrorResponse(error, status)`.
pub record Denied : Type 0 where
  pub status : ℕ
  pub error : String

abbrev pub denied : ℕ → String → Denied
denied status error = record { status = status; error = error }

-- `while (map.size > maxNoncesPerSender) map.delete(first key)`
unfoldable pub evict_oldest : ℕ → Map ℕ → Map ℕ
evict_oldest most [] = []
evict_oldest most (e ∷ m) =
    let fewer = evict_oldest most m in if ltb most (length (e ∷ m)) then fewer else e ∷ m

-- The loop that drops what is older than the time to live: `nowSec - ts > nonceTtlSec`.
abbrev pub unexpired : (ttl now : ℕ) → Map ℕ → Map ℕ
unexpired ttl now = keep (λ e. not (ltb (e.1 + ttl) now))

abbrev first_key : String → ℕ → KeyRecord
first_key public_key now = record {
  public_key = public_key;
  status = active;
  first_seen_at = now;
  last_seen_at = now;
  rotated_at = none;
  revoked_at = none;
  github_username = none;
  github_verified_at = none;
}

abbrev set_key : Identity → String → KeyRecord → Identity
set_key s sender key = record s { key_registry = Map.set sender key s.key_registry }

abbrev is_active : KeyStatus → Bool
is_active active = true
is_active revoked = false

abbrev pub set_nonces : Identity → String → Map ℕ → Identity
set_nonces s sender nonces = record s {
  nonces_by_sender = Map.set sender nonces s.nonces_by_sender;
}

module _ (options : IdentityOptions) where
  open options use {require_signatures, max_clock_skew_sec, nonce_ttl_sec, max_nonces_per_sender}

  -- The sender's nonces after pruning.
  unfoldable pub pruned_nonces : Identity → String → ℕ → Map ℕ
  unfolding evict_oldest
  pruned_nonces s sender now =
      evict_oldest max_nonces_per_sender
        (unexpired nonce_ttl_sec now (or_empty (Map.get sender s.nonces_by_sender)))

  -- `pruneSenderNonces` changes the sender's map in place.
  unfoldable pub prune_sender_nonces : Identity → String → ℕ → Identity
  unfolding pruned_nonces
  prune_sender_nonces s sender now = set_nonces s sender (pruned_nonces s sender now)

  unfoldable pub is_replay_nonce : Identity → String → String → ℕ → Identity × Bool
  unfolding prune_sender_nonces
  is_replay_nonce s sender nonce now =
      (prune_sender_nonces s sender now, Map.has nonce (pruned_nonces s sender now))

  unfoldable pub remember_nonce : Identity → (sender nonce : String) → (ts now : ℕ) → Identity
  unfolding pruned_nonces evict_oldest
  remember_nonce s sender nonce ts now =
      set_nonces s sender
        (evict_oldest max_nonces_per_sender (Map.set nonce ts (pruned_nonces s sender now)))

  abbrev check_key : Identity → String → String → ℕ → Option KeyRecord → Identity × Option Denied
  check_key s sender public_key now none = (set_key s sender (first_key public_key now), none)
  check_key s sender public_key now (some key) =
      if not (is_active key.status)
      then (s, some (denied 403 "sender key revoked"))
      else if not (timing_safe_equal key.public_key public_key)
      then (s, some (denied 409 "sender key mismatch"))
      else (set_key s sender (record key { last_seen_at = now }), none)

  -- The key that a sender shows first is kept; later ones must equal it.
  unfoldable pub ensure_tofu_key :
      Identity → (sender public_key : String) → ℕ → Identity × Option Denied
  ensure_tofu_key s sender public_key now =
      check_key s sender public_key now (Map.get sender s.key_registry)

-- The values of the four signature headers, `''` where one is missing.
pub record SignatureHeaders : Type 0 where
  pub public_key : String
  pub signature : String
  pub timestamp : String
  pub nonce : String

pub record PublishAuthHeaders : Type 0 where
  pub public_key : String
  pub signature : String
  pub timestamp_sec : ℕ
  pub nonce : String

pub data ParsedAuth : Type 0 where
  ok : Option PublishAuthHeaders → ParsedAuth
  bad : Denied → ParsedAuth

-- `Number.isFinite(value) && value > 0`
abbrev pub positive : Option (Bool × ℕ) → Option ℕ
positive (some (false, suc n)) = some (suc n)
positive _ = none

abbrev with_timestamp : (public_key signature nonce : String) → Option ℕ → ParsedAuth
with_timestamp public_key signature nonce none = bad (denied 400 "invalid signature timestamp")
with_timestamp public_key signature nonce (some ts) =
    if ltb 256 (utf16_length nonce)
    then bad (denied 400 "invalid nonce")
    else ok (
        some (record {
          public_key = public_key;
          signature = signature;
          timestamp_sec = ts;
          nonce = nonce;
        }))

unfoldable pub parse_publish_auth_headers : SignatureHeaders → ParsedAuth
unfolding trim parse_int is_likely_base64_url utf16_length
parse_publish_auth_headers h =
    let public_key = trim h.public_key in
    let signature = trim h.signature in
    let timestamp = trim h.timestamp in
    let nonce = trim h.nonce in
    if is_empty public_key && is_empty signature && is_empty timestamp && is_empty nonce
    then ok none
    else if is_empty public_key || is_empty signature || is_empty timestamp || is_empty nonce
    then bad (denied 400 "incomplete signature headers")
    else if not (is_likely_base64_url public_key) || not (is_likely_base64_url signature)
    then bad (denied 400 "invalid signature headers")
    else with_timestamp public_key signature nonce (positive (parse_int timestamp))

-- `Math.abs(nowSec - ts) > maxClockSkewSec`
abbrev pub is_stale : (skew now ts : ℕ) → Bool
is_stale skew now ts = ltb skew ((now - ts) + (ts - now))

-- The check of a signed request: a reply that refuses it, or its signature.
pub data Verified : Type 0 where
  refused : Denied → Verified
  verified : Option String → Verified

-- A signature check, of a public key, the signed text and a signature.
abbrev pub Verifier : Type 0
Verifier = String → List ℕ → String → Bool

module _ (options : IdentityOptions) (verify_signature : Verifier) where
  open options use {require_signatures, max_clock_skew_sec, nonce_ttl_sec, max_nonces_per_sender}

  abbrev after_key :
      String → PublishAuthHeaders → ℕ → Identity × Option Denied → Identity × Verified
  after_key sender auth now (s, some error) = (s, refused error)
  after_key sender auth now (s, none) = (
    remember_nonce options s sender auth.nonce auth.timestamp_sec now,
    verified (some auth.signature),
  )

  -- From the freshness test on; `message` is the text to sign for these headers.
  unfoldable pub verify_auth :
      Identity
      → String
      → PublishAuthHeaders
      → (PublishAuthHeaders → List ℕ)
      → ℕ
      → Identity × Verified
  unfolding is_replay_nonce ensure_tofu_key remember_nonce
  verify_auth s sender auth message now =
      if is_stale max_clock_skew_sec now auth.timestamp_sec
      then (s, refused (denied 401 "stale signature timestamp"))
      else let (s', replay) = is_replay_nonce options s sender auth.nonce now in
        if replay
        then (s', refused (denied 409 "replayed nonce"))
        else if not (verify_signature auth.public_key (message auth) auth.signature)
        then (s', refused (denied 401 "invalid signature"))
        else after_key sender auth now (ensure_tofu_key options s' sender auth.public_key now)

  abbrev pub verify_parsed :
      Identity
      → String
      → ParsedAuth
      → (PublishAuthHeaders → List ℕ)
      → ℕ
      → Bool
      → Identity × Verified
  verify_parsed s sender (bad error) message now required = (s, refused error)
  verify_parsed s sender (ok none) message now required =
      (s, if required then refused (denied 401 "missing signature headers") else verified none)
  verify_parsed s sender (ok (some auth)) message now required =
      verify_auth s sender auth message now

  -- A publish; the message is built from the request and the headers' time and nonce.
  unfoldable pub handle_signature_verification :
      Identity → String → SignatureHeaders → (PublishAuthHeaders → List ℕ) → ℕ → Identity × Verified
  unfolding verify_auth parse_publish_auth_headers
  handle_signature_verification s sender headers message now =
      verify_parsed s sender (parse_publish_auth_headers headers) message now require_signatures
