-- ===== src/Relay/Keys.antt =====
-- handleKeyVerifyGitHub (src/memory_handler.ts) and matchesGitHubKey (src/github_keys.ts). Times are
-- epoch seconds.
use Prim.Native.String
use bit_relay.Prelude.{
  ℕ, ◌⊎◌, inl, inr, ◌==◌, Bool, true, false, not, ◌&&◌, List, Option, none, some, String, str_eq,
  any, length,
}
use bit_relay.Map
use bit_relay.Text.{trim, is_empty, same}
use bit_relay.Json.{prop, string_or_empty}
use bit_relay.Http.{Platform, Request}
use bit_relay.Identity.{Identity, KeyRecord}
use bit_relay.Relay.{Relay, Response, github_body}
use bit_relay.Relay.Action.{Action, ◌>>=◌, ◌>>◌, pure, raise, raise_if, or_raise, gets, run}
use bit_relay.Relay.Peers.{object_of}

-- A raw key has 32 bytes; keys of another length match nothing.
abbrev matches_bytes : Option (List ℕ) → List (List ℕ) → Bool
matches_bytes none keys = false
matches_bytes (some bytes) keys = (length bytes == 32) && any (same bytes) keys

unfoldable pub matches_github_key : Platform → String → List (List ℕ) → Bool
unfolding same
matches_github_key p public_key keys = matches_bytes (p.decode_base64url public_key) keys

abbrev mark_verified : Option KeyRecord → (username : String) → (now : ℕ) → Identity → Identity
mark_verified none username now s = s
mark_verified (some key) username now s = record s {
  key_registry =
      Map.set username
        (record key { github_username = some username; github_verified_at = some now })
        s.key_registry;
}

-- `record.githubUsername = githubUsername`, on the record of the sender.
unfoldable pub set_verified : (username : String) → (now : ℕ) → Identity → Identity
unfolding Map.get Map.set
set_verified username now s = mark_verified (Map.get username s.key_registry) username now s

module _ (p : Platform) where
  abbrev pub keys_or_raise : List (List ℕ) ⊎ String → Action (List (List ℕ))
  keys_or_raise (inl keys) = pure keys
  keys_or_raise (inr reason) = raise 502 (String.◌++◌ "github key fetch failed: " reason)

  abbrev pub verify_in : (username : String) → (now : ℕ) → Relay → Relay × Unit {0}
  verify_in username now s = (record s { identity = set_verified username now s.identity }, tt)

  abbrev pub answer_match : Bool → (sender : String) → ℕ → Action Response
  answer_match false sender now = pure (record { status = 200; body = github_body sender none })
  answer_match true sender now =
      run (verify_in sender now)
      >> pure (record { status = 200; body = github_body sender (some now) })

  unfoldable pub handle_key_verify_github : Request → (now : ℕ) → Action Response
  unfolding prop trim matches_github_key Map.get
  handle_key_verify_github q now = do
    raise_if (not (str_eq q.method "POST")) 405 "method not allowed"
    fs ← or_raise (object_of (p.json_parse q.body)) 400 "invalid json payload"
    let sender = trim (string_or_empty (prop "sender" fs))
    let username = trim (string_or_empty (prop "github_username" fs))
    raise_if (is_empty sender) 400 "missing field: sender"
    raise_if (is_empty username) 400 "missing field: github_username"
    raise_if (not (str_eq sender username)) 400 "sender must match github_username"
    registered ← gets (λ s. Map.get sender s.identity.key_registry)
    key ← or_raise registered 404 "sender key not found"
    keys ← keys_or_raise (p.fetch_github_keys username)
    answer_match (matches_github_key p key.public_key keys) sender now
