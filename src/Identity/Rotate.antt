-- ===== src/Identity/Rotate.antt =====
-- handleKeyRotate and handleKeyInfo (src/memory_handler.ts). The body is what `JSON.parse` makes of
-- it, `none` where it throws.
use bit_relay.Prelude.{inr, inl, ◌⊎◌, ℕ, not, ◌||◌, Option, none, some, String, if◌then◌else◌, ltb}
use bit_relay.Map
use bit_relay.Map.{Map, or_empty}
use bit_relay.Text.{trim, is_empty, utf16_length, parse_int}
use bit_relay.Json.{Json, Number, num, str, Fields, prop, as_record, string_or_empty}
use bit_relay.Signing.{is_likely_base64_url, build_rotate_signing_message}
use bit_relay.Identity.{
  Identity, IdentityOptions, KeyRecord, is_active, set_key, Denied, denied, positive, is_stale,
  is_replay_nonce, remember_nonce, Verifier,
}

pub record RotateRequest : Type 0 where
  pub sender : String
  pub new_public_key : String
  pub ts : Option ℕ
  pub nonce : String
  pub old_signature : String
  pub new_signature : String

-- A number's whole part or a text's `parseInt`, where it is finite and greater than 0.
abbrev positive_ts : Option Json → Option ℕ
positive_ts (some (num (Number.finite negative whole fraction))) = positive (some (negative, whole))
positive_ts (some (str s)) = positive (parse_int s)
positive_ts _ = none

unfoldable pub rotate_request_of : Fields → RotateRequest
unfolding trim parse_int prop
rotate_request_of fs = record {
  sender = trim (string_or_empty (prop "sender" fs));
  new_public_key = trim (string_or_empty (prop "new_public_key" fs));
  ts = positive_ts (prop "ts" fs);
  nonce = trim (string_or_empty (prop "nonce" fs));
  old_signature = trim (string_or_empty (prop "old_signature" fs));
  new_signature = trim (string_or_empty (prop "new_signature" fs));
}

pub data RotateReply : Type 0 where
  rotated : (sender public_key : String) (rotated_at : ℕ) → RotateReply
  failed : Denied → RotateReply

abbrev pub rotated_key : KeyRecord → String → ℕ → KeyRecord
rotated_key key public_key now = record key {
  public_key = public_key;
  rotated_at = some now;
  last_seen_at = now;
  github_username = none;
  github_verified_at = none;
}

module _ (options : IdentityOptions) (verify_signature : Verifier) where
  -- From the lookup of the key on.
  abbrev pub rotate_key :
      Identity → RotateRequest → (ts now : ℕ) → Option KeyRecord → Identity × RotateReply
  rotate_key s q ts now none = (s, failed (denied 404 "sender key not found"))
  rotate_key s q ts now (some key) =
      let message = build_rotate_signing_message (record {
        sender = q.sender;
        new_public_key = q.new_public_key;
        ts = ts;
        nonce = q.nonce;
      }) in
      if not (is_active key.status)
      then (s, failed (denied 403 "sender key revoked"))
      else if not (verify_signature key.public_key message q.old_signature)
      then (s, failed (denied 401 "invalid old signature"))
      else if not (verify_signature q.new_public_key message q.new_signature)
      then (s, failed (denied 401 "invalid new signature"))
      else (
        remember_nonce options (set_key s q.sender (rotated_key key q.new_public_key now)) q.sender
            q.nonce ts now,
        rotated q.sender q.new_public_key now,
      )

  abbrev pub rotate_at : Identity → RotateRequest → (now : ℕ) → Option ℕ → Identity × RotateReply
  rotate_at s q now none = (s, failed (denied 400 "invalid field: ts"))
  rotate_at s q now (some ts) =
      if is_empty q.nonce || ltb 256 (utf16_length q.nonce)
      then (s, failed (denied 400 "invalid field: nonce"))
      else if is_empty q.old_signature
          || is_empty q.new_signature
          || not (is_likely_base64_url q.old_signature)
          || not (is_likely_base64_url q.new_signature)
      then (s, failed (denied 400 "invalid signature payload"))
      else if is_stale options.max_clock_skew_sec now ts
      then (s, failed (denied 401 "stale signature timestamp"))
      else let (s', replay) = is_replay_nonce options s q.sender q.nonce now in
        if replay
        then (s', failed (denied 409 "replayed nonce"))
        else rotate_key s' q ts now (Map.get q.sender s'.key_registry)

  unfoldable pub rotate : Identity → RotateRequest → ℕ → Identity × RotateReply
  unfolding is_replay_nonce remember_nonce is_likely_base64_url utf16_length
  rotate s q now =
      if is_empty q.sender
      then (s, failed (denied 400 "missing field: sender"))
      else if is_empty q.new_public_key || not (is_likely_base64_url q.new_public_key)
      then (s, failed (denied 400 "invalid field: new_public_key"))
      else rotate_at s q now q.ts

  abbrev rotate_fields : Identity → Option Fields → ℕ → Identity × RotateReply
  rotate_fields s none now = (s, failed (denied 400 "invalid json payload"))
  rotate_fields s (some fs) now = rotate s (rotate_request_of fs) now

  unfoldable pub handle_key_rotate : Identity → Option Json → ℕ → Identity × RotateReply
  unfolding rotate rotate_request_of
  handle_key_rotate s none now = (s, failed (denied 400 "invalid json payload"))
  handle_key_rotate s (some parsed) now = rotate_fields s (as_record parsed) now

abbrev info_of : Option KeyRecord → String → Denied ⊎ (String × KeyRecord)
info_of none sender = inl (denied 404 "sender key not found")
info_of (some key) sender = inr (sender, key)

-- A reply that refuses, or the sender with the record of its key.
unfoldable pub handle_key_info : Identity → String → Denied ⊎ (String × KeyRecord)
unfolding trim
handle_key_info s raw =
    let sender = trim raw in
    if is_empty sender
    then inl (denied 400 "missing query: sender")
    else info_of (Map.get sender s.key_registry) sender
