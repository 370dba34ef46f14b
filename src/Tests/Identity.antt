-- ===== src/Tests/Identity.antt =====
-- Signed requests and keys, with a signature check that compares texts.
use bit_relay.Prelude.{
  ℕ, ◌≤◌, ◌≡◌, ◌≢◌, ◌⊎◌, ◌↔◌, refl, true, [], ◌∷◌, none, some, String, arith, str_eq, keep,
}
use bit_relay.Map
use bit_relay.TimingSafe.{timing_safe_equal, timing_safe_equal_iff}
use bit_relay.Signing.{
  PublishSigningInput, ReviewSigningInput, RotateSigningInput, build_publish_signing_message,
  build_review_signing_message, build_rotate_signing_message,
}
use bit_relay.Signing.Separation.{signing_messages_differ}
use bit_relay.RateLimit.{RateCounter}
use bit_relay.RateLimit.Bounds.{count_allowed, count_allowed-le}
use bit_relay.Identity.{Identity, IdentityOptions, Verifier, verified, refused, denied, verify_auth}
use bit_relay.Identity.Replay.{Attempt, attempt, attempts, replay_refused}
use bit_relay.Identity.Keys.{public_key_of, IsGenuine, attempt_keys}
use bit_relay.Identity.Rotate.{RotateRequest, rotate, rotated}
use bit_relay.Identity.Rotation.{RotateSpec, rotate-RotateSpec}

abbrev options : IdentityOptions
options = record {
  require_signatures = true;
  max_clock_skew_sec = 300;
  nonce_ttl_sec = 600;
  max_nonces_per_sender = 2;
}

-- A signature is genuine where it equals the key.
abbrev check_key_text : Verifier
check_key_text public_key message signature = str_eq public_key signature

abbrev nobody : Identity
nobody = record { key_registry = []; nonces_by_sender = [] }

abbrev by_ann : String → ℕ → Attempt
by_ann nonce now = record {
  sender = "ann";
  auth = record { public_key = "k"; signature = "k"; timestamp_sec = 1000; nonce = nonce };
  message = λ auth. 1 ∷ [];
  now = now;
}

first_accepted : (attempt options check_key_text nobody (by_ann "n" 1000)).1 ≡ verified (some "k")
unfolding verify_auth Map.get Map.has Map.set keep timing_safe_equal
first_accepted = refl

replay_refused_example :
    let later =
      attempts options check_key_text
        (attempt options check_key_text nobody (by_ann "n" 1000)).0
        (by_ann "m" 1001 ∷ []) in
    ((attempt options check_key_text later (by_ann "n" 1002)).1
      ≡ refused (denied 401 "stale signature timestamp"))
    ⊎ ((attempt options check_key_text later (by_ann "n" 1002)).1
        ≡ refused (denied 409 "replayed nonce"))
replay_refused_example =
    replay_refused options check_key_text nobody (by_ann "n" 1000) (by_ann "n" 1002)
      (by_ann "m" 1001 ∷ []) (some "k") (omega arith) (omega arith) first_accepted (omega arith)
      refl refl refl

attempt_keys_example :
    let (s', reply) = attempt options check_key_text nobody (by_ann "n" 1000) in
    ((public_key_of nobody "ann" ≡ none) ⊎ (public_key_of s' "ann" ≡ public_key_of nobody "ann"))
    × IsGenuine options check_key_text (by_ann "n" 1000) s' reply
attempt_keys_example = attempt_keys options check_key_text nobody (by_ann "n" 1000) "ann"

abbrev rotation : RotateRequest
rotation = record {
  sender = "ann";
  new_public_key = "k2";
  ts = some 1010;
  nonce = "r";
  old_signature = "k";
  new_signature = "k2";
}

abbrev ann_known : Identity
ann_known = (attempt options check_key_text nobody (by_ann "n" 1000)).0

rotate_test : (rotate options check_key_text ann_known rotation 1012).1 ≡ rotated "ann" "k2" 1012
unfolding rotate verify_auth Map.get Map.has Map.set keep timing_safe_equal
rotate_test = refl

rotate-RotateSpec_example :
    RotateSpec check_key_text ann_known rotation
      (rotate options check_key_text ann_known rotation 1012)
rotate-RotateSpec_example = rotate-RotateSpec check_key_text options ann_known rotation 1012

timing_safe_equal_iff_example :
    (timing_safe_equal "key" "kex" ≡ true) ↔ ◌≡◌ {A = String} "key" "kex"
timing_safe_equal_iff_example = timing_safe_equal_iff "key" "kex"

abbrev published_text : PublishSigningInput
published_text = record {
  sender = "ann";
  room = "main";
  id = "1";
  topic = "notify";
  ts = 1000;
  nonce = "n";
  payload_hash = [];
}

abbrev review_text : ReviewSigningInput
review_text = record {
  sender = "ann";
  room = "main";
  pr_id = "1";
  verdict = "approve";
  ts = 1000;
  nonce = "n";
}

abbrev rotate_text : RotateSigningInput
rotate_text = record { sender = "ann"; new_public_key = "k2"; ts = 1000; nonce = "n" }

signing_messages_differ_example :
    (build_publish_signing_message published_text ≢ build_review_signing_message review_text)
    × (build_publish_signing_message published_text ≢ build_rotate_signing_message rotate_text)
    × (build_review_signing_message review_text ≢ build_rotate_signing_message rotate_text)
signing_messages_differ_example = signing_messages_differ published_text review_text rotate_text

count_allowed-le_example : count_allowed none 2 100 (0 ∷ 1 ∷ 2 ∷ 99 ∷ []) ≤ 4
count_allowed-le_example = count_allowed-le none 2 100 0 (0 ∷ 1 ∷ 2 ∷ 99 ∷ []) (omega arith)

abbrev busy : RateCounter
busy = record { count = 9; window_start = 0 }
