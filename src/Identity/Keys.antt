-- ===== src/Identity/Keys.antt =====
-- Keys by trust on first use: whose signature a relay accepts, and how a key changes.
use bit_relay.Prelude.{
  sym, Option-cases, ◌⊎◌, ℕ, ◌≡◌, inl, inr, refl, ap, ◌∙◌, true, Option, none, some, String, str_eq,
  eq_iff, eq_refl, arith, if◌then◌else◌, Bool-cases,
}
use bit_relay.Map
use bit_relay.Map.{Map, or_empty}
use bit_relay.TimingSafe.{timing_safe_equal_iff}
use bit_relay.Identity.{
  Identity, IdentityOptions, KeyRecord, set_key, first_key, Denied, is_stale, pruned_nonces,
  is_replay_nonce, remember_nonce, prune_sender_nonces, Verifier, ensure_tofu_key, check_key,
  PublishAuthHeaders, Verified, refused, verified, after_key, verify_auth,
}
use bit_relay.Identity.Replay.{Attempt, attempt, refused-ne-verified}

abbrev pub key_text : Option KeyRecord → Option String
key_text none = none
key_text (some key) = some key.public_key

-- The sender's public key, where one is registered.
abbrev pub public_key_of : Identity → String → Option String
public_key_of s sender = key_text (Map.get sender s.key_registry)

pub public_key_of-set_key :
    (s : Identity) (a b : String) (key : KeyRecord)
    → public_key_of (set_key s a key) b
      ≡ (if str_eq a b then some key.public_key else public_key_of s b)
public_key_of-set_key s a b key = ground (arith, Map.get-set a b key s.key_registry)

module _ (options : IdentityOptions) where
  check_key-kept :
      (s : Identity) (sender public_key : String) (now : ℕ) (found : Option KeyRecord)
      → Map.get sender s.key_registry ≡ found
      → (other key : String) → public_key_of s other ≡ some key
      → public_key_of (check_key options s sender public_key now found).0 other ≡ some key
  check_key-kept s sender public_key now none e other key h =
      let first = first_key public_key now in
      ground (arith, public_key_of-set_key s sender other first, eq_iff sender other)
  check_key-kept s sender public_key now (some found) e other key h =
      let seen = record found { last_seen_at = now } in
      ground (arith, public_key_of-set_key s sender other seen, eq_iff sender other)

  check_key-shown :
      (s : Identity) (sender public_key : String) (now : ℕ) (found : Option KeyRecord)
      → (check_key options s sender public_key now found).1 ≡ none
      → public_key_of (check_key options s sender public_key now found).0 sender ≡ some public_key
  check_key-shown s sender public_key now none h =
      let first = first_key public_key now in
      ground (arith, public_key_of-set_key s sender sender first, eq_refl sender)
  check_key-shown s sender public_key now (some found) h =
      let seen = record found { last_seen_at = now } in
      ground (
        arith,
        public_key_of-set_key s sender sender seen,
        eq_refl sender,
        timing_safe_equal_iff found.public_key public_key,
      )

module _ (options : IdentityOptions) (verify_signature : Verifier) where
  after_key-kept :
      (sender : String) (auth : PublishAuthHeaders) (now : ℕ) (r : Identity × Option Denied)
      → (after_key options verify_signature sender auth now r).0.key_registry ≡ r.0.key_registry
  unfolding remember_nonce
  after_key-kept sender auth now (s, none) = refl
  after_key-kept sender auth now (s, some error) = refl

  after_key-ok :
      (sender : String) (auth : PublishAuthHeaders) (now : ℕ) (r : Identity × Option Denied)
      (signature : Option String)
      → (after_key options verify_signature sender auth now r).1 ≡ verified signature
      → r.1 ≡ none
  after_key-ok sender auth now (s, none) signature e = refl
  after_key-ok sender auth now (s, some error) signature e = cc

  -- What holds of a refusal, in the old or the pruned state, and of the outcome after a genuine
  -- signature, holds of an attempt.
  attempt_cases {ℓ} :
      (P : Identity × Verified → Type ℓ) (s : Identity) (a : Attempt)
      → ((s' : Identity) (d : Denied) → s'.key_registry ≡ s.key_registry → P (s', refused d))
      → (let s' = prune_sender_nonces options s a.sender a.now in
          verify_signature a.auth.public_key (a.message a.auth) a.auth.signature ≡ true
          → P (
              after_key options verify_signature a.sender a.auth a.now
                (ensure_tofu_key options s' a.sender a.auth.public_key a.now)))
      → P (attempt options verify_signature s a)
  unfolding verify_auth is_replay_nonce prune_sender_nonces
  attempt_cases P s a refusal genuine =
      elim (Bool-cases (is_stale options.max_clock_skew_sec a.now a.auth.timestamp_sec)) [
        | inl stale ↦ rw stale (refusal s _ refl)
        | inr timely ↦
            elim (Bool-cases (Map.has a.auth.nonce (pruned_nonces options s a.sender a.now))) [
              | inl replay ↦ rw (timely, replay) (refusal _ _ refl)
              | inr first ↦
                  elim (Bool-cases
                    (verify_signature a.auth.public_key (a.message a.auth) a.auth.signature)) [
                      | inr forged ↦ rw (timely, first, forged) (refusal _ _ refl)
                      | inl good ↦ rw (timely, first, good) (genuine good)
                    ]
            ]
      ]

  attempt_parts :
      (s : Identity) (a : Attempt)
      → let (s', reply) = attempt options verify_signature s a in
        ((sender key : String)
          → public_key_of s sender ≡ some key
          → public_key_of s' sender ≡ some key)
        × ((signature : Option String)
            → reply ≡ verified signature
            → (verify_signature a.auth.public_key (a.message a.auth) a.auth.signature ≡ true)
              × (public_key_of s' a.sender ≡ some a.auth.public_key))
  unfolding ensure_tofu_key prune_sender_nonces
  attempt_parts s a =
      attempt_cases
        (λ r.
          ((sender key : String)
            → public_key_of s sender ≡ some key
            → public_key_of r.0 sender ≡ some key)
          × ((signature : Option String)
              → r.1 ≡ verified signature
              → (verify_signature a.auth.public_key (a.message a.auth) a.auth.signature ≡ true)
                × (public_key_of r.0 a.sender ≡ some a.auth.public_key)))
        s a
        (λ s' d same. (
          λ sender key h. ap (λ keys. key_text (Map.get sender keys)) same ∙ h,
          λ signature e. absurd (refused-ne-verified d signature e),
        ))
        λ genuine.
          let s' = prune_sender_nonces options s a.sender a.now in
          let found = Map.get a.sender s.key_registry in
          let r = check_key options s' a.sender a.auth.public_key a.now found in
          let same = after_key-kept a.sender a.auth a.now r in
          (
            λ sender key h.
                ap (λ keys. key_text (Map.get sender keys)) same
                ∙ check_key-kept options s' a.sender a.auth.public_key a.now found refl sender key
                    h,
            λ signature e. (
              genuine,
              ap (λ keys. key_text (Map.get a.sender keys)) same
                  ∙ check_key-shown options s' a.sender a.auth.public_key a.now found
                      (after_key-ok a.sender a.auth a.now r signature e),
            ),
          )

  -- An accepted request is genuine for the key that it shows, which its sender then has.
  abbrev pub IsGenuine : Attempt → Identity → Verified → Type 0
  IsGenuine a s' (refused error) = Unit
  IsGenuine a s' (verified signature) =
      (verify_signature a.auth.public_key (a.message a.auth) a.auth.signature ≡ true)
      × (public_key_of s' a.sender ≡ some a.auth.public_key)

  -- A signed request never changes a registered key, whoever sends it and whatever becomes of it.
  -- If it is accepted, its signature is genuine for the key that it shows, and that key is then the
  -- one registered for its sender: the key it had, or its first.
  pub attempt_keys :
      (s : Identity) (a : Attempt) (sender : String)
      → let (s', reply) = attempt options verify_signature s a in
        ((public_key_of s sender ≡ none) ⊎ (public_key_of s' sender ≡ public_key_of s sender))
        × IsGenuine a s' reply
  attempt_keys s a sender = (
    elim (Option-cases (public_key_of s sender)) [
      | inl unknown ↦ inl unknown
      | inr (key, known) ↦ inr ((attempt_parts s a).0 sender key known ∙ sym known)
    ],
    genuine_reply (attempt options verify_signature s a).1 refl,
  )
    where
      genuine_reply :
          (reply : Verified)
          → (attempt options verify_signature s a).1 ≡ reply
          → IsGenuine a (attempt options verify_signature s a).0 reply
      genuine_reply (refused error) e = tt
      genuine_reply (verified signature) e = (attempt_parts s a).1 signature e
