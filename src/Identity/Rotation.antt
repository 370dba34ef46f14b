-- ===== src/Identity/Rotation.antt =====
-- Key rotation wants both keys' signatures, and changes the key of its sender alone.
use bit_relay.Prelude.{
  ◌⊎◌, str_eq, inr, inl, ℕ, ◌≡◌, refl, ap, true, not, ◌||◌, List, Option, none, some, String,
  eq_iff, eq_refl, arith, ltb, Bool-cases,
}
use bit_relay.Map
use bit_relay.Text.{is_empty, utf16_length}
use bit_relay.Signing.{is_likely_base64_url, build_rotate_signing_message}
use bit_relay.Identity.{
  is_active, Identity, IdentityOptions, KeyRecord, is_stale, is_replay_nonce, remember_nonce,
  prune_sender_nonces, pruned_nonces, Verifier,
}
use bit_relay.Identity.Keys.{key_text, public_key_of, public_key_of-set_key}
use bit_relay.Identity.Rotate.{
  RotateRequest, RotateReply, rotated, failed, rotate, rotate_key, rotate_at, rotated_key,
}

abbrev pub rotate_message : RotateRequest → ℕ → List ℕ
rotate_message q ts =
    build_rotate_signing_message
      (record { sender = q.sender; new_public_key = q.new_public_key; ts = ts; nonce = q.nonce })

module _ (verify_signature : Verifier) where
  -- A refused rotation leaves every key; a granted one was signed with the registered key and with
  -- the new one, for the same text, and leaves the new key for its sender and the others' keys.
  abbrev pub RotateSpec : Identity → RotateRequest → Identity × RotateReply → Type 0
  RotateSpec s q (s', failed error) = s'.key_registry ≡ s.key_registry
  RotateSpec s q (s', rotated sender key rotated_at) =
      (old : String) × (ts : ℕ) × (public_key_of s q.sender ≡ some old)
      × (q.ts ≡ some ts)
      × (verify_signature old (rotate_message q ts) q.old_signature ≡ true)
      × (verify_signature q.new_public_key (rotate_message q ts) q.new_signature ≡ true)
      × (public_key_of s' q.sender ≡ some q.new_public_key)
      × ((other : String) → (q.sender ≡ other) ⊎ (public_key_of s' other ≡ public_key_of s other))

  module _ (options : IdentityOptions) (s : Identity) (q : RotateRequest) (now : ℕ) where
    rotate_key-RotateSpec :
        (s' : Identity) (ts : ℕ) (found : Option KeyRecord)
        → s'.key_registry ≡ s.key_registry
        → Map.get q.sender s.key_registry ≡ found
        → q.ts ≡ some ts
        → RotateSpec s q (rotate_key options verify_signature s' q ts now found)
    unfolding remember_nonce
    rotate_key-RotateSpec s' ts none same e at = same
    rotate_key-RotateSpec s' ts (some key) same e at =
        let new = rotated_key key q.new_public_key now in
        elim (Bool-cases (is_active key.status)) [
          | inr off ↦ rw off same
          | inl on ↦
              elim (Bool-cases
                (verify_signature key.public_key (rotate_message q ts) q.old_signature)) [
                  | inr bad_old ↦ rw (on, bad_old) same
                  | inl old ↦
                      elim (Bool-cases
                        (verify_signature q.new_public_key (rotate_message q ts) q.new_signature)) [
                          | inr bad_new ↦ rw (on, old, bad_new) same
                          | inl fresh ↦
                              rw (on, old, fresh)
                                (
                                  key.public_key,
                                  ts,
                                  ap key_text e,
                                  at,
                                  old,
                                  fresh,
                                  ground (
                                    arith,
                                    public_key_of-set_key s' q.sender q.sender new,
                                    eq_refl q.sender,
                                  ),
                                  λ other. elim (Bool-cases (str_eq q.sender other)) [
                                    | inl here ↦ inl ((eq_iff q.sender other).0 here)
                                    | inr differs ↦ inr (
                                        ground (
                                          arith,
                                          public_key_of-set_key s' q.sender other new,
                                          eq_iff q.sender other,
                                          ap (λ keys. key_text (Map.get other keys)) same,
                                        ))
                                  ],
                                )
                        ]
                ]
        ]

    rotate_at-RotateSpec :
        (at : Option ℕ) → q.ts ≡ at → RotateSpec s q (rotate_at options verify_signature s q now at)
    unfolding is_replay_nonce prune_sender_nonces
    rotate_at-RotateSpec none e = refl
    rotate_at-RotateSpec (some ts) e =
        let s' = prune_sender_nonces options s q.sender now in
        elim (Bool-cases (is_empty q.nonce || ltb 256 (utf16_length q.nonce))) [
          | inl bad ↦ rw bad refl
          | inr nonce ↦
              elim (Bool-cases (
                is_empty q.old_signature
                || is_empty q.new_signature
                || not (is_likely_base64_url q.old_signature)
                || not (is_likely_base64_url q.new_signature))) [
                  | inl bad ↦ rw (nonce, bad) refl
                  | inr shape ↦ elim (Bool-cases (is_stale options.max_clock_skew_sec now ts)) [
                    | inl stale ↦ rw (nonce, shape, stale) refl
                    | inr timely ↦
                        elim (Bool-cases (Map.has q.nonce (pruned_nonces options s q.sender now))) [
                          | inl replay ↦ rw (nonce, shape, timely, replay) refl
                          | inr first ↦
                              rw (nonce, shape, timely, first)
                                (rotate_key-RotateSpec s' ts (Map.get q.sender s.key_registry) refl
                                  refl e)
                        ]
                  ]
                ]
        ]

    -- A refused rotation leaves every key as it was. A granted one was signed with the key that was
    -- registered for the sender and with the new one, both for the same text; it leaves the new key
    -- for the sender, and every other sender's key.
    pub rotate-RotateSpec : RotateSpec s q (rotate options verify_signature s q now)
    unfolding rotate
    rotate-RotateSpec = elim (Bool-cases (is_empty q.sender)) [
      | inl missing ↦ rw missing refl
      | inr named ↦
          elim (Bool-cases
            (is_empty q.new_public_key || not (is_likely_base64_url q.new_public_key))) [
              | inl bad ↦ rw (named, bad) refl
              | inr shape ↦ rw (named, shape) (rotate_at-RotateSpec q.ts refl)
            ]
    ]
