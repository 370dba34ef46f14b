-- ===== src/Identity/Replay.antt =====
-- A signed request is accepted at most once.
use native.Mathlib.Decide.{dec_le}
use bit_relay.Prelude.{
  ℕ, ◌+◌, ◌≤◌, ◌<◌, suc, ◌≡◌, ◌≢◌, ◌⊎◌, inl, inr, refl, ap, ◌∙◌, true, false, List, [], ◌∷◌, Option,
  none, some, String, arith, length, keep, Bool-cases, Option-cases, All,
}
use bit_relay.Map
use bit_relay.Map.{Map, or_empty}
use bit_relay.Identity.{
  Identity, IdentityOptions, Denied, denied, evict_oldest, unexpired, pruned_nonces,
  prune_sender_nonces, is_replay_nonce, ensure_tofu_key, PublishAuthHeaders, is_stale, Verified,
  refused, verified, Verifier, after_key, verify_auth,
}
use bit_relay.Identity.Nonces.{
  Held, Held-has, Held-mono, nonces_of, pruned-Held, prune-Held, remember-Held, remember_self-Held,
}

has-unexpired :
    (nonce : String) (ttl now : ℕ) (m : Map ℕ)
    → Map.has nonce m ≡ false
    → Map.has nonce (unexpired ttl now m) ≡ false
unfolding Map.has Map.get keep
has-unexpired nonce ttl now [] h = refl
has-unexpired nonce ttl now ((k, v) ∷ m) h = ground (arith, has-unexpired nonce ttl now m)

has-evict_oldest :
    (nonce : String) (most : ℕ) (m : Map ℕ)
    → Map.has nonce m ≡ false
    → Map.has nonce (evict_oldest most m) ≡ false
unfolding Map.has Map.get evict_oldest
has-evict_oldest nonce most [] h = refl
has-evict_oldest nonce most ((k, v) ∷ m) h = ground (arith, has-evict_oldest nonce most m)

pub refused-ne-verified : (d : Denied) (o : Option String) → refused d ≢ verified o
refused-ne-verified d o e = cc

-- A signed request of a sender: its headers, the text to sign for them, and when it arrives.
pub record Attempt : Type 0 where
  pub sender : String
  pub auth : PublishAuthHeaders
  pub message : PublishAuthHeaders → List ℕ
  pub now : ℕ

module _ (options : IdentityOptions) (verify_signature : Verifier) where
  abbrev most : ℕ
  most = options.max_nonces_per_sender

  abbrev pub attempt : Identity → Attempt → Identity × Verified
  attempt s a = verify_auth options verify_signature s a.sender a.auth a.message a.now

  -- The state after a sequence of attempts.
  pub attempts : Identity → List Attempt → Identity
  attempts s [] = s
  attempts s (a ∷ as') = attempts (attempt s a).0 as'

  tofu-nonces :
      (s : Identity) (sender public_key : String) (now : ℕ)
      → (ensure_tofu_key options s sender public_key now).0.nonces_by_sender ≡ s.nonces_by_sender
  unfolding ensure_tofu_key
  tofu-nonces s sender public_key now = elim (Option-cases (Map.get sender s.key_registry)) [
    | inl fresh ↦ rw fresh
    | inr (key, known) ↦ rw known (ground arith)
  ]

  has-pruned_twice :
      (s : Identity) (r : Identity) (sender nonce : String) (now : ℕ)
      → r.nonces_by_sender ≡ (prune_sender_nonces options s sender now).nonces_by_sender
      → Map.has nonce (pruned_nonces options s sender now) ≡ false
      → Map.has nonce (pruned_nonces options r sender now) ≡ false
  unfolding prune_sender_nonces pruned_nonces
  has-pruned_twice s r sender nonce now e h =
      let kept = pruned_nonces options s sender now in
      let pruned : nonces_of r sender ≡ kept =
        ap (λ ns. or_empty (Map.get sender ns)) e
        ∙ ap or_empty (Map.get-set_self sender kept s.nonces_by_sender) in
      rw pruned
        (has-evict_oldest nonce most _ (has-unexpired nonce options.nonce_ttl_sec now kept h))

  after_key-Held :
      (nonce : String) (ts : ℕ) (sender : String) (n : ℕ) (a : Attempt)
      (r : Identity × Option Denied)
      → n + 1 < most
      → a.now ≤ ts + options.nonce_ttl_sec
      → (a.sender ≡ sender → a.auth.nonce ≢ nonce)
      → Held nonce ts n (nonces_of r.0 sender)
      → Held nonce ts
          (n + 1)
          (nonces_of (after_key options verify_signature a.sender a.auth a.now r).0 sender)
  after_key-Held nonce ts sender n a (s, some error) lt le fresh h =
      Held-mono nonce ts n (n + 1) _ (omega arith) h
  after_key-Held nonce ts sender n a (s, none) lt le fresh h =
      remember-Held options nonce ts s sender a.sender a.auth.nonce a.auth.timestamp_sec n a.now lt
        le fresh h

  -- A remembered nonce is no new one.
  first-ne :
      (nonce : String) (ts : ℕ) (s : Identity) (sender : String) (n : ℕ) (a : Attempt)
      → n < most
      → a.now ≤ ts + options.nonce_ttl_sec
      → Held nonce ts n (nonces_of s sender)
      → Map.has a.auth.nonce (pruned_nonces options s a.sender a.now) ≡ false
      → a.sender ≡ sender
      → a.auth.nonce ≢ nonce
  first-ne nonce ts s sender n a lt le h first here same =
      let kept = pruned-Held options nonce ts s a.sender n a.now lt le (rw here h) in
      let known = Held-has nonce ts n _ kept in cc

  -- An attempt makes a remembered nonce at most one place older, while its time to live lasts.
  attempt-Held :
      (nonce : String) (ts : ℕ) (s : Identity) (sender : String) (n : ℕ) (a : Attempt)
      → n + 1 < most
      → a.now ≤ ts + options.nonce_ttl_sec
      → Held nonce ts n (nonces_of s sender)
      → Held nonce ts (n + 1) (nonces_of (attempt s a).0 sender)
  unfolding verify_auth is_replay_nonce
  attempt-Held nonce ts s sender n a lt le h =
      let pruned = prune-Held options nonce ts s sender a.sender n a.now (omega arith) le h in
      let fresh = λ (first : Map.has a.auth.nonce (pruned_nonces options s a.sender a.now) ≡ false).
        first-ne nonce ts s sender n a (omega arith) le h first in
      let older = Held-mono nonce ts n (n + 1) _ (omega arith) pruned in
      elim (Bool-cases (is_stale options.max_clock_skew_sec a.now a.auth.timestamp_sec)) [
        | inl stale ↦ rw stale (Held-mono nonce ts n (n + 1) _ (omega arith) h)
        | inr timely ↦
            elim (Bool-cases (Map.has a.auth.nonce (pruned_nonces options s a.sender a.now))) [
              | inl replay ↦ rw (timely, replay) older
              | inr first ↦
                  elim (Bool-cases
                    (verify_signature a.auth.public_key (a.message a.auth) a.auth.signature)) [
                      | inr forged ↦ rw (timely, first, forged) older
                      | inl genuine ↦
                          rw (timely, first, genuine)
                            (after_key-Held nonce ts sender n a
                              (ensure_tofu_key options
                                (prune_sender_nonces options s a.sender a.now) a.sender
                                a.auth.public_key a.now)
                              lt le (fresh first)
                              (rw
                                (tofu-nonces (prune_sender_nonces options s a.sender a.now) a.sender
                                  a.auth.public_key a.now)
                                pruned))
                    ]
            ]
      ]

  after_key-verified :
      (sender : String) (s : Identity) (auth : PublishAuthHeaders) (now : ℕ)
      (r : Identity × Option Denied) (signature : Option String)
      → 0 < most
      → Map.has auth.nonce (pruned_nonces options r.0 sender now) ≡ false
      → (after_key options verify_signature sender auth now r).1 ≡ verified signature
      → Held auth.nonce auth.timestamp_sec 0
          (nonces_of (after_key options verify_signature sender auth now r).0 sender)
  after_key-verified sender s auth now (s', some error) signature pos h e = cc
  after_key-verified sender s auth now (s', none) signature pos h e =
      remember_self-Held options auth.nonce auth.timestamp_sec s' sender now pos h

  -- An accepted request's nonce is the newest of its sender.
  accepted-Held :
      (s : Identity) (a : Attempt) (signature : Option String)
      → 0 < most
      → (attempt s a).1 ≡ verified signature
      → Held a.auth.nonce a.auth.timestamp_sec 0 (nonces_of (attempt s a).0 a.sender)
  unfolding verify_auth is_replay_nonce
  accepted-Held s a signature pos e =
      let s' = prune_sender_nonces options s a.sender a.now in
      let r = ensure_tofu_key options s' a.sender a.auth.public_key a.now in
      elim (Bool-cases (is_stale options.max_clock_skew_sec a.now a.auth.timestamp_sec)) [
        | inl stale ↦ absurd (refused-ne-verified _ _ (rw stale at e))
        | inr timely ↦
            elim (Bool-cases (Map.has a.auth.nonce (pruned_nonces options s a.sender a.now))) [
              | inl replay ↦ absurd (refused-ne-verified _ _ (rw (timely, replay) at e))
              | inr first ↦
                  elim (Bool-cases
                    (verify_signature a.auth.public_key (a.message a.auth) a.auth.signature)) [
                      | inr forged ↦
                          absurd (refused-ne-verified _ _ (rw (timely, first, forged) at e))
                      | inl genuine ↦
                          rw (timely, first, genuine)
                            (after_key-verified a.sender s' a.auth a.now r signature pos
                              (has-pruned_twice s r.0 a.sender a.auth.nonce a.now
                                (tofu-nonces s' a.sender a.auth.public_key a.now) first)
                              (rw (timely, first, genuine) at e))
                    ]
            ]
      ]

  attempts-Held :
      (nonce : String) (ts : ℕ) (sender : String) (others : List Attempt) (s : Identity) (n : ℕ)
      → n + length others < most
      → All (λ b. b.now ≤ ts + options.nonce_ttl_sec) others
      → Held nonce ts n (nonces_of s sender)
      → Held nonce ts (n + length others) (nonces_of (attempts s others) sender)
  unfolding attempts
  attempts-Held nonce ts sender [] s n lt le h = Held-mono nonce ts n (n + 0) _ (omega arith) h
  attempts-Held nonce ts sender (b ∷ others) s n lt (now, le) h =
      Held-mono nonce ts (n + 1 + length others) (n + suc (length others)) _ (omega arith) (
        attempts-Held nonce ts sender others (attempt s b).0 (n + 1) (omega arith) le
          (attempt-Held nonce ts s sender n b (omega arith) now h))

  Held-refused :
      (s : Identity) (a : Attempt) (n : ℕ)
      → n < most
      → a.now ≤ a.auth.timestamp_sec + options.nonce_ttl_sec
      → Held a.auth.nonce a.auth.timestamp_sec n (nonces_of s a.sender)
      → ((attempt s a).1 ≡ refused (denied 401 "stale signature timestamp"))
        ⊎ ((attempt s a).1 ≡ refused (denied 409 "replayed nonce"))
  unfolding verify_auth is_replay_nonce
  Held-refused s a n lt le h =
      let known =
        Held-has a.auth.nonce a.auth.timestamp_sec n _
          (pruned-Held options a.auth.nonce a.auth.timestamp_sec s a.sender n a.now lt le h) in
      elim (Bool-cases (is_stale options.max_clock_skew_sec a.now a.auth.timestamp_sec)) [
        | inl stale ↦ inl (rw stale)
        | inr timely ↦ inr (rw (timely, known))
      ]

  -- A clock that runs on finds an old time stamp stale.
  past-refused :
      (s : Identity) (a : Attempt)
      → a.auth.timestamp_sec + options.max_clock_skew_sec < a.now
      → (attempt s a).1 ≡ refused (denied 401 "stale signature timestamp")
  unfolding verify_auth
  past-refused s a h =
      let stale : is_stale options.max_clock_skew_sec a.now a.auth.timestamp_sec ≡ true =
        ground arith in
      rw stale

All-le_trans :
    (later bound : ℕ) (others : List Attempt)
    → later ≤ bound
    → All (λ b. b.now ≤ later) others
    → All (λ b. b.now ≤ bound) others
All-le_trans later bound [] le h = tt
All-le_trans later bound (b ∷ others) le (p, h) =
    (omega arith, All-le_trans later bound others le h)

-- Let a signed request be accepted, and let other signed requests follow, fewer than a sender's
-- nonces may be, while the clock does not run backwards. If nonces live at least as long as the
-- clock skew that is allowed, then the same sender's request with the same nonce and time stamp is
-- refused, as stale or as a replay, however it is signed.
pub replay_refused :
    (options : IdentityOptions) (verify_signature : Verifier) (s : Identity) (a again : Attempt)
    (others : List Attempt) (signature : Option String)
    → options.max_clock_skew_sec ≤ options.nonce_ttl_sec
    → length others < options.max_nonces_per_sender
    → (attempt options verify_signature s a).1 ≡ verified signature
    → All (λ b. b.now ≤ again.now) others
    → again.sender ≡ a.sender
    → again.auth.nonce ≡ a.auth.nonce
    → again.auth.timestamp_sec ≡ a.auth.timestamp_sec
    → let later =
        attempts options verify_signature (attempt options verify_signature s a).0 others in
      ((attempt options verify_signature later again).1
        ≡ refused (denied 401 "stale signature timestamp"))
      ⊎ ((attempt options verify_signature later again).1 ≡ refused (denied 409 "replayed nonce"))
replay_refused options verify_signature s a again others signature live few ok_first times who nonce
      ts =
    let first = accepted-Held options verify_signature s a signature (omega arith) ok_first in
    let later = attempts options verify_signature (attempt options verify_signature s a).0 others in
    let bound = a.auth.timestamp_sec + options.nonce_ttl_sec in
    elim (dec_le again.now bound) [
      | yes soon ↦
          Held-refused options verify_signature later again (0 + length others) (omega arith)
            (omega arith)
            (rw (who, nonce, ts)
              (attempts-Held options verify_signature a.auth.nonce a.auth.timestamp_sec a.sender
                others (attempt options verify_signature s a).0 0 (omega arith)
                (All-le_trans again.now bound others soon times) first))
      | no late ↦ inl (past-refused options verify_signature later again (omega arith))
    ]
