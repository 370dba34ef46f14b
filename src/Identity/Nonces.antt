-- ===== src/Identity/Nonces.antt =====
-- Replay protection: how long a used nonce is remembered, and that a signed request is accepted once.
use bit_relay.Prelude.{
  ℕ, ◌+◌, ◌≤◌, ◌<◌, ◌≡◌, ◌≢◌, ◌⊎◌, inl, inr, refl, true, false, not, [], ◌∷◌, none, String, str_eq,
  eq_iff, eq_refl, arith, if◌then◌else◌, ltb, length, keep, length-keep-le, Bool-cases,
}
use bit_relay.Map
use bit_relay.Map.{Map, or_empty}
use bit_relay.Identity.{
  Identity, IdentityOptions, evict_oldest, unexpired, pruned_nonces, set_nonces,
  prune_sender_nonces, remember_nonce,
}

-- The nonce stands in the map with its time, and at most `n` entries are newer.
abbrev pub Held : String → ℕ → ℕ → Map ℕ → Type 0
Held nonce ts n [] = ⊥
Held nonce ts n ((k, v) ∷ m) =
    ((k ≡ nonce) × (v ≡ ts) × (length m ≤ n)) ⊎ ((k ≢ nonce) × Held nonce ts n m)

module _ (nonce : String) (ts : ℕ) where
  pub Held-has : (n : ℕ) (m : Map ℕ) → Held nonce ts n m → Map.has nonce m ≡ true
  unfolding Map.has Map.get
  Held-has n [] h = absurd h
  Held-has n ((k, v) ∷ m) h = ground (arith, Held-has n m, eq_iff k nonce)

  pub Held-mono : (n n' : ℕ) (m : Map ℕ) → n ≤ n' → Held nonce ts n m → Held nonce ts n' m
  Held-mono n n' [] le h = h
  Held-mono n n' ((k, v) ∷ m) le h = ground (arith, Held-mono n n' m le)

  pub Held-unexpired :
      (n ttl now : ℕ) (m : Map ℕ)
      → now ≤ ts + ttl
      → Held nonce ts n m
      → Held nonce ts n (unexpired ttl now m)
  unfolding keep
  Held-unexpired n ttl now [] le h = h
  Held-unexpired n ttl now ((k, v) ∷ m) le h =
      ground
        (arith, Held-unexpired n ttl now m le, length-keep-le (λ e. not (ltb (e.1 + ttl) now)) m)

  pub Held-evict_oldest :
      (n most : ℕ) (m : Map ℕ)
      → n < most
      → Held nonce ts n m
      → Held nonce ts n (evict_oldest most m)
  unfolding evict_oldest
  Held-evict_oldest n most [] lt h = h
  Held-evict_oldest n most ((k, v) ∷ m) lt h = ground (arith, Held-evict_oldest n most m lt)

  pub Held-set_ne :
      (n : ℕ) (k : String) (v : ℕ) (m : Map ℕ)
      → k ≢ nonce
      → Held nonce ts n m
      → Held nonce ts (n + 1) (Map.set k v m)
  unfolding Map.set
  Held-set_ne n k v [] ne h = absurd h
  Held-set_ne n k v ((j, w) ∷ m) ne h =
      ground
        (arith, Held-set_ne n k v m ne, eq_iff j k, Map.length-set k v m, Held-mono n (n + 1) m)

  pub Held-set_new : (m : Map ℕ) → Map.get nonce m ≡ none → Held nonce ts 0 (Map.set nonce ts m)
  unfolding Map.set Map.get
  Held-set_new [] h = inl (refl, refl, omega arith)
  Held-set_new ((j, w) ∷ m) h = ground (arith, Held-set_new m, eq_iff j nonce)

-- A sender's remembered nonces.
abbrev pub nonces_of : Identity → String → Map ℕ
nonces_of s sender = or_empty (Map.get sender s.nonces_by_sender)

module _ (options : IdentityOptions) (nonce : String) (ts : ℕ) where
  abbrev most : ℕ
  most = options.max_nonces_per_sender

  abbrev ttl : ℕ
  ttl = options.nonce_ttl_sec

  pub set_nonces-eq :
      (s : Identity) (a b : String) (m : Map ℕ)
      → nonces_of (set_nonces s a m) b ≡ (if str_eq a b then m else nonces_of s b)
  set_nonces-eq s a b m = ground (arith, Map.get-set a b m s.nonces_by_sender)

  pub pruned-Held :
      (s : Identity) (sender : String) (n now : ℕ)
      → n < most
      → now ≤ ts + ttl
      → Held nonce ts n (nonces_of s sender)
      → Held nonce ts n (pruned_nonces options s sender now)
  unfolding pruned_nonces
  pruned-Held s sender n now lt le h =
      Held-evict_oldest nonce ts n most _ lt (Held-unexpired nonce ts n ttl now _ le h)

  pub prune-Held :
      (s : Identity) (sender other : String) (n now : ℕ)
      → n < most
      → now ≤ ts + ttl
      → Held nonce ts n (nonces_of s sender)
      → Held nonce ts n (nonces_of (prune_sender_nonces options s other now) sender)
  unfolding prune_sender_nonces
  prune-Held s sender other n now lt le h = elim (Bool-cases (str_eq other sender)) [
    | inl same ↦
        let e = (eq_iff other sender).0 same in
        rw (set_nonces-eq s other sender (pruned_nonces options s other now), same, e)
          (pruned-Held s sender n now lt le h)
    | inr differs ↦ rw (set_nonces-eq s other sender (pruned_nonces options s other now), differs) h
  ]

  pub remember-Held :
      (s : Identity) (sender other nonce' : String) (ts' n now : ℕ)
      → n + 1 < most
      → now ≤ ts + ttl
      → (other ≡ sender → nonce' ≢ nonce)
      → Held nonce ts n (nonces_of s sender)
      → Held nonce ts (n + 1) (nonces_of (remember_nonce options s other nonce' ts' now) sender)
  unfolding remember_nonce
  remember-Held s sender other nonce' ts' n now lt le fresh h =
      let kept = evict_oldest most (Map.set nonce' ts' (pruned_nonces options s other now)) in
      elim (Bool-cases (str_eq other sender)) [
        | inl same ↦
            let e = (eq_iff other sender).0 same in
            rw (set_nonces-eq s other sender kept, same, e)
              (Held-evict_oldest nonce ts (n + 1) most _ lt (
                Held-set_ne nonce ts n nonce' ts' _ (fresh e)
                  (pruned-Held s sender n now (omega arith) le h)))
        | inr differs ↦
            rw (set_nonces-eq s other sender kept, differs)
              (Held-mono nonce ts n (n + 1) _ (omega arith) h)
      ]

  -- Remembering a nonce that is not there puts it last.
  pub remember_self-Held :
      (s : Identity) (sender : String) (now : ℕ)
      → 0 < most
      → Map.has nonce (pruned_nonces options s sender now) ≡ false
      → Held nonce ts 0 (nonces_of (remember_nonce options s sender nonce ts now) sender)
  unfolding remember_nonce Map.has
  remember_self-Held s sender now pos h =
      let kept = evict_oldest most (Map.set nonce ts (pruned_nonces options s sender now)) in
      rw (set_nonces-eq s sender sender kept, eq_refl sender)
        (Held-evict_oldest nonce ts 0 most _ pos (Held-set_new nonce ts _ (ground arith)))
