-- ===== src/Relay/Restore/Keys.antt =====
-- restoreIdentity (src/memory_handler.ts): keys and nonces are read back from their snapshot.
use mathlib.Core.Path.{ap₂}
use bit_relay.Prelude.{
  ℕ, ◌+◌, ◌≤◌, ◌≡◌, ◌≢◌, Bool-cases, Option-cases, inl, inr, sym, eq_iff, str_eq, refl, ap, ◌∙◌,
  ltb, false, [], ◌∷◌, Option, none, some, String, arith, All,
}
use bit_relay.Map
use bit_relay.Map.{Map}
use bit_relay.Map.Listed.{
  listed-All, listed-Distinct, map_values-Distinct, listed, listed-filled, IsOwn, map_values,
}
use bit_relay.Text.{trim, is_empty}
use bit_relay.Json.{entries, entries, Fields, prop, str}
use bit_relay.Identity.{KeyStatus, active, revoked, KeyRecord, Identity}
use bit_relay.IssueSync.RoundTrip.{IsName}
use bit_relay.IssueSync.Snapshot.{json_nat, finite_at_zero}
use bit_relay.Relay.Snapshot.{
  to_fields, nullable, status_text, json_of_key, json_of_nonces, identity_fields,
}
use bit_relay.Relay.Restore.{
  status_of, restore_key, restore_nonce, restore_nonces, unless_none_left, identity_of_fields,
}
use bit_relay.Relay.StoredRooms.{string_or_none}
use bit_relay.Relay.StoredRooms.{put_all}
use bit_relay.Relay.Restore.Loops.{
  put_all-Reads, fields-Reads, put_all-listed, map_values_id, All-map,
}

-- The sender and the key are texts that a trimming leaves.
abbrev pub IsStoredKey : String × KeyRecord → Type 0
IsStoredKey (sender, k) = (is_empty (trim sender) ≡ false) × IsName k.public_key

-- A nonce that is not blank and has not expired.
abbrev pub IsStoredNonce : (ttl now : ℕ) → String × ℕ → Type 0
IsStoredNonce ttl now (nonce, ts) = (is_empty (trim nonce) ≡ false) × (now ≤ ts + ttl)

abbrev pub IsStoredNonces : (ttl now : ℕ) → String × Map ℕ → Type 0
IsStoredNonces ttl now (sender, nonces) =
    Map.Distinct nonces × IsOwn nonces × All (IsStoredNonce ttl now) nonces

pub record IsStoredIdentity (ttl now : ℕ) (s : Identity) : Type 0 where
  pub senders : Map.Distinct s.key_registry
  pub own_senders : IsOwn s.key_registry
  pub keys : All IsStoredKey s.key_registry
  pub nonce_senders : Map.Distinct s.nonces_by_sender
  pub own_nonce_senders : IsOwn s.nonces_by_sender
  pub nonces : All (IsStoredNonces ttl now) s.nonces_by_sender

time-nullable : (t : Option ℕ) → finite_at_zero (some (nullable json_nat t)) ≡ t
time-nullable none = refl
time-nullable (some n) = refl

pub text-nullable : (t : Option String) → string_or_none (some (nullable str t)) ≡ t
text-nullable none = refl
text-nullable (some s) = refl

status-text : (s : KeyStatus) → status_of (status_text s) ≡ s
status-text active = refl
status-text revoked = refl

key-Reads : (e : String × KeyRecord) → IsStoredKey e → restore_key (e.0, json_of_key e.1) ≡ some e
unfolding restore_key json_of_key prop Map.get
key-Reads (sender, k) (named, (trimmed, filled)) =
    let there : is_empty (trim k.public_key) ≡ false = rw trimmed filled in
    rw
      (
        named,
        there,
        trimmed,
        status-text k.status,
        time-nullable k.rotated_at,
        time-nullable k.revoked_at,
        text-nullable k.github_username,
        time-nullable k.github_verified_at,
      )
      refl

-- The senders that have a nonce.
abbrev pub filled : Map (Map ℕ) → Map (Map ℕ)
filled [] = []
filled ((sender, []) ∷ m) = filled m
filled ((sender, e ∷ nonces) ∷ m) = (sender, e ∷ nonces) ∷ filled m

filled-absent : (k : String) (m : Map (Map ℕ)) → Map.get k m ≡ none → Map.get k (filled m) ≡ none
unfolding Map.get
filled-absent k [] h = refl
filled-absent k ((j, []) ∷ m) h = filled-absent k m (ground arith)
filled-absent k ((j, e ∷ n) ∷ m) h = ground (arith, filled-absent k m)

filled-Distinct : (m : Map (Map ℕ)) → Map.Distinct m → Map.Distinct (filled m)
filled-Distinct [] d = tt
filled-Distinct ((k, []) ∷ m) (new, d) = filled-Distinct m d
filled-Distinct ((k, e ∷ n) ∷ m) (new, d) = (filled-absent k m new, filled-Distinct m d)

-- A sender with no nonce is like one that is not there.
pub get-filled :
    (k : String) (m : Map (Map ℕ))
    → Map.Distinct m
    → Map.or_empty (Map.get k (filled m)) ≡ Map.or_empty (Map.get k m)
unfolding Map.get
get-filled k [] d = refl
get-filled k ((j, []) ∷ m) (new, d) = elim (Bool-cases (str_eq j k)) [
  | inl same ↦
      let absent : Map.get k m ≡ none = ap (λ q. Map.get q m) (sym ((eq_iff j k).0 same)) ∙ new in
      rw same (ap Map.or_empty (filled-absent k m absent))
  | inr other ↦ rw other (get-filled k m d)
]
get-filled k ((j, e ∷ n) ∷ m) (new, d) = elim (Bool-cases (str_eq j k)) [
  | inl same ↦ rw same refl
  | inr other ↦ rw other (get-filled k m d)
]

-- The identity as a restore leaves it: senders and nonces stand as they were listed.
abbrev pub identity_from : Identity → Identity
identity_from s = record {
  key_registry = listed s.key_registry;
  nonces_by_sender = map_values listed (filled (listed s.nonces_by_sender));
}

module _ (ttl now : ℕ) where
  nonce-Reads :
      (e : String × ℕ)
      → IsStoredNonce ttl now e
      → restore_nonce ttl now (e.0, json_nat e.1) ≡ some e
  unfolding restore_nonce
  nonce-Reads (nonce, ts) (named, fresh) =
      let kept : ltb (ts + ttl) now ≡ false = ground (arith, fresh) in rw (named, kept) refl

  none_left-some :
      (sender : String) (m : Map ℕ) → m ≢ [] → unless_none_left sender m ≡ some (sender, m)
  none_left-some sender [] h = absurd (h refl)
  none_left-some sender (e ∷ m) h = refl

  nonces-Reads :
      (sender : String) (e : String × ℕ) (nonces : Map ℕ)
      → IsStoredNonces ttl now (sender, e ∷ nonces)
      → restore_nonces ttl now (sender, json_of_nonces (e ∷ nonces))
        ≡ some (sender, listed (e ∷ nonces))
  unfolding restore_nonces
  nonces-Reads sender e nonces (d, own, all) =
      let m = e ∷ nonces in
      let read =
        put_all-listed (restore_nonce ttl now) json_nat (λ ts. ts) m d (All-map nonce-Reads m all)
        ∙ map_values_id (listed m) in
      ap (unless_none_left sender) read
      ∙ none_left-some sender (listed m) (listed-filled m d own (λ empty. cc))

  filled-Reads :
      (m : Map (Map ℕ))
      → All (IsStoredNonces ttl now) m
      → All
          (λ e. restore_nonces ttl now (e.0, json_of_nonces e.1) ≡ some (e.0, listed e.1))
          (filled m)
  filled-Reads [] h = tt
  filled-Reads ((sender, []) ∷ m) (here, h) = filled-Reads m h
  filled-Reads ((sender, e ∷ nonces) ∷ m) (here, h) =
      (nonces-Reads sender e nonces here, filled-Reads m h)

  -- A sender with no nonce is passed over.
  no_nonces : (sender : String) → restore_nonces ttl now (sender, json_of_nonces []) ≡ none
  unfolding restore_nonces listed put_all
  no_nonces sender = refl

  put_all-filled :
      (m : Map (Map ℕ)) (acc : Map (Map ℕ))
      → put_all (restore_nonces ttl now) (entries (to_fields json_of_nonces m)) acc
        ≡ put_all (restore_nonces ttl now) (entries (to_fields json_of_nonces (filled m))) acc
  unfolding put_all
  put_all-filled [] acc = refl
  put_all-filled ((sender, []) ∷ m) acc = rw (no_nonces sender, put_all) (put_all-filled m acc)
  put_all-filled ((sender, e ∷ nonces) ∷ m) acc =
      elim (Option-cases (restore_nonces ttl now (sender, json_of_nonces (e ∷ nonces)))) [
        | inl passed ↦ rw (passed, put_all) (put_all-filled m acc)
        | inr ((k, v), read) ↦ rw (read, put_all) (put_all-filled m (Map.set k v acc))
      ]

  pub restore_identity-fields :
      (s : Identity) (rest : Fields)
      → IsStoredIdentity ttl now s
      → identity_of_fields ttl now (identity_fields s rest) ≡ identity_from s
  unfolding identity_fields prop Map.get identity_of_fields
  restore_identity-fields s rest h =
      let keys =
        put_all-listed restore_key json_of_key (λ k. k) s.key_registry h.senders
          (All-map key-Reads s.key_registry h.keys)
        ∙ map_values_id (listed s.key_registry) in
      let nonces =
        put_all-filled (listed s.nonces_by_sender) []
        ∙ put_all-Reads (restore_nonces ttl now)
            (entries (to_fields json_of_nonces (filled (listed s.nonces_by_sender))))
            (map_values listed (filled (listed s.nonces_by_sender))) []
            (fields-Reads (restore_nonces ttl now) json_of_nonces listed
              (filled (listed s.nonces_by_sender))
              (filled-Reads (listed s.nonces_by_sender)
                (listed-All (IsStoredNonces ttl now) s.nonces_by_sender h.nonces)))
            (map_values-Distinct listed (filled (listed s.nonces_by_sender)) (
              filled-Distinct (listed s.nonces_by_sender)
                (listed-Distinct s.nonces_by_sender h.nonce_senders))) in
      ap₂ (λ k n. record { key_registry = k; nonces_by_sender = n }) keys nonces
