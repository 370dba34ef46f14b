-- ===== src/IssueSync/Memory.antt =====
-- A delivery stays remembered for as many new deliveries as the engine remembers
-- (src/issue_sync_engine.ts).
use bit_relay.Prelude.{
  ℕ, suc, ◌-◌, ◌≤◌, ◌<◌, ◌≡◌, inl, inr, true, [], ◌∷◌, ◌++◌, none, String, arith, if◌then◌else◌,
  length, leb, Bool-cases,
}
use bit_relay.Map
use bit_relay.Map.{Map}
use bit_relay.Map.Keys.{set_new}
use bit_relay.Map.Newer.{newer, has-snoc, newer-snoc, newer-snoc_self, drop-newer}
use bit_relay.IssueSync.{EngineOptions, Engine, remember_delivery_id, evict_keys}
use bit_relay.IssueSync.Invariant.{evict_keys-eq-drop}

-- The id is remembered, with at most `n` newer ones.
abbrev pub Remembered : String → ℕ → Map ℕ → Type 0
Remembered id n ids = (Map.has id ids ≡ true) × (newer id ids ≤ n)

module _ (o : EngineOptions) where
  snoc-Remembered :
      (id j : String) (ts n : ℕ) (ids : Map ℕ)
      → Remembered id n ids
      → Remembered id (suc n) (ids ++ (j, ts) ∷ [])
  snoc-Remembered id j ts n ids (there, le) =
      (has-snoc id j ts ids there, omega (arith, newer-snoc id j ts ids there))

  remembered_ids : Map ℕ → Map ℕ
  remembered_ids ids =
      if leb (length ids) o.max_delivery_ids
      then ids
      else evict_keys (length ids - o.max_delivery_ids) ids

  evicted-Remembered :
      (id : String) (n : ℕ) (ids : Map ℕ)
      → Map.Distinct ids
      → n < o.max_delivery_ids
      → Remembered id n ids
      → Remembered id n (remembered_ids ids)
  unfolding remembered_ids
  evicted-Remembered id n ids d lt (there, le) =
      let over = length ids - o.max_delivery_ids in
      elim (Bool-cases (leb (length ids) o.max_delivery_ids)) [
        | inl fits ↦ rw fits (there, le)
        | inr more ↦
            let (kept, same) = drop-newer over id ids there (ground arith) in
            rw (more, evict_keys-eq-drop over ids d) (kept, omega (arith, same))
      ]

  remember-ids :
      (e : Engine) (j : String) (ts : ℕ)
      → (remember_delivery_id o e j ts).delivery_ids ≡ remembered_ids (Map.set j ts e.delivery_ids)
  unfolding remember_delivery_id remembered_ids
  remember-ids e j ts = ground arith

  pub remember-Remembered :
      (e : Engine) (id j : String) (ts n : ℕ)
      → Map.Distinct e.delivery_ids
      → Map.get j e.delivery_ids ≡ none
      → suc n < o.max_delivery_ids
      → Remembered id n e.delivery_ids
      → Remembered id (suc n) (remember_delivery_id o e j ts).delivery_ids
  remember-Remembered e id j ts n d new lt held = rw (remember-ids e j ts) (
      evicted-Remembered id (suc n) (Map.set j ts e.delivery_ids)
        (Map.set-Distinct j ts e.delivery_ids d) lt
        (rw (set_new j ts e.delivery_ids new) (snoc-Remembered id j ts n e.delivery_ids held)))

  pub remember-Remembered_self :
      (e : Engine) (id : String) (ts : ℕ)
      → Map.Distinct e.delivery_ids
      → Map.get id e.delivery_ids ≡ none
      → 0 < o.max_delivery_ids
      → Remembered id 0 (remember_delivery_id o e id ts).delivery_ids
  unfolding Map.has
  remember-Remembered_self e id ts d new lt = rw (remember-ids e id ts) (
      evicted-Remembered id 0 (Map.set id ts e.delivery_ids)
        (Map.set-Distinct id ts e.delivery_ids d) lt
        (
          ground (arith, Map.get-set_self id ts e.delivery_ids),
          rw (set_new id ts e.delivery_ids new)
              (omega (arith, newer-snoc_self id ts e.delivery_ids new)),
        ))
