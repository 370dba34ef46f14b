-- ===== src/IssueSync/Retry.antt =====
-- The entry that enqueueDlq leaves, and its retry time (src/issue_sync_engine.ts).
use bit_relay.Prelude.{
  drop, ℕ, zero, suc, ◌+◌, ◌-◌, ◌*◌, ◌^◌, min, max, ◌<◌, ◌≤◌, ◌≡◌, ◌∙◌, refl, ap, false, [], ◌∷◌,
  Option, some, none, String, arith, length, length-append, if◌then◌else◌, ltb, Bool-cases,
  Option-cases, inl, inr,
}
use bit_relay.Map
use bit_relay.Map.{Map}
use bit_relay.Map.Keys.{set-All, keys-set_old, set_new, length-keys, get-drop_newest}
use bit_relay.Text.{is_empty}
use bit_relay.IssueSync.{
  retries, DlqEntry, EngineOptions, Engine, EnqueueArgs, entry_of, order_with, with_order,
  enqueue_dlq, get_dlq_entry, compute_next_retry_at,
}
use bit_relay.IssueSync.Invariant.{IsEngine, IsFiled, shift_dlq-eq-drop, order_with-keys}

-- What is tried again no sooner than the base interval, or an hour where that is less, and no later
-- than in an hour.
abbrev pub RetriesWithin : EngineOptions → ℕ → DlqEntry → Type 0
RetriesWithin o now entry =
    (now + min 3600 o.retry_base_sec ≤ entry.next_retry_at) × (entry.next_retry_at ≤ now + 3600)

le_times : (a b : ℕ) → 0 < b → a ≤ a * b
le_times zero b h = omega arith
le_times (suc a) b h = let more = le_times a b h in grind arith

retry_bounds :
    (base now count : ℕ)
    → (now + min 3600 base ≤ compute_next_retry_at base now count)
      × (compute_next_retry_at base now count ≤ now + 3600)
unfolding compute_next_retry_at
retry_bounds base now count =
    (let most = le_times base (max 1 (2 ^ count)) (omega arith) in omega arith, omega arith)

module _ (o : EngineOptions) where
  with_order-get :
      (e : Engine) (id : String) (entry : DlqEntry)
      → IsEngine o e
      → 0 < o.max_dlq_entries
      → entry.delivery_id ≡ id
      → is_empty id ≡ false
      → Map.get id (with_order o e (Map.set id entry e.dlq) (Map.keys (Map.set id entry e.dlq))).dlq
        ≡ some entry
  unfolding with_order
  with_order-get e id entry w room filed there =
      let dlq = Map.set id entry e.dlq in
      let order = Map.keys dlq in
      let over = length order - o.max_dlq_entries in
      let size = length-keys dlq in
      let old_size = w.1.3 in
      elim (Bool-cases (ltb o.max_dlq_entries (length order))) [
        | inr fits ↦ rw fits (Map.get-set_self id entry e.dlq)
        | inl more ↦ elim (Option-cases (Map.get id e.dlq)) [
          | inr (old, kept) ↦
              let same = ap length (keys-set_old id entry old e.dlq kept) in
              absurd (ground (arith, size, same, old_size, length-keys e.dlq))
          | inl new ↦
              let appended = set_new id entry e.dlq new in
              let grown = length-append e.dlq ((id, entry) ∷ []) in
              let grown' = ap length appended in
              let newest =
                get-drop_newest over id entry e.dlq (omega (arith, size, grown, grown')) new in
              rw
                (
                  more,
                  shift_dlq-eq-drop over dlq (Map.set-Distinct id entry e.dlq w.1.0)
                      (set-All IsFiled id entry e.dlq (filed, there) w.1.2),
                )
                (ap (λ m. Map.get id (drop over m)) appended ∙ newest)
        ]
      ]

  -- The retries that an entry counts after it is enqueued.
  abbrev pub counted : Option DlqEntry → EnqueueArgs → ℕ
  counted none args = if args.increment_retry then 1 else 0
  counted (some old) args = if args.increment_retry then old.retry_count + 1 else old.retry_count

  counts :
      (args : EnqueueArgs) (old : Option DlqEntry)
      → retries old args.increment_retry ≡ counted old args
  counts args none = refl
  counts args (some old) = ground arith

  -- What is enqueued is in the queue, which drops older entries only; it counts one retry more than
  -- before where it is told to, and its next retry is at least the base interval away, or an hour
  -- where that is less, and at most an hour.
  pub enqueue-entry :
      (e : Engine) (args : EnqueueArgs) (now : ℕ)
      → IsEngine o e
      → 0 < o.max_dlq_entries
      → is_empty args.delivery_id ≡ false
      → (get_dlq_entry (enqueue_dlq o e args now).0 args.delivery_id
          ≡ some (enqueue_dlq o e args now).1)
        × ((enqueue_dlq o e args now).1.retry_count
            ≡ counted (get_dlq_entry e args.delivery_id) args)
        × RetriesWithin o now (enqueue_dlq o e args now).1
  unfolding enqueue_dlq get_dlq_entry
  enqueue-entry e args now w room there =
      let id = args.delivery_id in
      let old = Map.get id e.dlq in
      let entry = entry_of o args old now in
      let keys : order_with old e.dlq_order id ≡ Map.keys (Map.set id entry e.dlq) =
        rw (w.1.1) (order_with-keys o id entry e.dlq) in
      (
        rw keys (with_order-get e id entry w room refl there),
        counts args (Map.get id e.dlq),
        retry_bounds o.retry_base_sec now entry.retry_count,
      )
