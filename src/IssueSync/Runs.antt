-- ===== src/IssueSync/Runs.antt =====
-- Sequences of operations on the engine (src/issue_sync_engine.ts), each run to its end before the
-- next starts.
use bit_relay.Prelude.{
  ℕ, suc, ◌<◌, ◌≡◌, ◌⊎◌, inl, inr, refl, false, List, [], ◌∷◌, Option, none, some, String, arith,
  ◌==◌, Bool-cases, All,
}
use bit_relay.Map
use bit_relay.Map.{Map}
use bit_relay.Text.{trim, is_empty}
use bit_relay.Json.{Fields}
use bit_relay.IssueSync.{
  with_order, EngineOptions, Engine, EnqueueArgs, MappedEnvelope, MapInput, MapResult, PublishReply,
  Delivery, remember_delivery_id, remove_dlq, enqueue_dlq, has_delivery_id, settle, apply_mapped,
  apply_parsed, fields_of, apply_delivery,
}
use bit_relay.IssueSync.Invariant.{IsEngine, remember-IsEngine, remove-IsEngine, enqueue-IsEngine}
use bit_relay.IssueSync.Apply.{remove_dlq-ids}
use bit_relay.IssueSync.Memory.{Remembered, remember-Remembered}

pub data Operation : Type 0 where
  apply : Delivery → Operation
  enqueue : EnqueueArgs → (now : ℕ) → Operation
  remove : String → Operation

-- An entry that is enqueued names its delivery.
abbrev pub IsNamed : Operation → Type 0
IsNamed (enqueue args now) = is_empty args.delivery_id ≡ false
IsNamed _ = Unit

enqueue_dlq-ids :
    (o : EngineOptions) (e : Engine) (args : EnqueueArgs) (now : ℕ)
    → (enqueue_dlq o e args now).0.delivery_ids ≡ e.delivery_ids
unfolding enqueue_dlq with_order
enqueue_dlq-ids o e args now = ground arith

module _ (o : EngineOptions) (lower : String → String) (map_input : MapInput → MapResult)
    (publish : MappedEnvelope → PublishReply) where
  -- How an applied delivery changes the engine: not at all, or by one delivery that is new.
  abbrev Applies : Engine → Engine → Type 0
  Applies e e' =
      (e' ≡ e)
      ⊎ ((id : String) × (ts : ℕ) × (Map.get id e.delivery_ids ≡ none)
          × ((e' ≡ remember_delivery_id o e id ts)
              ⊎ (e' ≡ remove_dlq (remember_delivery_id o e id ts) id)))

  settle-Applies :
      (e : Engine) (id event : String) (mapped : MappedEnvelope) (reply : PublishReply) (now : ℕ)
      → Map.get id e.delivery_ids ≡ none
      → Applies e (settle o e id event mapped reply now).0
  unfolding settle
  settle-Applies e id event mapped reply now new = elim (Bool-cases (reply.status == 200)) [
    | inl ok ↦ elim (Bool-cases reply.accepted) [
      | inl accepted ↦ rw (ok, accepted) (inr (id, now, new, inr refl))
      | inr old ↦ rw (ok, old) (inr (id, now, new, inl refl))
    ]
    | inr refused ↦ rw refused (inl refl)
  ]

  mapped-Applies :
      (e : Engine) (id event : String) (mapped : MapResult) (now : ℕ)
      → Map.get id e.delivery_ids ≡ none
      → Applies e (apply_mapped o lower map_input publish e id event mapped now).0
  mapped-Applies e id event (MapResult.error reason) now new = inl refl
  mapped-Applies e id event (MapResult.ok mapped) now new =
      settle-Applies e id event mapped (publish mapped) now new

  parsed-Applies :
      (e : Engine) (id event : String) (fields : Option Fields) (now : ℕ)
      → Map.get id e.delivery_ids ≡ none
      → Applies e (apply_parsed o lower map_input publish e id event fields now).0
  parsed-Applies e id event none now new = inl refl
  parsed-Applies e id event (some fs) now new =
      let input : MapInput = record { event = event; delivery_id = id; parsed = fs } in
      mapped-Applies e id event (map_input input) now new

  apply-Applies :
      (e : Engine) (d : Delivery) → Applies e (apply_delivery o lower map_input publish e d).0
  unfolding apply_delivery has_delivery_id Map.has
  apply-Applies e d =
      let id = trim d.delivery_id in
      let event = lower (trim d.event) in
      elim (Bool-cases (is_empty event)) [
        | inl no_event ↦ rw no_event (inl refl)
        | inr event_there ↦ elim (Bool-cases (is_empty id)) [
          | inl no_id ↦ rw (event_there, no_id) (inl refl)
          | inr id_there ↦ elim (Bool-cases (has_delivery_id e id)) [
            | inl old ↦ rw (event_there, id_there, old) (inl refl)
            | inr new ↦
                rw (event_there, id_there, new)
                  (parsed-Applies e id event (fields_of d.parsed) d.now (ground arith))
          ]
        ]
      ]

  Applies-IsEngine : (e e' : Engine) → Applies e e' → IsEngine o e → IsEngine o e'
  Applies-IsEngine e e' (inl same) w = rw same w
  Applies-IsEngine e e' (inr (id, ts, new, inl remembered)) w =
      rw remembered (remember-IsEngine o e id ts w)
  Applies-IsEngine e e' (inr (id, ts, new, inr removed)) w =
      rw removed
        (remove-IsEngine o (remember_delivery_id o e id ts) id (remember-IsEngine o e id ts w))

  Applies-Remembered :
      (e e' : Engine) (id : String) (n : ℕ)
      → Applies e e'
      → IsEngine o e
      → suc n < o.max_delivery_ids
      → Remembered id n e.delivery_ids
      → Remembered id (suc n) e'.delivery_ids
  Applies-Remembered e e' id n (inl same) w lt (there, le) = rw same (there, omega arith)
  Applies-Remembered e e' id n (inr (j, ts, new, inl remembered)) w lt held =
      rw remembered (remember-Remembered o e id j ts n w.0.0 new lt held)
  Applies-Remembered e e' id n (inr (j, ts, new, inr removed)) w lt held =
      rw (removed, remove_dlq-ids (remember_delivery_id o e j ts) j)
        (remember-Remembered o e id j ts n w.0.0 new lt held)

  abbrev pub step : Engine → Operation → Engine
  step e (apply d) = (apply_delivery o lower map_input publish e d).0
  step e (enqueue args now) = (enqueue_dlq o e args now).0
  step e (remove id) = remove_dlq e id

  abbrev pub run : Engine → List Operation → Engine
  run e [] = e
  run e (op ∷ ops) = run (step e op) ops

  pub step-IsEngine :
      (e : Engine) (op : Operation) → IsNamed op → IsEngine o e → IsEngine o (step e op)
  step-IsEngine e (apply d) named w = Applies-IsEngine e (step e (apply d)) (apply-Applies e d) w
  step-IsEngine e (enqueue args now) named w = enqueue-IsEngine o e args now w named
  step-IsEngine e (remove id) named w = remove-IsEngine o e id w

  pub step-Remembered :
      (e : Engine) (op : Operation) (id : String) (n : ℕ)
      → IsEngine o e
      → suc n < o.max_delivery_ids
      → Remembered id n e.delivery_ids
      → Remembered id (suc n) (step e op).delivery_ids
  step-Remembered e (apply d) id n w lt held =
      Applies-Remembered e (step e (apply d)) id n (apply-Applies e d) w lt held
  step-Remembered e (enqueue args now) id n w lt (there, le) =
      rw (enqueue_dlq-ids o e args now) (there, omega arith)
  step-Remembered e (remove j) id n w lt (there, le) = rw (remove_dlq-ids e j) (there, omega arith)

  -- Whatever deliveries are applied, entries with an id enqueued and entries removed, in any order,
  -- the remembered deliveries stay distinct and bounded, and the queue stays bounded and in step
  -- with its order, each entry under its own id.
  pub run-IsEngine :
      (e : Engine) (ops : List Operation) → All IsNamed ops → IsEngine o e → IsEngine o (run e ops)
  run-IsEngine e [] named w = w
  run-IsEngine e (op ∷ ops) (here, named) w =
      run-IsEngine (step e op) ops named (step-IsEngine e op here w)
