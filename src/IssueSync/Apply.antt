-- ===== src/IssueSync/Apply.antt =====
-- What applyDelivery does on each branch, and that a delivery is applied once
-- (src/issue_sync_engine.ts).
use bit_relay.Prelude.{
  ◌≢◌, ◌⊎◌, inr, ==_iff, inl, ℕ, ◌<◌, ◌≡◌, refl, ap, ◌∙◌, Bool, true, false, Option, none, some,
  String, arith, if◌then◌else◌, ◌==◌, Bool-cases,
}
use bit_relay.Map
use bit_relay.Map.{Map}
use bit_relay.Text.{trim, is_empty}
use bit_relay.Json.{Json, null, bool, num, str, arr, obj, Fields}
use bit_relay.IssueSync.{
  EngineOptions, Engine, MappedEnvelope, MapInput, MapResult, PublishReply, ApplyResult, ApplyError,
  message, publish_failed, Delivery, remember_delivery_id, remove_dlq, has_delivery_id, settle,
  apply_mapped, apply_parsed, fields_of, apply_delivery,
}
use bit_relay.IssueSync.Memory.{Remembered, remember-Remembered_self}
use bit_relay.IssueSync.Invariant.{IsEngine}

pub remove_dlq-ids : (e : Engine) (id : String) → (remove_dlq e id).delivery_ids ≡ e.delivery_ids
unfolding remove_dlq
remove_dlq-ids e id = ground arith

module _ (o : EngineOptions) where
  remember-dlq : (e : Engine) (id : String) (ts : ℕ) → (remember_delivery_id o e id ts).dlq ≡ e.dlq
  unfolding remember_delivery_id
  remember-dlq e id ts = ground arith

  remove_dlq_gone : (e : Engine) (id : String) → Map.get id (remove_dlq e id).dlq ≡ none
  unfolding remove_dlq Map.has
  remove_dlq_gone e id = ground (arith, Map.get-delete_self id e.dlq)

  settled-ids :
      (e : Engine) (id : String) (accepted : Bool)
      → (if accepted then remove_dlq e id else e).delivery_ids ≡ e.delivery_ids
  settled-ids e id true = remove_dlq-ids e id
  settled-ids e id false = refl

  settled-dlq :
      (e : Engine) (id : String) (accepted : Bool)
      → Map.get id (if accepted then remove_dlq e id else e).dlq
        ≡ (if accepted then none else Map.get id e.dlq)
  settled-dlq e id true = remove_dlq_gone e id
  settled-dlq e id false = refl

  module _ (lower : String → String) (map_input : MapInput → MapResult)
      (publish : MappedEnvelope → PublishReply) where
    abbrev pub event_of : Delivery → String
    event_of d = lower (trim d.event)

    abbrev pub input_of : Delivery → Fields → MapInput
    input_of d fs = record { event = event_of d; delivery_id = trim d.delivery_id; parsed = fs }

    -- The delivery names its event and itself, and is not remembered.
    abbrev pub IsNew : Engine → Delivery → Type 0
    IsNew e d =
        (is_empty (event_of d) ≡ false)
        × (is_empty (trim d.delivery_id) ≡ false)
        × (Map.get (trim d.delivery_id) e.delivery_ids ≡ none)

    -- Its body is an object that `map` takes.
    abbrev pub IsMapped : Delivery → MappedEnvelope → Type 0
    IsMapped d mapped =
        (fs : Fields) × (d.parsed ≡ some (obj fs))
        × (map_input (input_of d fs) ≡ MapResult.ok mapped)

    -- The body is an object that `map` refuses with a text.
    abbrev pub IsRefused : Delivery → String → Type 0
    IsRefused d text =
        (fs : Fields) × (d.parsed ≡ some (obj fs))
        × (map_input (input_of d fs) ≡ MapResult.error text)

    -- The five failures, each with its condition and its error.
    abbrev pub IsFailure : Engine → Delivery → ApplyError → Type 0
    IsFailure e d reason =
        ((is_empty (event_of d) ≡ true) × (reason ≡ message "missing issue sync event"))
        ⊎ ((is_empty (event_of d) ≡ false)
            × (is_empty (trim d.delivery_id) ≡ true)
            × (reason ≡ message "missing issue sync delivery id"))
        ⊎ (IsNew e d
            × ((fs : Fields) → d.parsed ≢ some (obj fs))
            × (reason ≡ message "invalid json payload"))
        ⊎ (IsNew e d × ((text : String) × IsRefused d text × (reason ≡ message text)))
        ⊎ (IsNew e d
            × ((mapped : MappedEnvelope) × IsMapped d mapped
                × ((publish mapped).status ≢ 200)
                × (reason ≡ publish_failed (publish mapped).status)))

    -- The names that every answer has.
    abbrev pub AreNames : Delivery → (id event : String) → Type 0
    AreNames d id event = (id ≡ trim d.delivery_id) × (event ≡ event_of d)

    abbrev pub ApplySpec : Engine → Delivery → Engine × ApplyResult → Type 0
    ApplySpec e d (e', ApplyResult.failed id event reason) =
        (e' ≡ e) × AreNames d id event × IsFailure e d reason
    ApplySpec e d (e', ApplyResult.duplicate_delivery id event) =
        (e' ≡ e)
        × AreNames d id event
        × (is_empty event ≡ false)
        × (is_empty id ≡ false)
        × (Map.has id e.delivery_ids ≡ true)
    ApplySpec e d (e', ApplyResult.applied id event mapped accepted cursor) =
        Remembered id 0 e'.delivery_ids
        × AreNames d id event
        × IsNew e d
        × IsMapped d mapped
        × ((publish mapped).status ≡ 200)
        × (accepted ≡ (publish mapped).accepted)
        × (cursor ≡ (publish mapped).cursor)
        × (Map.get id e'.dlq ≡ (if accepted then none else Map.get id e.dlq))

    settle-ApplySpec :
        (e : Engine) (d : Delivery) (mapped : MappedEnvelope)
        → IsEngine o e
        → 0 < o.max_delivery_ids
        → IsNew e d
        → IsMapped d mapped
        → ApplySpec e d (settle o e (trim d.delivery_id) (event_of d) mapped (publish mapped) d.now)
    unfolding settle Map.has
    settle-ApplySpec e d mapped w room new found =
        let id = trim d.delivery_id in
        let remembered = remember_delivery_id o e id d.now in
        elim (Bool-cases ((publish mapped).status == 200)) [
          | inl ok ↦ rw ok (
            rw (settled-ids remembered id (publish mapped).accepted)
                (remember-Remembered_self o e id d.now w.0.0 new.2 room),
            (refl, refl),
            new,
            found,
            (==_iff (publish mapped).status 200).0 ok,
            refl,
            refl,
            settled-dlq remembered id (publish mapped).accepted
                ∙ ap (λ q. if (publish mapped).accepted then none else Map.get id q)
                    (remember-dlq e id d.now),
          )
          | inr refused ↦
              let status : (publish mapped).status ≢ 200 = λ same.
                absurd (ground (arith, refused, (==_iff (publish mapped).status 200).1 same)) in
              rw refused
                (refl, (refl, refl), inr (inr (inr (inr (new, (mapped, found, status, refl))))))
        ]

    mapped-ApplySpec :
        (e : Engine) (d : Delivery) (fs : Fields) (result : MapResult)
        → IsEngine o e
        → 0 < o.max_delivery_ids
        → IsNew e d
        → d.parsed ≡ some (obj fs)
        → map_input (input_of d fs) ≡ result
        → ApplySpec e d (
            apply_mapped o lower map_input publish e (trim d.delivery_id) (event_of d) result d.now)
    mapped-ApplySpec e d fs (MapResult.error reason) w room new body found =
        (refl, (refl, refl), inr (inr (inr (inl (new, (reason, (fs, body, found), refl))))))
    mapped-ApplySpec e d fs (MapResult.ok mapped) w room new body found =
        settle-ApplySpec e d mapped w room new (fs, body, found)

    invalid-ApplySpec :
        (e : Engine) (d : Delivery)
        → IsNew e d
        → ((fs : Fields) → d.parsed ≢ some (obj fs))
        → ApplySpec e d (
          e,
          ApplyResult.failed (trim d.delivery_id) (event_of d) (message "invalid json payload"),
        )
    invalid-ApplySpec e d new other = (refl, (refl, refl), inr (inr (inl (new, other, refl))))

    parsed-ApplySpec :
        (e : Engine) (d : Delivery) (parsed : Option Json)
        → IsEngine o e
        → 0 < o.max_delivery_ids
        → IsNew e d
        → d.parsed ≡ parsed
        → ApplySpec e d (
            apply_parsed o lower map_input publish e
              (trim d.delivery_id)
              (event_of d)
              (fields_of parsed)
              d.now)
    parsed-ApplySpec e d (some (obj fs)) w room new body =
        mapped-ApplySpec e d fs (map_input (input_of d fs)) w room new body refl
    parsed-ApplySpec e d none w room new body = invalid-ApplySpec e d new λ fs. cc
    parsed-ApplySpec e d (some null) w room new body = invalid-ApplySpec e d new λ fs. cc
    parsed-ApplySpec e d (some (bool b)) w room new body = invalid-ApplySpec e d new λ fs. cc
    parsed-ApplySpec e d (some (num n)) w room new body = invalid-ApplySpec e d new λ fs. cc
    parsed-ApplySpec e d (some (str s)) w room new body = invalid-ApplySpec e d new λ fs. cc
    parsed-ApplySpec e d (some (arr vs)) w room new body = invalid-ApplySpec e d new λ fs. cc

    -- The answer to a delivery, where the engine is well-formed and may remember one. It names the
    -- trimmed id and the trimmed event in lower case. A failure changes nothing: the event is missing,
    -- the id is missing, the body is no JSON object, `map` refuses it, or the publish is answered with a
    -- status other than 200, each with its error. A duplicate changes nothing and was remembered. An
    -- applied delivery was new, `map` took it and its publish was answered with 200; it passes that
    -- answer on, is the newest remembered, and leaves the queue where the publish was accepted.
    pub apply-ApplySpec :
        (e : Engine) (d : Delivery)
        → IsEngine o e
        → 0 < o.max_delivery_ids
        → ApplySpec e d (apply_delivery o lower map_input publish e d)
    unfolding apply_delivery has_delivery_id Map.has
    apply-ApplySpec e d w room =
        let id = trim d.delivery_id in
        elim (Bool-cases (is_empty (event_of d))) [
          | inl no_event ↦ rw no_event (refl, (refl, refl), inl (no_event, refl))
          | inr event_there ↦ elim (Bool-cases (is_empty id)) [
            | inl no_id ↦
                rw (event_there, no_id) (refl, (refl, refl), inr (inl (event_there, no_id, refl)))
            | inr id_there ↦ elim (Bool-cases (Map.has id e.delivery_ids)) [
              | inl old ↦
                  rw (event_there, id_there, old) (refl, (refl, refl), event_there, id_there, old)
              | inr new ↦
                  rw (event_there, id_there, new)
                    (parsed-ApplySpec e d d.parsed w room
                      (event_there, id_there, ground (arith, new)) refl)
            ]
          ]
        ]
