-- ===== src/GitHub/Mapped.antt =====
-- Where a GitHub delivery may go (src/memory_handler.ts).
use bit_relay.Prelude.{
  ◌==◌, ◌≡◌, refl, true, Option, none, some, String, Bool-cases, Option-cases, inl, inr,
}
use bit_relay.Text.{trim, is_empty}
use bit_relay.Text.Edit.{replace_where}
use bit_relay.Json.{Fields, prop, string_or_empty}
use bit_relay.Http.{Platform, default_room}
use bit_relay.Room.{is_valid_room_name, is_valid_topic}
use bit_relay.IssueSync.{Engine, Delivery, MappedEnvelope, MapInput, has_delivery_id, fields_of}
use bit_relay.IssueSync.Published.{publish_input, parsed_input, mapped_or_none}
use bit_relay.GitHub.{
  normalize_github_room_name, map_github_webhook_topic, map_delivery, mapped_of,
  read_github_repository_full_name,
}

default_room-valid : is_valid_room_name default_room ≡ true
unfolding is_valid_room_name
default_room-valid = refl

pub normalize_github_room_name-valid :
    (full_name : Option String) → is_valid_room_name (normalize_github_room_name full_name) ≡ true
unfolding normalize_github_room_name
normalize_github_room_name-valid none = default_room-valid
normalize_github_room_name-valid (some name) =
    let normalized = replace_where (λ c. c == b'/') "-" (trim name) in
    elim (Bool-cases (is_valid_room_name normalized)) [
      | inl good ↦ rw good good
      | inr bad ↦ rw bad default_room-valid
    ]

-- An envelope goes to a room with a valid name under a valid topic.
abbrev pub IsAddressed : Option MappedEnvelope → Type 0
IsAddressed none = Unit
IsAddressed (some m) = (is_valid_room_name m.room ≡ true) × (is_valid_topic m.topic ≡ true)

map_delivery-IsAddressed :
    (p : Platform) (event : String) (input : MapInput)
    → IsAddressed (mapped_or_none (map_delivery p event input))
unfolding map_delivery mapped_of
map_delivery-IsAddressed p event input =
    let action = p.to_lower_case (trim (string_or_empty (prop "action" input.parsed))) in
    elim (Option-cases (map_github_webhook_topic p event action)) [
      | inl e ↦ rw (IsAddressed, e) tt
      | inr (topic, e) ↦ elim (Bool-cases (is_valid_topic topic)) [
        | inl good ↦
            rw (IsAddressed, e, good)
              (
                normalize_github_room_name-valid (read_github_repository_full_name input.parsed),
                good,
              )
        | inr bad ↦ rw (IsAddressed, e, bad) tt
      ]
    ]

-- What the webhook publishes always names a valid room and a valid topic.
pub publish_input-IsAddressed :
    (p : Platform) (event : String) (e : Engine) (d : Delivery)
    → IsAddressed (publish_input p.to_lower_case (map_delivery p event) e d)
unfolding publish_input
publish_input-IsAddressed p event e d =
    elim (Bool-cases (is_empty (p.to_lower_case (trim d.event)))) [
      | inl no_event ↦ rw no_event tt
      | inr named ↦ elim (Bool-cases (is_empty (trim d.delivery_id))) [
        | inl no_id ↦ rw (named, no_id) tt
        | inr id ↦ elim (Bool-cases (has_delivery_id e (trim d.delivery_id))) [
          | inl old ↦ rw (named, id, old) tt
          | inr new ↦ rw (named, id, new) (parsed (fields_of d.parsed))
        ]
      ]
    ]
  where
    parsed :
        (fs : Option Fields)
        → IsAddressed (
            parsed_input p.to_lower_case
              (map_delivery p event)
              (trim d.delivery_id)
              (p.to_lower_case (trim d.event))
              fs)
    parsed none = tt
    parsed (some fs) = map_delivery-IsAddressed p event _
