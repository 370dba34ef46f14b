-- ===== src/Tests/Review.antt =====
-- Reviews and presence.
use bit_relay.Prelude.{
  eq_iff, ◌+◌, ◌≤◌, ◌<◌, ◌≡◌, ◌↔◌, refl, none, Bool, true, false, some, String, arith, length,
}
use bit_relay.Map
use bit_relay.Json.{null}
use bit_relay.Room.{approve, deny, RoomState, create_room_state}
use bit_relay.Review.{compute_review_status, reviews_of, submit_review, heartbeat}
use bit_relay.Review.Votes.{votes, first_submission, submit_review-counts}

abbrev never : String → Bool
never socket = false

abbrev one_review : RoomState
one_review = (submit_review never create_room_state "ann" "pr1" deny 5).0

submit_review_test : (submit_review never one_review "ann" "pr1" approve 9).1.1.approve_count ≡ 1
unfolding submit_review Map.set Map.get compute_review_status
submit_review_test = refl

submit_review-counts_example :
    let (r', (is_new, status)) = submit_review never one_review "ann" "pr1" approve 9 in
    (Map.get "ann" (reviews_of r' "pr1")
      ≡ some (record {
        sender = "ann";
        verdict = approve;
        submitted_at = first_submission (Map.get "ann" (reviews_of one_review "pr1")) 9;
        updated_at = 9;
      }))
    × ((is_new ≡ true) ↔ (Map.get "ann" (reviews_of one_review "pr1") ≡ none))
    × (Map.get "bob" (reviews_of r' "pr1") ≡ Map.get "bob" (reviews_of one_review "pr1"))
    × (reviews_of r' "pr2" ≡ reviews_of one_review "pr2")
    × (status.approve_count ≡ votes approve (reviews_of r' "pr1"))
    × (status.deny_count ≡ votes deny (reviews_of r' "pr1"))
    × (status.approve_count + status.deny_count ≡ length (reviews_of r' "pr1"))
    × ((status.resolved ≡ true) ↔ (
        (0 < length (reviews_of r' "pr1"))
        × (votes deny (reviews_of r' "pr1") ≤ votes approve (reviews_of r' "pr1"))))
submit_review-counts_example =
    submit_review-counts never one_review "ann" "pr1" approve 9 "bob" "pr2"
      (λ e. ground (arith, eq_iff "ann" "bob")) (λ e. ground (arith, eq_iff "pr1" "pr2"))

abbrev one_present : RoomState
one_present = (heartbeat never create_room_state "ann" "online" null 100).0

one_present-Distinct : Map.Distinct one_present.presence_by_participant
unfolding heartbeat Map.set Map.get
one_present-Distinct = (refl, tt)
