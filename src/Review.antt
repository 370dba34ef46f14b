-- ===== src/Review.antt =====
-- Reviews, presence and broadcasts of a room (src/memory_handler.ts), after the checks of a request.
-- Whether `socket.send` of a socket throws is a parameter.
pub mod Votes
pub mod Presence
use bit_relay.Prelude.{
  keep, ℕ, ◌+◌, ◌-◌, ◌*◌, Bool, true, false, not, ◌&&◌, List, [], ◌∷◌, Option, none, some, String,
  if◌then◌else◌, ltb, leb,
}
use bit_relay.Map
use bit_relay.Map.{Map}
use bit_relay.Json.{Json, null}
use bit_relay.Room.{
  ReviewVerdict, approve, deny, ReviewRecord, PresenceRecord, WsSession, RoomState,
}

pub record ReviewStatus : Type 0 where
  pub approve_count : ℕ
  pub deny_count : ℕ
  pub total : ℕ
  pub resolved : Bool

-- The loop over the reviews, with the counts so far.
unfoldable pub count_reviews : Map ReviewRecord → (approve_count deny_count : ℕ) → ℕ × ℕ
count_reviews [] approves denies = (approves, denies)
count_reviews ((sender, review) ∷ rest) approves denies = elim review.verdict [
  | approve ↦ count_reviews rest (approves + 1) denies
  | deny ↦ count_reviews rest approves (denies + 1)
]

-- `approve_count / total >= 0.5` is `total ≤ 2 * approve_count`.
unfoldable pub compute_review_status : Map ReviewRecord → ReviewStatus
unfolding count_reviews
compute_review_status reviews =
    let (approves, denies) = count_reviews reviews 0 0 in
    let total = approves + denies in
    record {
      approve_count = approves;
      deny_count = denies;
      total = total;
      resolved = ltb 0 total && leb total (2 * approves);
    }

-- A broadcast sends to the open sockets and drops those where that throws: the sessions that stay,
-- and the sockets that got the message.
unfoldable pub broadcast : (String → Bool) → Map WsSession → Map WsSession × List String
broadcast throws [] = ([], [])
broadcast throws ((socket, session) ∷ rest) =
    let (kept, sent) = broadcast throws rest in
    if not session.is_open
    then ((socket, session) ∷ kept, sent)
    else if throws socket
    then (kept, sent)
    else ((socket, session) ∷ kept, socket ∷ sent)

abbrev pub or_no_reviews : Option (Map ReviewRecord) → Map ReviewRecord
or_no_reviews none = []
or_no_reviews (some reviews) = reviews

-- `roomState.reviewsByPr.get(prId) ?? new Map()`
abbrev pub reviews_of : RoomState → String → Map ReviewRecord
reviews_of r pr_id = or_no_reviews (Map.get pr_id r.reviews_by_pr)

abbrev submitted_at : Option ReviewRecord → ℕ → ℕ
submitted_at none now = now
submitted_at (some existing) now = existing.submitted_at

abbrev pub review_by : Map ReviewRecord → String → ReviewVerdict → ℕ → ReviewRecord
review_by reviews sender verdict now = record {
  sender = sender;
  verdict = verdict;
  submitted_at = submitted_at (Map.get sender reviews) now;
  updated_at = now;
}

-- POST /api/v1/review once its signature is verified: the room, whether the review is new, and the
-- status.
unfoldable pub submit_review :
    (String → Bool)
    → RoomState
    → (sender pr_id : String) → ReviewVerdict
    → ℕ
    → RoomState × (Bool × ReviewStatus)
unfolding Map.get Map.set Map.has compute_review_status broadcast
submit_review throws r sender pr_id verdict now =
    let reviews = reviews_of r pr_id in
    let reviews' = Map.set sender (review_by reviews sender verdict now) reviews in
    (
      record r {
        reviews_by_pr = Map.set pr_id reviews' r.reviews_by_pr;
        sessions = (broadcast throws r.sessions).0;
      },
      (not (Map.has sender reviews), compute_review_status reviews'),
    )

-- prunePresence: `nowSec - record.lastHeartbeat >= ttlSec` drops a participant.
unfoldable pub prune_presence : RoomState → (now ttl : ℕ) → RoomState
unfolding keep
prune_presence r now ttl = record r {
  presence_by_participant =
      keep (λ e. not (leb (e.1.last_heartbeat + ttl) now)) r.presence_by_participant;
}

-- A heartbeat: the room, and whether the participant joined.
unfoldable pub heartbeat :
    (String → Bool) → RoomState → (participant status : String) → Json → ℕ → RoomState × Bool
unfolding Map.has Map.set broadcast
heartbeat throws r participant status metadata now = (
  record r {
    presence_by_participant =
        Map.set participant
          (record {
            participant_id = participant;
            status = status;
            metadata = metadata;
            last_heartbeat = now;
          })
          r.presence_by_participant;
    sessions = (broadcast throws r.sessions).0;
  },
  not (Map.has participant r.presence_by_participant),
)

-- DELETE /api/v1/presence: the room, and whether the participant was there.
unfoldable pub leave : (String → Bool) → RoomState → String → RoomState × Bool
unfolding Map.has Map.delete broadcast
leave throws r participant =
    if Map.has participant r.presence_by_participant
    then (
      record r {
        presence_by_participant = Map.delete participant r.presence_by_participant;
        sessions = (broadcast throws r.sessions).0;
      },
      true,
    )
    else (r, false)
