-- ===== src/Relay/Preserve.antt =====
-- Every request to `fetch` of src/memory_handler.ts keeps the relay well formed.
pub mod Peers
pub mod Rooms
pub mod Webhook
pub mod Publish
pub mod Sockets
use bit_relay.Prelude.{
  All, ℕ, ◌<◌, ◌≡◌, refl, Bool, true, false, ◌&&◌, ◌||◌, List, [], ◌∷◌, String, str_eq,
  if◌then◌else◌, Bool-cases, inl, inr,
}
use bit_relay.Http.{Platform, Request}
use bit_relay.Relay.{RelayOptions, Relay, Response}
use bit_relay.Relay.Action.{Action, pure, raise}
use bit_relay.Relay.Fetch.{
  Ambient, key_info, key_rotate, routes, route, fetch, serve, Event, request, message, closed, step,
  steps,
}
use bit_relay.Relay.Caches.{IssueReads}
use bit_relay.Relay.Sockets.{reap_when_due}
use bit_relay.Relay.Preserve.Sockets.{
  reap-IsRelay, message-IsRelay, closed-IsRelay, socket-Keeps, discovery-Keeps, issue_pull-Keeps,
  issue_sync-Keeps, verify-Keeps,
}
use bit_relay.Relay.Keeps.{
  Keeps, pure-Keeps, raise-Keeps, gets-Keeps, run-Keeps, >>=-Keeps, guard-Keeps,
}
use bit_relay.Relay.Invariant.{IsRelay}
use bit_relay.Relay.Preserve.Peers.{push-Keeps, pull-Keeps}
use bit_relay.Relay.Preserve.Rooms.{
  poll-Keeps, pending-Keeps, ack-Keeps, results-Keeps, heartbeat-Keeps, presence-Keeps,
  review-Keeps,
}
use bit_relay.Relay.Preserve.Webhook.{webhook-Keeps, dlq_list-Keeps, dlq_retry-Keeps}
use bit_relay.Relay.Preserve.Publish.{publish-Keeps, callback-Keeps, identity-IsRelay}

if-Keeps :
    (o : RelayOptions) (test : Bool) (m k : Action Response)
    → Keeps (IsRelay o) m
    → Keeps (IsRelay o) k
    → Keeps (IsRelay o) (if test then m else k)
if-Keeps o true m k here there = here
if-Keeps o false m k here there = there

infixr 5 ◌∷ₖ◌
abbrev ◌∷ₖ◌ {ℓ κ} : {A : Type ℓ} {B : Type κ} → A → B → A × B
a ∷ₖ b = (a, b)

route-Keeps :
    (o : RelayOptions) (table : List (String × Action Response)) (pathname : String)
    → All (λ entry. Keeps (IsRelay o) entry.1) table
    → Keeps (IsRelay o) (route table pathname)
unfolding route
route-Keeps o [] pathname h = raise-Keeps (IsRelay o) Response 404 "not found"
route-Keeps o ((path, handler) ∷ rest) pathname (here, later) =
    if-Keeps o (str_eq pathname path) handler (route rest pathname) here
      (route-Keeps o rest pathname later)

module _ (p : Platform) (o : RelayOptions) where
  info-Keeps : (q : Request) → Keeps (IsRelay o) (key_info p o q)
  unfolding key_info
  info-Keeps q = guard-Keeps _ _ _ _ _ λ _. gets-Keeps _ _

  rotate-Keeps : (q : Request) (now : ℕ) → Keeps (IsRelay o) (key_rotate p o q now)
  unfolding key_rotate
  rotate-Keeps q now =
      guard-Keeps _ _ _ _ _ λ _.
        >>=-Keeps _ _ _ (run-Keeps _ _ λ s h. identity-IsRelay o s _ h) λ answer. pure-Keeps _ _

  module _ (reads : IssueReads) (hops : 0 < o.cache_exchange_max_hops) where
    routes-Keeps :
        (q : Request) (now : Ambient)
        → All (λ entry. Keeps (IsRelay o) entry.1) (routes p o reads q now)
    routes-Keeps q now =
        info-Keeps q
        ∷ₖ rotate-Keeps q now.now_sec
        ∷ₖ verify-Keeps p o q now.now_sec
        ∷ₖ webhook-Keeps p o q now.now_sec hops
        ∷ₖ dlq_list-Keeps p o q
        ∷ₖ dlq_retry-Keeps p o q now.now_sec hops
        ∷ₖ callback-Keeps p o q now.now_sec now.fresh_id hops
        ∷ₖ results-Keeps p o q
        ∷ₖ discovery-Keeps p o q
        ∷ₖ pull-Keeps p o q
        ∷ₖ push-Keeps p o q
        ∷ₖ issue_pull-Keeps p o reads q
        ∷ₖ issue_sync-Keeps p o reads q
        ∷ₖ socket-Keeps p o q now.now_ms now.fresh_id
        ∷ₖ publish-Keeps p o q now.now_ms now.now_sec now.fresh_id hops
        ∷ₖ poll-Keeps p o q
        ∷ₖ pending-Keeps p o q
        ∷ₖ ack-Keeps p o q
        ∷ₖ heartbeat-Keeps p o q now.now_sec
        ∷ₖ presence-Keeps p o q now.now_sec
        ∷ₖ review-Keeps p o q now.now_sec
        ∷ₖ tt

    fetch-Keeps : (q : Request) (now : Ambient) → Keeps (IsRelay o) (fetch p o reads q now)
    unfolding fetch
    fetch-Keeps q now = if-Keeps o _ _ _ (pure-Keeps (IsRelay o) _) (
        if-Keeps o _ _ _ (raise-Keeps (IsRelay o) Response 401 "unauthorized")
          (route-Keeps o (routes p o reads q now) q.pathname (routes-Keeps q now)))

    step-IsRelay : (s : Relay) (event : Event) → IsRelay o s → IsRelay o (step p o reads s event)
    unfolding step serve
    step-IsRelay s (request q now) h =
        fetch-Keeps q now (reap_when_due p o now.now_ms s) (reap-IsRelay p o now.now_ms s h)
    step-IsRelay s (message room socket now_ms) h = message-IsRelay o room socket now_ms s h
    step-IsRelay s (closed room socket now_ms) h = closed-IsRelay o room socket s h

    -- Over any sequence of requests and socket events, each run to its end before the next, a well
    -- formed relay stays well formed where envelopes may travel at all: rooms stand under valid
    -- names and hold distinct ids, valid topics and envelopes of their own within the bound; the
    -- exchange's cursors rise within its bound, its records may still travel, and this relay's own
    -- have not come back; the webhook's deliveries and queue are distinct, bounded and in step.
    pub steps-IsRelay :
        (s : Relay) (events : List Event) → IsRelay o s → IsRelay o (steps p o reads s events)
    unfolding steps
    steps-IsRelay s [] h = h
    steps-IsRelay s (event ∷ events) h =
        steps-IsRelay (step p o reads s event) events (step-IsRelay s event h)
