-- ===== src/Review/Presence.antt =====
-- Who is present (prunePresence of src/memory_handler.ts).
use bit_relay.Prelude.{
  ℕ, ◌+◌, ◌≡◌, refl, Bool, not, [], ◌∷◌, Option, none, some, String, if◌then◌else◌, arith, leb,
  keep, eq_iff,
}
use bit_relay.Map
use bit_relay.Map.{Map}
use bit_relay.Room.{PresenceRecord, RoomState}
use bit_relay.Review.{prune_presence}

abbrev alive : (now ttl : ℕ) → PresenceRecord → Bool
alive now ttl p = not (leb (p.last_heartbeat + ttl) now)

abbrev pub if_alive : (now ttl : ℕ) → Option PresenceRecord → Option PresenceRecord
if_alive now ttl none = none
if_alive now ttl (some p) = if alive now ttl p then some p else none

keep-absent :
    (now ttl : ℕ) (id : String) (m : Map PresenceRecord)
    → Map.get id m ≡ none
    → Map.get id (keep (λ e. alive now ttl e.1) m) ≡ none
unfolding keep Map.get
keep-absent now ttl id [] h = refl
keep-absent now ttl id ((k, p) ∷ m) h = ground (arith, keep-absent now ttl id m)

keep-get :
    (now ttl : ℕ) (id : String) (m : Map PresenceRecord)
    → Map.Distinct m
    → Map.get id (keep (λ e. alive now ttl e.1) m) ≡ if_alive now ttl (Map.get id m)
unfolding keep Map.get
keep-get now ttl id [] d = refl
keep-get now ttl id ((k, p) ∷ m) d =
    ground (arith, keep-get now ttl id m d.1, keep-absent now ttl k m d.0, eq_iff k id)

-- Pruning leaves each participant whose last heartbeat is younger than the time to live as it is,
-- and drops the others.
pub prune_presence-get :
    (r : RoomState) (now ttl : ℕ) (id : String)
    → Map.Distinct r.presence_by_participant
    → Map.get id (prune_presence r now ttl).presence_by_participant
      ≡ if_alive now ttl (Map.get id r.presence_by_participant)
unfolding prune_presence
prune_presence-get r now ttl id d = keep-get now ttl id r.presence_by_participant d
