-- ===== src/Relay/Restore/Same.antt =====
-- What comes back of a relay that is restored from its snapshot (src/memory_handler.ts).
use bit_relay.Prelude.{
  ℕ, ◌≡◌, refl, ap, sym, subst, ◌∙◌, Option, none, some, Bool-cases, inl, inr, str_eq, [], ◌∷◌,
  String, All,
}
use bit_relay.Map
use bit_relay.Map.{Map}
use bit_relay.Map.Listed.{
  listed, listed-Distinct, get-listed_own, IsOwn, SameEntries, Both, get-Both, map_values,
  get-map_values,
}
use mathlib.Core.Option
use bit_relay.Room.{RoomState}
use bit_relay.IssueSync.RoundTrip.{SameEngine}
use bit_relay.Relay.{Relay}
use bit_relay.Relay.Restore.Loops.{All-map}
use bit_relay.Relay.Restore.Rooms.{IsStoredRoom, restored_from}
use bit_relay.Relay.Restore.Keys.{IsStoredNonces, filled, get-filled}

-- A room and what came back of it: nobody is connected, and all else is the same.
pub record SameRoom (r r' : RoomState) : Type 0 where
  pub messages : r'.messages ≡ r.messages
  pub acks : SameEntries r.acks_by_consumer r'.acks_by_consumer
  pub presence : r'.presence_by_participant ≡ r.presence_by_participant
  pub reviews : r'.reviews_by_pr ≡ r.reviews_by_pr
  pub sessions : r'.sessions ≡ []

-- A relay and what came back of it. What a name stands for is the same, not the order of the names;
-- logs, presence, reviews, the exchange and the failed deliveries keep their order.
pub record SameRelay (s s' : Relay) : Type 0 where
  pub rooms : (room : String) → Both SameRoom (Map.get room s.rooms) (Map.get room s'.rooms)
  pub keys : SameEntries s.identity.key_registry s'.identity.key_registry
  pub nonces :
      (sender : String)
      → SameEntries
          (Map.or_empty (Map.get sender s.identity.nonces_by_sender))
          (Map.or_empty (Map.get sender s'.identity.nonces_by_sender))
  pub exchange : s'.exchange ≡ s.exchange
  pub engine : SameEngine s.github_issue_sync s'.github_issue_sync

abbrev pub restored_rooms : Map RoomState → Map RoomState
restored_rooms rooms = map_values restored_from (listed rooms)

pub rooms-Both :
    (ttl now : ℕ) (rooms : Map RoomState) (room : String)
    → Map.Distinct rooms
    → IsOwn rooms
    → All (λ e. IsStoredRoom ttl now e.1) rooms
    → Both SameRoom (Map.get room rooms) (Map.get room (restored_rooms rooms))
rooms-Both ttl now rooms room d own h =
    let got : Map.get room (restored_rooms rooms) ≡ Option.map restored_from (Map.get room rooms) =
      get-map_values restored_from room (listed rooms)
      ∙ ap (Option.map restored_from) (get-listed_own room rooms d own) in
    subst (Both SameRoom (Map.get room rooms)) (sym got) (
      get-Both SameRoom restored_from rooms room (
        All-map
          (λ e stored. record {
            messages = refl;
            acks = λ k.
                sym (get-listed_own k e.1.acks_by_consumer stored.consumers stored.own_consumers);
            presence = refl;
            reviews = refl;
            sessions = refl;
          })
          rooms h))

-- The nonces of one sender are stored as a whole map is.
nonces_of-stored :
    (ttl now : ℕ) (nonces : Map (Map ℕ)) (sender : String)
    → All (IsStoredNonces ttl now) nonces
    → Map.Distinct (Map.or_empty (Map.get sender nonces))
      × IsOwn (Map.or_empty (Map.get sender nonces))
unfolding Map.get
nonces_of-stored ttl now [] sender h = (tt, refl)
nonces_of-stored ttl now ((k, m) ∷ nonces) sender ((d, own, all), h) =
    elim (Bool-cases (str_eq k sender)) [
      | inl same ↦ rw same (d, own)
      | inr other ↦ rw other (nonces_of-stored ttl now nonces sender h)
    ]

listed-nonces :
    (nonces : Option (Map ℕ))
    → Map.or_empty (Option.map listed nonces) ≡ listed (Map.or_empty nonces)
unfolding listed
listed-nonces none = refl
listed-nonces (some m) = refl

pub nonces-SameEntries :
    (ttl now : ℕ) (nonces : Map (Map ℕ)) (sender : String)
    → Map.Distinct nonces
    → IsOwn nonces
    → All (IsStoredNonces ttl now) nonces
    → SameEntries
        (Map.or_empty (Map.get sender nonces))
        (Map.or_empty (Map.get sender (map_values listed (filled (listed nonces)))))
nonces-SameEntries ttl now nonces sender d own h nonce =
    let (distinct, named) = nonces_of-stored ttl now nonces sender h in
    let back : Map.or_empty (Map.get sender (map_values listed (filled (listed nonces))))
        ≡ listed (Map.or_empty (Map.get sender nonces)) =
      ap Map.or_empty (get-map_values listed sender (filled (listed nonces)))
      ∙ listed-nonces (Map.get sender (filled (listed nonces)))
      ∙ ap listed (
          get-filled sender (listed nonces) (listed-Distinct nonces d)
          ∙ ap Map.or_empty (get-listed_own sender nonces d own)) in
    sym (ap (Map.get nonce) back ∙ get-listed_own nonce _ distinct named)
