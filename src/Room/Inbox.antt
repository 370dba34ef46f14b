-- ===== src/Room/Inbox.antt =====
-- inboxPendingFromRoom and ackIntoRoom: what a consumer has still to read.
use bit_relay.Map.{or_empty}
use bit_relay.Prelude.{
  keep-keep, keep_congr, ℕ, ◌+◌, ◌≤◌, ◌≡◌, ◌≢◌, refl, ap, ◌∙◌, true, not, ◌||◌, List, [], ◌∷◌, ◌++◌,
  arith, length, String, str_eq, eq_iff, eq_refl, Option, length-append, all, keep, if◌then◌else◌,
}
use bit_relay.Map
use bit_relay.Json.{Json}
use bit_relay.Room.{
  ack_ids, Envelope, RoomState, includes, acked_by, pending_of, ok, parse_ack_ids, add_acks, acked,
  ack_into_room,
}
use bit_relay.Room.Log.{any-append}

includes-append :
    (xs ys : List String) (x : String) → includes (xs ++ ys) x ≡ (includes xs x || includes ys x)
includes-append xs ys x = any-append (λ y. str_eq y x) xs ys

includes-add_acks :
    (set ids : List String) (n : ℕ) (x : String)
    → includes (add_acks set ids n).0 x ≡ (includes set x || includes ids x)
unfolding add_acks
includes-add_acks set [] n x = ground arith
includes-add_acks set (id ∷ ids) n x = ground (
  arith,
  includes-add_acks (if includes set id then set else set ++ id ∷ []) ids
      (if includes set id then n else n + 1) x,
  includes-append set (id ∷ []) x,
  eq_iff id x,
)

length-add_acks :
    (set ids : List String) (n : ℕ)
    → length (add_acks set ids n).0 + n ≡ length set + (add_acks set ids n).1
unfolding add_acks
length-add_acks set [] n = refl
length-add_acks set (id ∷ ids) n = ground (
  arith,
  length-add_acks (if includes set id then set else set ++ id ∷ []) ids
      (if includes set id then n else n + 1),
  length-append set (id ∷ []),
)

add_acks_again :
    (set ids : List String) (n : ℕ) → all (includes set) ids ≡ true → add_acks set ids n ≡ (set, n)
unfolding add_acks
add_acks_again set [] n h = refl
add_acks_again set (id ∷ ids) n h = ground (arith, add_acks_again set ids n)

-- An `ok` list of ids ends in the consumer's set, and touches no other consumer's.
acked_by-ack_ids :
    (r : RoomState) (consumer : String) (ids : List String)
    → acked_by (ack_ids r consumer (ok ids)).0 consumer ≡ (add_acks (acked_by r consumer) ids 0).0
acked_by-ack_ids r consumer ids = ap or_empty (Map.get-set_self consumer _ r.acks_by_consumer)

acked_by-ack_ids_ne :
    (r : RoomState) (consumer other : String) (ids : List String)
    → consumer ≢ other
    → acked_by (ack_ids r consumer (ok ids)).0 other ≡ acked_by r other
acked_by-ack_ids_ne r consumer other ids h =
    ap or_empty (Map.get-set_ne consumer other _ r.acks_by_consumer h)

abbrev pub pending_from : List String → List Envelope → List Envelope
pending_from set = keep (λ e. not (includes set e.id))

-- After an acknowledgement a consumer's pending messages are those that were pending before and
-- whose id was not acknowledged, in the same order, and the pending messages of every other
-- consumer are unchanged.
pub ack-pending_of :
    (r : RoomState) (consumer other : String) (request : Option Json) (ids : List String)
    → parse_ack_ids request ≡ ok ids
    → consumer ≢ other
    → let r' = (ack_into_room r consumer request).0 in
      (pending_of r' consumer ≡ pending_from ids (pending_of r consumer))
      × (pending_of r' other ≡ pending_of r other)
unfolding ack_into_room
ack-pending_of r consumer other request ids e h =
    let now = acked_by r consumer in
    rw e (
      ap (λ set. pending_from set r.messages) (acked_by-ack_ids r consumer ids)
          ∙ keep_congr _ _ r.messages (λ m. ap not (includes-add_acks now ids 0 m.id))
          ∙ keep-keep (λ m. includes now m.id) (λ m. includes ids m.id) r.messages,
      ap (λ set. pending_from set r.messages) (acked_by-ack_ids_ne r consumer other ids h),
    )

add_acks-le : (set ids : List String) (n : ℕ) → (add_acks set ids n).1 ≤ n + length ids
unfolding add_acks
add_acks-le set [] n = omega arith
add_acks-le set (id ∷ ids) n = ground (
  arith,
  add_acks-le (if includes set id then set else set ++ id ∷ []) ids
      (if includes set id then n else n + 1),
)

all_acked :
    (set : List String) (ids more : List String)
    → ((x : String) → includes more x ≡ true → includes set x ≡ true)
    → all (includes more) ids ≡ true
    → all (includes set) ids ≡ true
all_acked set [] more sub h = refl
all_acked set (id ∷ ids) more sub h = ground (arith, sub id, all_acked set ids more sub)

all-includes : (ids : List String) → all (includes ids) ids ≡ true
all-includes [] = refl
all-includes (id ∷ ids) =
    ground
      (arith, eq_refl id, all_acked (id ∷ ids) ids ids (λ x h. ground arith) (all-includes ids))

add_acks_twice :
    (set ids : List String)
    → (let after = (add_acks set ids 0).0 in add_acks after ids 0 ≡ (after, 0))
add_acks_twice set ids =
    add_acks_again _ ids 0 (
      all_acked _ ids ids (λ x h. ground (arith, includes-add_acks set ids 0 x)) (all-includes ids))

-- The counts of an acknowledgement. The new ids are at most the requested ones, and the total is
-- what the consumer had plus the new ids. The same request a second time reports no new id and the
-- same total.
pub ack_counts :
    (r : RoomState) (consumer : String) (request : Option Json) (ids : List String)
    → parse_ack_ids request ≡ ok ids
    → let (r', reply) = ack_into_room r consumer request in
      (newly : ℕ) × (newly ≤ length ids)
      × (reply ≡ (200, acked newly (length (acked_by r consumer) + newly) (length ids)))
      × ((ack_into_room r' consumer request).1
          ≡ (200, acked 0 (length (acked_by r consumer) + newly) (length ids)))
unfolding ack_into_room
ack_counts r consumer request ids e =
    let now = acked_by r consumer in
    let size = length-add_acks now ids 0 in
    let total : length (add_acks now ids 0).0 ≡ length now + (add_acks now ids 0).1 =
      omega (arith, size) in
    (
      (add_acks now ids 0).1,
      omega (arith, add_acks-le now ids 0),
      rw e (rw total),
      rw (e, acked_by-ack_ids r consumer ids) (rw (add_acks_twice now ids, total)),
    )
