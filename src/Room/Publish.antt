-- ===== src/Room/Publish.antt =====
-- publishIntoRoom: what a room holds after any sequence of publishes.
use bit_relay.Prelude.{
  refl, if◌then◌else◌, not, ◌&&◌, subst, drop-nil, any, inr, inl, ℕ, ◌+◌, ◌-◌, ◌≤◌, ◌<◌, ◌≡◌, ap,
  sym, ◌∙◌, true, false, List, [], ◌∷◌, ◌++◌, none, some, String, str_eq, eq_iff, arith, length,
  drop, All, Bool-cases, append_assoc, append-nil,
}
use bit_relay.Json.{Json}
use bit_relay.Room.{
  Envelope, RoomState, PublishResult, published, has_id, trim_log, new_envelope, is_valid_topic,
  publish_into_room,
}
use bit_relay.Room.Log.{
  any-append, DistinctIds, DistinctIds-append, drop-DistinctIds, All-append, drop-All,
  trim_log-eq-drop, length-trim_log, trim_log-append, trim_log-snoc,
}

-- A well-formed room: ids distinct, topics valid, the log within its bound.
pub record IsRoom (most : ℕ) (r : RoomState) : Type 0 where
  pub ids : DistinctIds r.messages
  pub topics : All (λ e. is_valid_topic e.topic ≡ true) r.messages
  pub within : length r.messages ≤ most

-- A call of `publishIntoRoom` on a room.
pub record Publish : Type 0 where
  pub room : String
  pub sender : String
  pub topic : String
  pub id : String
  pub signature : String
  pub payload : Json

abbrev pub publish : ℕ → RoomState → Publish → RoomState × PublishResult
publish most r p = publish_into_room r p.room p.sender p.topic p.id p.signature p.payload most

abbrev pub envelope_of : Publish → Envelope
envelope_of p = new_envelope p.room p.sender p.topic p.id p.signature p.payload

trim_log-IsRoom :
    (most : ℕ) (r : RoomState) (e : Envelope)
    → IsRoom most r
    → is_valid_topic e.topic ≡ true
    → has_id e.id r.messages ≡ false
    → IsRoom most (record r { messages = trim_log most (r.messages ++ e ∷ []) })
trim_log-IsRoom most r e v topic fresh =
    let longer = r.messages ++ e ∷ [] in
    let cut = length longer - most in
    record {
      ids =
          rw (trim_log-eq-drop most longer)
            (drop-DistinctIds cut longer (DistinctIds-append r.messages e v.ids fresh));
      topics =
          rw (trim_log-eq-drop most longer)
            (drop-All _ cut longer (All-append _ r.messages (e ∷ []) v.topics (topic, tt)));
      within = length-trim_log most longer;
    }

-- Whatever is published, a well-formed room stays well formed: ids stay distinct, topics valid, and
-- the log within `most` messages.
pub publish-IsRoom :
    (most : ℕ) (r : RoomState) (p : Publish) → IsRoom most r → IsRoom most (publish most r p).0
unfolding publish_into_room
publish-IsRoom most r p v = elim (Bool-cases (is_valid_topic p.topic)) [
  | inr bad ↦ rw bad v
  | inl good ↦ elim (Bool-cases (has_id p.id r.messages)) [
    | inl old ↦ rw (good, old) v
    | inr new ↦ rw (good, new) (trim_log-IsRoom most r _ v good new)
  ]
]

has_id_last :
    (id : String) (e : Envelope) (es : List Envelope) → e.id ≡ id → has_id id (es ++ e ∷ []) ≡ true
has_id_last id e es h =
    ground (arith, any-append (λ item. str_eq item.id id) es (e ∷ []), eq_iff e.id id)

-- Publishing the same id twice in a row, with any other fields, is refused the second time: the
-- answer is `accepted: false` with status 200, and the room does not change.
pub publish_twice :
    (most : ℕ) (r : RoomState) (p q : Publish)
    → 0 < most
    → is_valid_topic p.topic ≡ true
    → is_valid_topic q.topic ≡ true
    → p.id ≡ q.id
    → (let r' = (publish most r p).0 in
        publish most r' q ≡ (
          r',
          record {
            status = 200;
            body = published false (length r'.messages);
            changed = false;
            envelope = none;
          },
        ))
unfolding publish_into_room
publish_twice most r p q pos good good' same = elim (Bool-cases (has_id p.id r.messages)) [
  | inl old ↦
      let old' : has_id q.id r.messages ≡ true = rw (← same) old in rw (good, good', old, old')
  | inr new ↦
      let kept = trim_log-snoc most r.messages (envelope_of p) pos in
      rw (
        good,
        good',
        new,
        kept,
        has_id_last q.id (envelope_of p) (drop (length r.messages + 1 - most) r.messages) same,
      )
]

-- The accepted envelope of a publish, if any.
abbrev pub accepted_of : PublishResult → List Envelope
accepted_of result = elim result.envelope [ none ↦ [] | some e ↦ e ∷ [] ]

-- The room after a sequence of publishes, and all the envelopes that were accepted on the way.
pub publish_all : ℕ → RoomState → List Publish → RoomState
publish_all most r [] = r
publish_all most r (p ∷ ps) = publish_all most (publish most r p).0 ps

pub accepted_all : ℕ → RoomState → List Publish → List Envelope
accepted_all most r [] = []
accepted_all most r (p ∷ ps) =
    accepted_of (publish most r p).1 ++ accepted_all most (publish most r p).0 ps

-- What a relay promises: it keeps every accepted envelope in its history, and shows the newest.
abbrev pub newest : ℕ → List Envelope → List Envelope
newest most history = drop (length history - most) history

-- The history after a publish, accepted where its topic is valid and none of the newest envelopes
-- has its id; and after a sequence of publishes.
abbrev pub history_with : ℕ → List Envelope → Publish → List Envelope
history_with most history p =
    if is_valid_topic p.topic && not (any (λ e. str_eq e.id p.id) (newest most history))
    then history ++ envelope_of p ∷ []
    else history

abbrev pub history_after : ℕ → List Publish → List Envelope → List Envelope
history_after most [] history = history
history_after most (p ∷ ps) history = history_after most ps (history_with most history p)

publish-history :
    (most : ℕ) (r : RoomState) (history : List Envelope) (p : Publish)
    → r.messages ≡ newest most history
    → ((publish most r p).0.messages ≡ newest most (history_with most history p))
      × (history ++ accepted_of (publish most r p).1 ≡ history_with most history p)
unfolding publish_into_room
publish-history most r history p e = elim (Bool-cases (is_valid_topic p.topic)) [
  | inr bad ↦ rw bad (e, append-nil history)
  | inl good ↦ elim (Bool-cases (has_id p.id r.messages)) [
    | inl old ↦
        let old' : any (λ q. str_eq q.id p.id) (newest most history) ≡ true =
          subst (λ q. has_id p.id q ≡ true) e old in
        rw (good, old, old') (e, append-nil history)
    | inr new ↦
        let new' : any (λ q. str_eq q.id p.id) (newest most history) ≡ false =
          subst (λ q. has_id p.id q ≡ false) e new in
        let trimmed : trim_log most (r.messages ++ envelope_of p ∷ [])
            ≡ newest most (history ++ envelope_of p ∷ []) =
          ap (λ q. trim_log most (q ++ envelope_of p ∷ []))
            (e ∙ sym (trim_log-eq-drop most history))
          ∙ trim_log-append most history (envelope_of p ∷ [])
          ∙ trim_log-eq-drop most (history ++ envelope_of p ∷ []) in
        rw (good, new, new') (trimmed, refl)
  ]
]

publish_all-history :
    (most : ℕ) (ps : List Publish) (r : RoomState) (history : List Envelope)
    → r.messages ≡ newest most history
    → ((publish_all most r ps).messages ≡ newest most (history_after most ps history))
      × (history ++ accepted_all most r ps ≡ history_after most ps history)
unfolding publish_all accepted_all
publish_all-history most [] r history e = (e, append-nil history)
publish_all-history most (p ∷ ps) r history e =
    let r' = (publish most r p).0 in
    let (shown, told) = publish-history most r history p e in
    let (shown', told') = publish_all-history most ps r' (history_with most history p) shown in
    (
      shown',
      sym (append_assoc history (accepted_of (publish most r p).1) (accepted_all most r' ps))
          ∙ ap (λ q. q ++ accepted_all most r' ps) told
          ∙ told',
    )

-- From an empty room, after any sequence of publishes: the log holds exactly the last `most`
-- envelopes of the history, oldest first, and the replies accepted exactly the history. The history
-- takes an envelope where its topic is valid and none of the last `most` before it has its id.
pub publish_all-keeps_newest :
    (most : ℕ) (r : RoomState) (ps : List Publish)
    → r.messages ≡ []
    → ((publish_all most r ps).messages ≡ newest most (history_after most ps []))
      × (accepted_all most r ps ≡ history_after most ps [])
publish_all-keeps_newest most r ps e =
    publish_all-history most ps r [] (e ∙ sym (drop-nil (0 - most)))

pub publish_all-IsRoom :
    (most : ℕ) (r : RoomState) (ps : List Publish)
    → IsRoom most r
    → IsRoom most (publish_all most r ps)
unfolding publish_all
publish_all-IsRoom most r [] v = v
publish_all-IsRoom most r (p ∷ ps) v =
    publish_all-IsRoom most (publish most r p).0 ps (publish-IsRoom most r p v)
