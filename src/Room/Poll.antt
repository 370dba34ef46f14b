-- ===== src/Room/Poll.antt =====
-- pollFromRoom: pages of the log by position.
use bit_relay.Prelude.{
  take-nil, ℕ, zero, suc, ◌+◌, ◌-◌, ◌≤◌, ◌<◌, ◌≡◌, refl, ap, sym, ◌∙◌, List, [], ◌∷◌, ◌++◌, map,
  arith, length, take, drop, length-drop, drop_of_length-le, drop-drop,
}
use bit_relay.Room.{Envelope, RoomState, SanitizedEnvelope, sanitize_envelope, poll_from_room}
use bit_relay.Room.Publish.{IsRoom, Publish, publish_all, publish_all-IsRoom}

module _ {ℓ κ} {A : Type ℓ} {B : Type κ} (f : A → B) where
  drop-length-take : (n : ℕ) (xs : List A) → drop (length (map f (take n xs))) xs ≡ drop n xs
  drop-length-take zero xs = refl
  drop-length-take (suc n) [] = refl
  drop-length-take (suc n) (x ∷ xs) = drop-length-take n xs

  map-take-drop : (n : ℕ) (xs : List A) → map f (take n xs) ++ map f (drop n xs) ≡ map f xs
  map-take-drop zero xs = refl
  map-take-drop (suc n) [] = refl
  map-take-drop (suc n) (x ∷ xs) = ap (◌∷◌ (f x)) (map-take-drop n xs)

-- A page past the end of the log is empty and leaves the cursor.
poll_past_end :
    (r : RoomState) (after limit : ℕ)
    → length r.messages ≤ after
    → poll_from_room r after limit ≡ record { next_cursor = after; envelopes = [] }
unfolding poll_from_room
poll_past_end r after limit h =
    let gone = drop_of_length-le after r.messages h in
    rw (gone, take-nil (after + limit - after))
      (ap (λ n. record { next_cursor = n; envelopes = [] }) (omega arith))

-- A cursor is a position in a log that drops its oldest messages. So a client whose cursor has
-- reached the room's bound gets an empty page and the same cursor at every later poll, whatever is
-- published in between.
pub poll_stuck_at_bound :
    (most : ℕ) (r : RoomState) (ps : List Publish) (after limit : ℕ)
    → IsRoom most r
    → most ≤ after
    → poll_from_room (publish_all most r ps) after limit
      ≡ record { next_cursor = after; envelopes = [] }
poll_stuck_at_bound most r ps after limit v h =
    let later = publish_all-IsRoom most r ps v in
    poll_past_end (publish_all most r ps) after limit (omega (arith, later.within))

-- A page that holds nothing ends the polling.
abbrev join_page : List SanitizedEnvelope → List SanitizedEnvelope → List SanitizedEnvelope
join_page [] later = []
join_page (e ∷ es) later = (e ∷ es) ++ later

-- A client that polls from a cursor until a page is empty, and joins the pages.
pub poll_loop : ℕ → RoomState → ℕ → ℕ → List SanitizedEnvelope
poll_loop zero r after limit = []
poll_loop (suc fuel) r after limit =
    let page = poll_from_room r after limit in
    let later = poll_loop fuel r page.next_cursor limit in join_page page.envelopes later

poll_page :
    (r : RoomState) (after limit : ℕ) (rest : List Envelope)
    → drop after r.messages ≡ rest
    → poll_from_room r after limit ≡ record {
      next_cursor = after + length (map sanitize_envelope (take limit rest));
      envelopes = map sanitize_envelope (take limit rest);
    }
unfolding poll_from_room
poll_page r after limit rest e =
    let size : after + limit - after ≡ limit = omega arith in rw (e, size)

poll_loop-collects :
    (fuel : ℕ) (r : RoomState) (after limit : ℕ) (rest : List Envelope)
    → drop after r.messages ≡ rest
    → length rest < fuel
    → poll_loop fuel r after (suc limit) ≡ map sanitize_envelope rest
unfolding poll_loop
poll_loop-collects zero r after limit rest e h = absurd (omega arith)
poll_loop-collects (suc fuel) r after limit [] e h = rw (poll_page r after (suc limit) [] e)
poll_loop-collects (suc fuel) r after limit (x ∷ rest) e h =
    let page = map sanitize_envelope (take limit rest) in
    let next = after + suc (length page) in
    let left : drop next r.messages ≡ drop limit rest =
      sym (drop-drop after (suc (length page)) next r.messages refl)
      ∙ ap (drop (suc (length page))) e
      ∙ drop-length-take sanitize_envelope limit rest in
    let later =
      poll_loop-collects fuel r next limit (drop limit rest) left
        (omega (arith, length-drop limit rest)) in
    rw (poll_page r after (suc limit) (x ∷ rest) e, later)
      (ap (◌∷◌ (sanitize_envelope x)) (map-take-drop sanitize_envelope limit rest))

-- As long as nothing is published, polling until a page is empty reads every message from the
-- cursor on, each once and in order, whatever the page size; the client needs at most one poll more
-- than there are messages.
pub poll_loop-reads_all :
    (r : RoomState) (after limit fuel : ℕ)
    → 0 < limit
    → length r.messages < fuel
    → poll_loop fuel r after limit ≡ map sanitize_envelope (drop after r.messages)
poll_loop-reads_all r after zero fuel pos h = absurd (omega arith)
poll_loop-reads_all r after (suc limit) fuel pos h =
    poll_loop-collects fuel r after limit (drop after r.messages) refl
      (omega (arith, length-drop after r.messages))
