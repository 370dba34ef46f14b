-- ===== src/Relay/Restore/Reviews.antt =====
-- The restoring of a room's reviews (src/memory_handler.ts): the list of all reviews, request by
-- request, gives back the reviews of each request.
use bit_relay.Prelude.{
  ◌≡◌, ◌≢◌, refl, ap, sym, ◌∙◌, subst, true, false, List, [], ◌∷◌, ◌++◌, map, none, some, String,
  arith, All, append-nil, append_assoc, eq_refl,
}
use bit_relay.Map
use bit_relay.Map.{Map}
use bit_relay.Map.Keys.{set_new}
use bit_relay.Text.{trim, is_empty}
use bit_relay.Json.{Json, prop, items}
use bit_relay.Room.{ReviewRecord, ReviewVerdict, approve, deny}
use bit_relay.IssueSync.RoundTrip.{IsName, append-absent}
use bit_relay.Relay.Rooms.{is_valid_pr_id, verdict_of}
use bit_relay.Relay.Snapshot.{to_items, values, verdict_text, json_of_review, review_rows}
use bit_relay.Relay.StoredRooms.{put_review, restore_review, restore_reviews, with_verdict, or_new}

-- A reviewer stands under their own name.
abbrev pub IsStoredReview : String × ReviewRecord → Type 0
IsStoredReview (sender, r) = (r.sender ≡ sender) × IsName r.sender

pub record IsStoredRequest (entry : String × Map ReviewRecord) : Type 0 where
  pub pr_id : IsName entry.0
  pub valid : is_valid_pr_id entry.0 ≡ true
  pub reviewed : entry.1 ≢ []
  pub senders : Map.Distinct entry.1
  pub reviews : All IsStoredReview entry.1

verdict-text : (v : ReviewVerdict) → verdict_of (verdict_text v) ≡ some v
verdict-text approve = refl
verdict-text deny = refl

review-Reads :
    (pr_id : String) (r : ReviewRecord)
    → IsName pr_id
    → is_valid_pr_id pr_id ≡ true
    → IsName r.sender
    → restore_review (json_of_review (pr_id, r)) ≡ some (pr_id, r)
unfolding restore_review with_verdict json_of_review prop Map.get
review-Reads pr_id r pr valid sender =
    let there : is_empty (trim r.sender) ≡ false = rw (sender.0) sender.1 in
    let asked : is_empty (trim pr_id) ≡ false = rw (pr.0) pr.1 in
    rw (there, asked, pr.0, valid, sender.0, verdict-text r.verdict) refl

module _ {ℓ} {V : Type ℓ} where
  -- Setting the last key changes its value in place.
  set_last :
      (k : String) (v w : V) (acc : Map V)
      → Map.get k acc ≡ none
      → Map.set k v (acc ++ (k, w) ∷ []) ≡ acc ++ (k, v) ∷ []
  unfolding Map.get Map.set
  set_last k v w [] h = ground (arith, eq_refl k)
  set_last k v w ((j, u) ∷ acc) h = ground (arith, set_last k v w acc)

  get_last :
      (k : String) (v : V) (acc : Map V)
      → Map.get k acc ≡ none
      → Map.get k (acc ++ (k, v) ∷ []) ≡ some v
  unfolding Map.get
  get_last k v [] h = ground (arith, eq_refl k)
  get_last k v ((j, u) ∷ acc) h = ground (arith, get_last k v acc)

restore-more :
    (pr_id : String) (r : ReviewRecord) (more : List Json) (m : Map (Map ReviewRecord))
    → IsName pr_id
    → is_valid_pr_id pr_id ≡ true
    → IsName r.sender
    → restore_reviews (json_of_review (pr_id, r) ∷ more) m
      ≡ restore_reviews more (put_review pr_id r m)
unfolding restore_reviews
restore-more pr_id r more m pr valid sender =
    rw (review-Reads pr_id r pr valid sender, restore_reviews) refl

abbrev pub rows : String → Map ReviewRecord → List (String × ReviewRecord)
rows pr_id senders = map (λ r. (pr_id, r)) (values senders)

abbrev pub read : List (String × ReviewRecord) → Map (Map ReviewRecord) → Map (Map ReviewRecord)
unfolding restore_reviews
read rs m = restore_reviews (items (to_items json_of_review rs)) m

filed :
    (sender : String) (r : ReviewRecord) (part : Map ReviewRecord)
    → r.sender ≡ sender
    → Map.get sender part ≡ none
    → Map.set r.sender r part ≡ part ++ (sender, r) ∷ []
filed sender r part own new = ap (λ s. Map.set s r part) own ∙ set_new sender r part new

module _ (pr_id : String) (acc : Map (Map ReviewRecord)) where
  -- The reviews of a request whose first ones are read already.
  restore-rest :
      (senders part : Map ReviewRecord) (more : List (String × ReviewRecord))
      → IsName pr_id
      → is_valid_pr_id pr_id ≡ true
      → Map.get pr_id acc ≡ none
      → All IsStoredReview senders
      → Map.Distinct (part ++ senders)
      → read (rows pr_id senders ++ more) (acc ++ (pr_id, part) ∷ [])
        ≡ read more (acc ++ (pr_id, part ++ senders) ∷ [])
  unfolding read put_review
  restore-rest [] part more pr valid new h d =
      ap (λ q. read more (acc ++ (pr_id, q) ∷ [])) (sym (append-nil part))
  restore-rest ((sender, r) ∷ senders) part more pr valid new ((own, named), h) d =
      let shifted = append_assoc part ((sender, r) ∷ []) senders in
      let put : put_review pr_id r (acc ++ (pr_id, part) ∷ [])
          ≡ acc ++ (pr_id, part ++ (sender, r) ∷ []) ∷ [] =
        ap (λ q. Map.set pr_id (Map.set r.sender r (or_new q)) (acc ++ (pr_id, part) ∷ []))
          (get_last pr_id part acc new)
        ∙ ap (λ q. Map.set pr_id q (acc ++ (pr_id, part) ∷ []))
            (filed sender r part own (append-absent sender r part senders d))
        ∙ set_last pr_id (part ++ (sender, r) ∷ []) part acc new in
      restore-more pr_id r (items (to_items json_of_review (rows pr_id senders ++ more)))
        (acc ++ (pr_id, part) ∷ []) pr valid named
      ∙ ap (λ q. read (rows pr_id senders ++ more) q) put
      ∙ restore-rest senders (part ++ (sender, r) ∷ []) more pr valid new h
          (subst Map.Distinct (sym shifted) d)
      ∙ ap (λ q. read more (acc ++ (pr_id, q) ∷ [])) shifted

  restore-request :
      (senders : Map ReviewRecord) (more : List (String × ReviewRecord))
      → Map.get pr_id acc ≡ none
      → IsStoredRequest (pr_id, senders)
      → read (rows pr_id senders ++ more) acc ≡ read more (acc ++ (pr_id, senders) ∷ [])
  unfolding read put_review Map.set
  restore-request [] more new h = absurd (h.reviewed refl)
  restore-request ((sender, r) ∷ senders) more new h =
      let (own, named) = h.reviews.0 in
      let put : put_review pr_id r acc ≡ acc ++ (pr_id, (sender, r) ∷ []) ∷ [] =
        ap (λ q. Map.set pr_id (Map.set r.sender r (or_new q)) acc) new
        ∙ ap (λ q. Map.set pr_id q acc) (filed sender r [] own refl)
        ∙ set_new pr_id ((sender, r) ∷ []) acc new in
      restore-more pr_id r (items (to_items json_of_review (rows pr_id senders ++ more))) acc
        h.pr_id h.valid named
      ∙ ap (λ q. read (rows pr_id senders ++ more) q) put
      ∙ restore-rest senders ((sender, r) ∷ []) more h.pr_id h.valid new h.reviews.1 h.senders

pub reviews-Reads :
    (m acc : Map (Map ReviewRecord))
    → All IsStoredRequest m
    → Map.Distinct (acc ++ m)
    → read (review_rows m) acc ≡ acc ++ m
unfolding read restore_reviews
reviews-Reads [] acc h d = sym (append-nil acc)
reviews-Reads ((pr_id, senders) ∷ m) acc (here, h) d =
    let shifted = append_assoc acc ((pr_id, senders) ∷ []) m in
    restore-request pr_id acc senders (review_rows m) (append-absent pr_id senders acc m d) here
    ∙ reviews-Reads m (acc ++ (pr_id, senders) ∷ []) h (subst Map.Distinct (sym shifted) d)
    ∙ shifted
