-- ===== src/Review/Votes.antt =====
-- What reviews count (computeReviewStatus and POST /api/v1/review of src/memory_handler.ts).
use bit_relay.Prelude.{
  ◌∙◌, ap, sym, refl, ◌⊎◌, inl, inr, Option, none, Option-cases, ℕ, ◌+◌, ◌≤◌, ◌<◌, ◌≡◌, ◌≢◌, ◌↔◌,
  Bool, true, [], ◌∷◌, some, String, arith, length,
}
use bit_relay.Map
use bit_relay.Map.{Map}
use bit_relay.Room.{ReviewVerdict, approve, deny, ReviewRecord, RoomState}
use bit_relay.Review.{
  or_no_reviews, count_reviews, compute_review_status, reviews_of, review_by, submit_review,
}

verdict_cases : (v : ReviewVerdict) → (v ≡ approve) ⊎ (v ≡ deny)
verdict_cases approve = inl refl
verdict_cases deny = inr refl

-- How many of the reviews have a verdict.
abbrev counts_for : (verdict other : ReviewVerdict) → ℕ
counts_for approve approve = 1
counts_for approve deny = 0
counts_for deny approve = 0
counts_for deny deny = 1

abbrev pub votes : ReviewVerdict → Map ReviewRecord → ℕ
votes verdict [] = 0
votes verdict ((sender, review) ∷ m) = counts_for verdict review.verdict + votes verdict m

-- When a sender's review of a request was first submitted.
abbrev pub first_submission : Option ReviewRecord → (now : ℕ) → ℕ
first_submission none now = now
first_submission (some earlier) now = earlier.submitted_at

count_reviews-votes :
    (m : Map ReviewRecord) (a d : ℕ)
    → ((count_reviews m a d).0 ≡ a + votes approve m) × ((count_reviews m a d).1 ≡ d + votes deny m)
unfolding count_reviews
count_reviews-votes [] a d = omega arith
count_reviews-votes ((sender, review) ∷ m) a d = elim (verdict_cases review.verdict) [
  | inl e ↦
      let (approvals, denials) = count_reviews-votes m (a + 1) d in
      rw (e, count_reviews) (omega (arith, approvals), omega (arith, denials))
  | inr e ↦
      let (approvals, denials) = count_reviews-votes m a (d + 1) in
      rw (e, count_reviews) (omega (arith, approvals), omega (arith, denials))
]

votes-length : (m : Map ReviewRecord) → votes approve m + votes deny m ≡ length m
votes-length [] = omega arith
votes-length ((sender, review) ∷ m) = elim (verdict_cases review.verdict) [
  | inl e ↦ rw e (omega (arith, votes-length m))
  | inr e ↦ rw e (omega (arith, votes-length m))
]

stored_time-first :
    (reviews : Map ReviewRecord) (sender : String) (verdict : ReviewVerdict) (now : ℕ)
    → review_by reviews sender verdict now ≡ record {
      sender = sender;
      verdict = verdict;
      submitted_at = first_submission (Map.get sender reviews) now;
      updated_at = now;
    }
stored_time-first reviews sender verdict now = elim (Option-cases (Map.get sender reviews)) [
  | inl e ↦ rw e refl
  | inr (earlier, e) ↦ rw e refl
]

-- A submitted review is the sender's only one, with its verdict, the time of the first kept and now
-- as the last; it is new just where the sender had none. The reviews of another sender and of another
-- request stay. The counts are of the reviews with each verdict, one for each sender, and the
-- request is resolved just where there is a review and denials do not outnumber approvals.
pub submit_review-counts :
    (throws : String → Bool) (r : RoomState) (sender pr_id : String) (verdict : ReviewVerdict)
    (now : ℕ) (other pr : String)
    → sender ≢ other
    → pr_id ≢ pr
    → let (r', (is_new, status)) = submit_review throws r sender pr_id verdict now in
      (Map.get sender (reviews_of r' pr_id)
        ≡ some (record {
          sender = sender;
          verdict = verdict;
          submitted_at = first_submission (Map.get sender (reviews_of r pr_id)) now;
          updated_at = now;
        }))
      × ((is_new ≡ true) ↔ (Map.get sender (reviews_of r pr_id) ≡ none))
      × (Map.get other (reviews_of r' pr_id) ≡ Map.get other (reviews_of r pr_id))
      × (reviews_of r' pr ≡ reviews_of r pr)
      × (status.approve_count ≡ votes approve (reviews_of r' pr_id))
      × (status.deny_count ≡ votes deny (reviews_of r' pr_id))
      × (status.approve_count + status.deny_count ≡ length (reviews_of r' pr_id))
      × ((status.resolved ≡ true) ↔ (
          (0 < length (reviews_of r' pr_id))
          × (votes deny (reviews_of r' pr_id) ≤ votes approve (reviews_of r' pr_id))))
unfolding submit_review compute_review_status Map.has
submit_review-counts throws r sender pr_id verdict now other pr ne ne' =
    let reviews = reviews_of r pr_id in
    let review = review_by reviews sender verdict now in
    let reviews' = Map.set sender review reviews in
    let here : or_no_reviews (Map.get pr_id (Map.set pr_id reviews' r.reviews_by_pr)) ≡ reviews' =
      ap or_no_reviews (Map.get-set_self pr_id reviews' r.reviews_by_pr) in
    let (approvals, denials) = count_reviews-votes reviews' 0 0 in
    let approved : (count_reviews reviews' 0 0).0 ≡ votes approve reviews' =
      omega (arith, approvals) in
    let denied : (count_reviews reviews' 0 0).1 ≡ votes deny reviews' = omega (arith, denials) in
    let all = votes-length reviews' in
    (
      ap (Map.get sender) here
          ∙ Map.get-set_self sender review reviews
          ∙ ap some (stored_time-first reviews sender verdict now),
      ground arith,
      ap (Map.get other) here ∙ Map.get-set_ne sender other review reviews ne,
      ap or_no_reviews (Map.get-set_ne pr_id pr reviews' r.reviews_by_pr ne'),
      approved ∙ ap (votes approve) (sym here),
      denied ∙ ap (votes deny) (sym here),
      omega (arith, approvals, denials, all, ap length here),
      rw here (ground (arith, approvals, denials, all)),
    )
