-- ===== src/RateLimit/Bounds.antt =====
-- How many requests a rate counter lets through.
use bit_relay.Prelude.{
  ◌-◌, ℕ, ◌+◌, ◌*◌, ◌≤◌, ◌<◌, Option, none, some, if◌then◌else◌, List, [], ◌∷◌, arith, All,
}
use bit_relay.RateLimit.{RateCounter, fallback_rate_limit}

-- The requests of one key that are let through, of a list of arrival times.
pub count_allowed : Option RateCounter → (most window_ms : ℕ) → List ℕ → ℕ
count_allowed entry most window_ms [] = 0
count_allowed entry most window_ms (now ∷ times) =
    let (next, allowed) = fallback_rate_limit entry now most window_ms in
    let rest = count_allowed (some next) most window_ms times in if allowed then rest + 1 else rest

abbrev Within : (from window_ms : ℕ) → List ℕ → Type 0
Within from window_ms = All (λ t. (from ≤ t) × (t < from + window_ms))

abbrev Before : ℕ → List ℕ → Type 0
Before bound = All (λ t. t < bound)

Within-Before :
    (from window_ms start : ℕ) (times : List ℕ)
    → Within from window_ms times
    → from ≤ start
    → Before (start + window_ms) times
Within-Before from window_ms start [] h k = tt
Within-Before from window_ms start (t ∷ times) (p, h) k =
    (omega arith, Within-Before from window_ms start times h k)

-- While the window lasts, the counter never passes the limit.
count_allowed_same_window :
    (c : RateCounter) (most window_ms : ℕ) (times : List ℕ)
    → Before (c.window_start + window_ms) times
    → count_allowed (some c) most window_ms times ≤ most - c.count
unfolding count_allowed fallback_rate_limit
count_allowed_same_window c most window_ms [] h = omega arith
count_allowed_same_window c most window_ms (now ∷ times) (p, h) = ground (
  arith,
  count_allowed_same_window (record { count = c.count + 1; window_start = c.window_start }) most
      window_ms times h,
)

-- After the first reset in the stretch the window covers all that is left of it.
count_allowed-le_spare :
    (c : RateCounter) (most window_ms from : ℕ) (times : List ℕ)
    → Within from window_ms times
    → count_allowed (some c) most window_ms times ≤ (most - c.count) + most
unfolding count_allowed fallback_rate_limit
count_allowed-le_spare c most window_ms from [] h = omega arith
count_allowed-le_spare c most window_ms from (now ∷ times) (p, h) = ground (
  arith,
  count_allowed_same_window (record { count = 1; window_start = now }) most window_ms times
      (Within-Before from window_ms now times h p.0),
  count_allowed-le_spare (record { count = c.count + 1; window_start = c.window_start }) most
      window_ms from times h,
)

-- Whatever the counter held, in any stretch of time no longer than the window at most twice the
-- limit of requests gets through, however many arrive.
pub count_allowed-le :
    (entry : Option RateCounter) (most window_ms from : ℕ) (times : List ℕ)
    → Within from window_ms times
    → count_allowed entry most window_ms times ≤ 2 * most
unfolding count_allowed fallback_rate_limit
count_allowed-le (some c) most window_ms from times h =
    omega (arith, count_allowed-le_spare c most window_ms from times h)
count_allowed-le none most window_ms from [] h = omega arith
count_allowed-le none most window_ms from (now ∷ times) (p, h) = ground (
  arith,
  count_allowed_same_window (record { count = 1; window_start = now }) most window_ms times
      (Within-Before from window_ms now times h p.0),
)

-- From the request that opens a window to the window's end, at most the limit gets through, and the
-- first request at or after the end is let through again.
pub count_allowed-le_window :
    (c : RateCounter) (most window_ms now : ℕ) (times : List ℕ)
    → 0 < most
    → c.window_start + window_ms ≤ now
    → Before (now + window_ms) times
    → (count_allowed (some c) most window_ms (now ∷ times) ≤ most)
      × (0 < count_allowed (some c) most window_ms (now ∷ times))
unfolding count_allowed fallback_rate_limit
count_allowed-le_window c most window_ms now times pos over h =
    let later =
      count_allowed_same_window (record { count = 1; window_start = now }) most window_ms times h in
    (ground (arith, later), ground (arith, later))
