-- ===== src/RateLimit.antt =====
-- fallbackRateLimit (src/memory_handler.ts): a fixed-window counter for an address, a sender or a
-- room. Times are milliseconds.
pub mod Bounds
use bit_relay.Prelude.{
  ℕ, ◌+◌, Bool, true, false, Option, none, some, if◌then◌else◌, leb, List, [], ◌∷◌,
}

pub record RateCounter : Type 0 where
  pub count : ℕ
  pub window_start : ℕ

-- `!entry || now - entry.windowStart >= windowMs`
abbrev should_reset : Option RateCounter → (now window_ms : ℕ) → Bool
should_reset none now window_ms = true
should_reset (some entry) now window_ms = leb (entry.window_start + window_ms) now

abbrev next_counter : Option RateCounter → (now window_ms : ℕ) → RateCounter
next_counter none now window_ms = record { count = 1; window_start = now }
next_counter (some entry) now window_ms =
    if should_reset (some entry) now window_ms
    then record { count = 1; window_start = now }
    else record { count = entry.count + 1; window_start = entry.window_start }

unfoldable pub fallback_rate_limit :
    Option RateCounter → (now most window_ms : ℕ) → RateCounter × Bool
fallback_rate_limit entry now most window_ms =
    let next = next_counter entry now window_ms in (next, leb next.count most)
