-- ===== src/CacheQueue.antt =====
-- The retries of the cache persistence queue (src/cache_persistence_queue.ts). A task is given by
-- which of its runs succeed; the callbacks and the clock are left out.
pub mod Retry
use bit_relay.Prelude.{
  ℕ, ◌+◌, ◌-◌, ◌*◌, ◌^◌, min, max, zero, suc, Bool, true, false, List, [], ◌∷◌, Option, none, some,
  if◌then◌else◌, leb,
}
use bit_relay.Json.{Number, trunc_at_zero}

unfoldable pub normalize_non_negative_int : Option Number → ℕ → ℕ
normalize_non_negative_int (some (Number.finite negative whole fraction)) fallback =
    trunc_at_zero negative whole
normalize_non_negative_int _ fallback = fallback

unfoldable pub compute_retry_delay_ms : (retry_index base most : ℕ) → ℕ
compute_retry_delay_ms retry_index base most = min most (base * 2 ^ retry_index)

pub record QueueOptions : Type 0 where
  pub max_retries : ℕ
  pub retry_base_delay_ms : ℕ
  pub retry_max_delay_ms : ℕ

unfoldable pub queue_options :
    (max_retries retry_base_delay_ms retry_max_delay_ms : Option Number) → QueueOptions
unfolding normalize_non_negative_int
queue_options retries base most =
    let base_ms = normalize_non_negative_int base 20 in
    record {
      max_retries = normalize_non_negative_int retries 2;
      retry_base_delay_ms = base_ms;
      retry_max_delay_ms = max base_ms (normalize_non_negative_int most 500);
    }

-- CachePersistenceQueueSettledEvent, with the delays before the retries, oldest first.
pub record Settled : Type 0 where
  pub success : Bool
  pub attempts : ℕ
  pub retry_count : ℕ
  pub delays : List ℕ

abbrev after_delay : ℕ → Option Settled → Option Settled
after_delay delay none = none
after_delay delay (some s) = some (record s { delays = delay ∷ s.delays })

abbrev pub settled : Bool → ℕ → Settled
settled success attempt = record {
  success = success;
  attempts = attempt + 1;
  retry_count = attempt;
  delays = [];
}

module _ (options : QueueOptions) (task : ℕ → Bool) where
  -- The loop over the attempts, `none` where the fuel runs out.
  unfoldable pub attempt_from : (fuel attempt : ℕ) → Option Settled
  unfolding compute_retry_delay_ms
  attempt_from zero attempt = none
  attempt_from (suc fuel) attempt =
      let again =
        after_delay
          (compute_retry_delay_ms attempt options.retry_base_delay_ms options.retry_max_delay_ms)
          (attempt_from fuel (attempt + 1)) in
      if task attempt
      then some (settled true attempt)
      else if leb options.max_retries attempt
      then some (settled false attempt)
      else again

  unfoldable pub run_with_retry : Option Settled
  unfolding attempt_from
  run_with_retry = attempt_from (options.max_retries + 1) 0
