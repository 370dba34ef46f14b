-- ===== src/CacheQueue/Retry.antt =====
-- A task is tried until it succeeds, at most one time more than its retries
-- (src/cache_persistence_queue.ts).
use bit_relay.Prelude.{
  ℕ, ◌+◌, ◌≤◌, ◌<◌, ◌≡◌, max, zero, suc, refl, Bool, true, false, ◌∷◌, some, ◌⊎◌, leb, arith,
  length, All, Bool-cases, inl, inr,
}
use bit_relay.CacheQueue.{
  QueueOptions, Settled, compute_retry_delay_ms, attempt_from, run_with_retry, settled,
}

module _ (o : QueueOptions) (task : ℕ → Bool) where
  -- All attempts from one on, before another, fail.
  abbrev pub FailsBetween : ℕ → ℕ → Type 0
  FailsBetween from zero = Unit
  FailsBetween from (suc n) = (task from ≡ false) × FailsBetween (from + 1) n

  -- The attempts end at the first success, or at the last that is allowed; each retry waits once,
  -- no longer than the longest delay.
  abbrev pub SettledAt : ℕ → Settled → Type 0
  SettledAt attempt s =
      (last : ℕ) × (s.attempts ≡ last + 1)
      × (s.retry_count ≡ last)
      × (attempt + length s.delays ≡ last)
      × All (λ ms. ms ≤ o.retry_max_delay_ms) s.delays
      × FailsBetween attempt (length s.delays)
      × (task last ≡ s.success)
      × (last ≤ max o.max_retries attempt)
      × ((s.success ≡ true) ⊎ (o.max_retries ≤ last))

  delay-le :
      (attempt : ℕ)
      → compute_retry_delay_ms attempt o.retry_base_delay_ms o.retry_max_delay_ms
        ≤ o.retry_max_delay_ms
  unfolding compute_retry_delay_ms
  delay-le attempt = omega arith

  attempt_from-SettledAt :
      (fuel attempt : ℕ)
      → o.max_retries < attempt + fuel
      → 0 < fuel
      → (s : Settled) × (attempt_from o task fuel attempt ≡ some s) × SettledAt attempt s
  unfolding attempt_from
  attempt_from-SettledAt zero attempt lt more = absurd (omega arith)
  attempt_from-SettledAt (suc fuel) attempt lt more = elim (Bool-cases (task attempt)) [
    | inl ok ↦
        let here : attempt_from o task (suc fuel) attempt ≡ some (settled true attempt) =
          rw (ok, attempt_from) in
        (
          settled true attempt,
          here,
          (attempt, refl, refl, omega arith, tt, tt, ok, omega arith, inl refl),
        )
    | inr failed ↦ elim (Bool-cases (leb o.max_retries attempt)) [
      | inl last ↦
          let here : attempt_from o task (suc fuel) attempt ≡ some (settled false attempt) =
            rw (failed, last, attempt_from) in
          (
            settled false attempt,
            here,
            (attempt, refl, refl, omega arith, tt, tt, failed, omega arith, inr (ground arith)),
          )
      | inr again ↦
          let (s, found, (last, count, retries, delays, short, failures, ends, most, why)) =
            attempt_from-SettledAt fuel (attempt + 1) (omega arith) (ground arith) in
          let delay = compute_retry_delay_ms attempt o.retry_base_delay_ms o.retry_max_delay_ms in
          let later : attempt_from o task (suc fuel) attempt
              ≡ some (record s { delays = delay ∷ s.delays }) =
            rw (failed, again, attempt_from, found) in
          (
            record s { delays = delay ∷ s.delays },
            later,
            (
              last,
              count,
              retries,
              omega arith,
              (delay-le attempt, short),
              (failed, failures),
              ends,
              ground arith,
              why,
            ),
          )
    ]
  ]

  -- A task is run until it succeeds, at most `max_retries` times again, and always settles: with
  -- success where the last run succeeded, and with failure only after all retries; every run
  -- before the last failed, and each was followed by a wait no longer than the longest delay.
  pub run_with_retry-SettledAt : (s : Settled) × (run_with_retry o task ≡ some s) × SettledAt 0 s
  unfolding run_with_retry
  run_with_retry-SettledAt =
      attempt_from-SettledAt (o.max_retries + 1) 0 (omega arith) (omega arith)
