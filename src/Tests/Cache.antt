-- ===== src/Tests/Cache.antt =====
-- The cache exchange, its worker and the retries of its writes.
use bit_relay.Prelude.{
  keep, ℕ, ◌≤◌, ◌<◌, max, ◌≡◌, ◌↔◌, ◌⊎◌, refl, true, List, [], ◌∷◌, none, some, String, arith,
  length, All, leb,
}
use bit_relay.Text.{chars}
use bit_relay.Json.{Number, null}
use bit_relay.Signing.{canonicalize_json}
use bit_relay.Room.{Envelope}
use bit_relay.CacheExchange.{
  CacheExchangeRecord, SelectArgs, CacheExchangeCollision, select_cache_exchange_entries,
  classify_cache_exchange_collision, signature_text,
}
use bit_relay.CacheExchange.Select.{due}
use bit_relay.CacheExchange.Pull.{pull_all, pull_all-due}
use bit_relay.CacheExchange.Allowed.{Allowed, select-Allowed}
use bit_relay.CacheExchange.Classify.{IsPlain, all-OneLine, classify-duplicate_iff}
use bit_relay.CacheSync.{cursor_for, sync_once, create_cache_sync_worker}
use bit_relay.CacheSync.Cycle.{Accounts, sync_once-cycle}
use bit_relay.CacheQueue.{QueueOptions, Settled, run_with_retry}
use bit_relay.CacheQueue.Retry.{SettledAt, run_with_retry-SettledAt}

abbrev envelope : String → Envelope
envelope id = record {
  room = "main";
  id = id;
  sender = "ann";
  topic = "notify";
  payload = null;
  signature = none;
}

abbrev kept : ℕ → String → String → ℕ → CacheExchangeRecord
kept cursor id origin hop_count = record {
  cursor = cursor;
  envelope = envelope id;
  origin = origin;
  hop_count = hop_count;
  max_hops = 3;
}

abbrev three_records : List CacheExchangeRecord
three_records = kept 1 "a" "east" 0 ∷ kept 2 "b" "west" 1 ∷ kept 3 "c" "east" 3 ∷ []

-- The west asks.
abbrev from_west : SelectArgs
from_west = record { after = 0; limit = 1; peer = some "west"; room = none }

select_test : (select_cache_exchange_entries three_records from_west).1 ≡ 1
unfolding select_cache_exchange_entries
select_test = refl

due_few : length (due from_west 0 three_records) < 9
unfolding keep
due_few = omega arith

pull_all-due_example : pull_all 9 three_records from_west ≡ due from_west 0 three_records
pull_all-due_example =
    pull_all-due 9 three_records from_west 0 (omega arith, (omega arith, (omega arith, tt))) due_few

select-Allowed_example :
    All (Allowed from_west 0) (select_cache_exchange_entries three_records from_west).0
    × (length (select_cache_exchange_entries three_records from_west).0 ≤ max 1 1)
select-Allowed_example =
    select-Allowed from_west 0 three_records (omega arith, (omega arith, (omega arith, tt)))

abbrev number_text : Number → List ℕ
number_text n = b'0' ∷ []

plain : IsPlain number_text (envelope "a")
unfolding chars canonicalize_json
plain = (
  all-OneLine (chars "ann") refl,
  all-OneLine (chars "notify") refl,
  all-OneLine (canonicalize_json number_text null) refl,
)

classify-duplicate_iff_example :
    (classify_cache_exchange_collision number_text (envelope "a") (envelope "b")
      ≡ CacheExchangeCollision.duplicate)
    ↔ ((chars "ann" ≡ chars "ann")
        × (chars "notify" ≡ chars "notify")
        × (canonicalize_json number_text null ≡ canonicalize_json number_text null)
        × (signature_text none ≡ signature_text none))
classify-duplicate_iff_example =
    classify-duplicate_iff number_text (envelope "a") (envelope "b") plain plain

sync_once-cycle_example :
    let w = create_cache_sync_worker ("east" ∷ "west" ∷ []) in
    let once = sync_once (λ peer after. none) (λ peer entries. true) w ("east" ∷ "west" ∷ []) in
    ((w.in_flight ≡ true) ⊎ Accounts 2 once.1)
    × (cursor_for w.cursors "east" ≤ cursor_for once.0.cursors "east")
sync_once-cycle_example =
    sync_once-cycle (λ peer after. none) (λ peer entries. true)
      (create_cache_sync_worker ("east" ∷ "west" ∷ [])) ("east" ∷ "west" ∷ []) "east"

abbrev two_retries : QueueOptions
two_retries = record { max_retries = 2; retry_base_delay_ms = 20; retry_max_delay_ms = 500 }

run_with_retry-SettledAt_example :
    (s : Settled) × (run_with_retry two_retries (λ attempt. leb 1 attempt) ≡ some s)
    × SettledAt two_retries (λ attempt. leb 1 attempt) 0 s
run_with_retry-SettledAt_example = run_with_retry-SettledAt two_retries (λ attempt. leb 1 attempt)
