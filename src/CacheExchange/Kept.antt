-- ===== src/CacheExchange/Kept.antt =====
-- The records that a relay keeps (recordCacheExchange and appendCacheExchangeRecord of
-- src/memory_handler.ts).
use bit_relay.Prelude.{
  ℕ, ◌+◌, ◌≤◌, ◌<◌, ◌-◌, List, [], ◌∷◌, ◌++◌, String, arith, length, drop, zero, suc,
}
use bit_relay.Room.{Envelope}
use bit_relay.Room.Log.{trim_log-eq-drop, length-trim_log}
use bit_relay.CacheExchange.{
  CacheExchangeRecord, Exchange, append_cache_exchange_record, record_cache_exchange,
}
use bit_relay.CacheExchange.Select.{Rising}

-- Cursors rise from above `low` and end at or below `high`.
abbrev pub Between : ℕ → ℕ → List CacheExchangeRecord → Type 0
Between low high [] = low ≤ high
Between low high (r ∷ rs) = (low < r.cursor) × Between r.cursor high rs

pub Between-Rising :
    (low high : ℕ) (rs : List CacheExchangeRecord) → Between low high rs → Rising low rs
Between-Rising low high [] h = tt
Between-Rising low high (r ∷ rs) (up, h) = (up, Between-Rising r.cursor high rs h)

Between-lower :
    (low low' high : ℕ) (rs : List CacheExchangeRecord)
    → low ≤ low'
    → Between low' high rs
    → Between low high rs
Between-lower low low' high [] le h = omega arith
Between-lower low low' high (r ∷ rs) le (up, h) = (omega arith, h)

Between-snoc :
    (low high : ℕ) (rs : List CacheExchangeRecord) (r : CacheExchangeRecord)
    → Between low high rs
    → high < r.cursor
    → Between low r.cursor (rs ++ r ∷ [])
Between-snoc low high [] r h lt = (omega arith, omega arith)
Between-snoc low high (x ∷ rs) r (up, h) lt = (up, Between-snoc x.cursor high rs r h lt)

drop-Between :
    (n low high : ℕ) (rs : List CacheExchangeRecord)
    → Between low high rs
    → Between low high (drop n rs)
drop-Between zero low high rs h = h
drop-Between (suc n) low high [] h = h
drop-Between (suc n) low high (r ∷ rs) (up, h) =
    Between-lower low r.cursor high (drop n rs) (omega arith) (drop-Between n r.cursor high rs h)

-- Cursors rise from 1 to at most the relay's cursor, and at most `most` records are kept.
abbrev pub IsExchange : ℕ → Exchange → Type 0
IsExchange most x = Between 0 x.cursor x.records × (length x.records ≤ most)

-- Recording an envelope keeps the cursors rising and the records bounded, whatever they were
-- bounded by before.
pub record-IsExchange :
    (most : ℕ) (x : Exchange) (envelope : Envelope) (origin : String) (hop_count max_hops : ℕ)
    → Between 0 x.cursor x.records
    → IsExchange most (record_cache_exchange most x envelope origin hop_count max_hops)
unfolding record_cache_exchange append_cache_exchange_record
record-IsExchange most x envelope origin hop_count max_hops h =
    let r : CacheExchangeRecord = record {
      cursor = x.cursor + 1;
      envelope = envelope;
      origin = origin;
      hop_count = hop_count;
      max_hops = max_hops;
    } in
    let all = x.records ++ r ∷ [] in
    (
      rw (trim_log-eq-drop most all) (
          drop-Between (length all - most) 0 (x.cursor + 1) all
            (Between-snoc 0 x.cursor x.records r h (omega arith))),
      length-trim_log most all,
    )
