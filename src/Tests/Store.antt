-- ===== src/Tests/Store.antt =====
-- The cache store.
use bit_relay.Prelude.{◌≤◌, ◌≡◌, refl, Bool, true, [], ◌∷◌, none, some, String}
use bit_relay.Map
use bit_relay.Map.{Map}
use bit_relay.Text.{trim}
use bit_relay.CacheStore.{
  CacheStorePutRequest, StoredRecord, Policy, pack, total_bytes, put, prune_expired,
  enforce_max_bytes, evict, record_of, to_storage_key,
}
use bit_relay.CacheStore.Evict.{put-total_bytes}

abbrev request : String → CacheStorePutRequest
request key = record {
  kind = pack;
  key = key;
  body = 1 ∷ 2 ∷ [];
  room = none;
  ref_name = none;
  content_hash = none;
  content_type = none;
  updated_at = none;
}

abbrev three_bytes : Policy
three_bytes = record { ttl_sec = none; max_bytes = some 3 }

abbrev not_after : String → String → Bool
not_after a b = true

abbrev old_store : Map StoredRecord
old_store = ("pack/a", record_of (request "a") "a" 1) ∷ []

abbrev new_store : Map StoredRecord
new_store = ("pack/b", record_of (request "b") "b" 5) ∷ []

-- The older of two records goes.
put_test : put not_after three_bytes old_store (request " b ") 5 ≡ some new_store
unfolding put trim prune_expired enforce_max_bytes evict record_of to_storage_key Map.set Map.get
    Map.has Map.delete
put_test = refl

old_store-Distinct : Map.Distinct old_store
unfolding Map.get
old_store-Distinct = (refl, tt)

put-total_bytes_example : total_bytes new_store ≤ 3
put-total_bytes_example =
    put-total_bytes not_after three_bytes 3 old_store new_store (request " b ") 5 old_store-Distinct
      refl put_test
