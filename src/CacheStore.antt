-- ===== src/CacheStore.antt =====
-- The cache store in memory (createMemoryCacheStore of src/cache_store.ts). `String.localeCompare`,
-- a table of the platform's, is a parameter: whether one text is not after another.
pub mod Evict
use Prim.Native.String.{◌++◌ as text_append}
use bit_relay.Prelude.{
  ℕ, ◌+◌, ◌-◌, ◌≤◌, max, Bool, true, false, not, ◌&&◌, ◌||◌, List, [], ◌∷◌, ◌++◌, map, zero, suc,
  Option, none, some, String, str_eq, if◌then◌else◌, ltb, leb, ◌==◌, length, keep, slice,
}
use bit_relay.Map
use bit_relay.Map.{Map}
use bit_relay.Text.{trim, is_empty, chars}
use bit_relay.Json.{Number, trunc_at_zero}
use bit_relay.GitRefs.{strip_prefix}

pub data CacheStoreKind : Type 0 where
  object pack ref issue : CacheStoreKind

abbrev pub kind_text : CacheStoreKind → String
kind_text object = "object"
kind_text pack = "pack"
kind_text ref = "ref"
kind_text issue = "issue"

pub record CacheStorePutRequest : Type 0 where
  pub kind : CacheStoreKind
  pub key : String
  pub body : List ℕ
  pub room : Option String
  pub ref_name : Option String
  pub content_hash : Option String
  pub content_type : Option String
  pub updated_at : Option Number

pub record CacheStoreMetadata : Type 0 where
  pub kind : CacheStoreKind
  pub key : String
  pub size : ℕ
  pub updated_at : ℕ
  pub room : Option String
  pub ref_name : Option String
  pub content_hash : Option String
  pub content_type : Option String

pub record StoredRecord : Type 0 where
  pub body : List ℕ
  pub metadata : CacheStoreMetadata

pub record Policy : Type 0 where
  pub ttl_sec : Option ℕ
  pub max_bytes : Option ℕ

-- normalizeOptionalPositive: the whole part of a finite number above 0.
unfoldable pub normalize_optional_positive : Option Number → Option ℕ
normalize_optional_positive (some (Number.finite false zero zero)) = none
normalize_optional_positive (some (Number.finite false whole fraction)) = some whole
normalize_optional_positive _ = none

-- `nowSec - updatedAt >= ttlSec`
abbrev pub is_expired : Option ℕ → ℕ → StoredRecord → Bool
is_expired none now r = false
is_expired (some ttl) now r = leb (r.metadata.updated_at + ttl) now

unfoldable pub prune_expired : Option ℕ → ℕ → Map StoredRecord → Map StoredRecord
unfolding keep
prune_expired ttl now m = keep (λ e. not (is_expired ttl now e.1)) m

pub record EvictionCandidate : Type 0 where
  pub storage_key : String
  pub updated_at : ℕ
  pub size : ℕ

abbrev pub candidates : Map StoredRecord → List EvictionCandidate
candidates [] = []
candidates ((k, r) ∷ m) =
    record { storage_key = k; updated_at = r.metadata.updated_at; size = r.metadata.size }
    ∷ candidates m

abbrev pub total_bytes : Map StoredRecord → ℕ
total_bytes [] = 0
total_bytes ((k, r) ∷ m) = r.metadata.size + total_bytes m

-- The loop over the sorted candidates.
unfoldable pub evict : ℕ → List EvictionCandidate → ℕ → Map StoredRecord → Map StoredRecord
unfolding Map.has Map.delete
evict most [] total m = m
evict most (c ∷ cs) total m =
    let absent = evict most cs total m in
    let gone = evict most cs (total - c.size) (Map.delete c.storage_key m) in
    if leb total most then m else if not (Map.has c.storage_key m) then absent else gone

-- `request.room ? { room: request.room } : {}`
abbrev pub if_given : Option String → Option String
if_given none = none
if_given (some s) = if is_empty s then none else some s

abbrev pub or_now : Option Number → ℕ → ℕ
or_now (some (Number.finite negative whole fraction)) now = trunc_at_zero negative whole
or_now _ now = now

unfoldable pub to_storage_key : CacheStoreKind → String → String
to_storage_key kind key = text_append (text_append (kind_text kind) "/") key

unfoldable pub record_of : CacheStorePutRequest → String → ℕ → StoredRecord
record_of q key now = record {
  body = q.body;
  metadata = record {
    kind = q.kind;
    key = key;
    size = length q.body;
    updated_at = or_now q.updated_at now;
    room = if_given q.room;
    ref_name = if_given q.ref_name;
    content_hash = if_given q.content_hash;
    content_type = if_given q.content_type;
  };
}

module _ (not_after : String → String → Bool) where
  -- The order of the eviction: the oldest first, and by key where two are of one time.
  abbrev pub goes_first : EvictionCandidate → EvictionCandidate → Bool
  goes_first a b =
      if a.updated_at == b.updated_at
      then not_after a.storage_key b.storage_key
      else ltb a.updated_at b.updated_at

  unfoldable pub insert : EvictionCandidate → List EvictionCandidate → List EvictionCandidate
  insert c [] = c ∷ []
  insert c (d ∷ ds) = let rest = insert c ds in if goes_first c d then c ∷ d ∷ ds else d ∷ rest

  -- A stable sort.
  unfoldable pub sort_eviction_candidates : List EvictionCandidate → List EvictionCandidate
  unfolding insert
  sort_eviction_candidates [] = []
  sort_eviction_candidates (c ∷ cs) = insert c (sort_eviction_candidates cs)

  unfoldable pub enforce_max_bytes : Option ℕ → Map StoredRecord → Map StoredRecord
  unfolding evict sort_eviction_candidates
  enforce_max_bytes none m = m
  enforce_max_bytes (some most) m =
      if leb (total_bytes m) most
      then m
      else evict most (sort_eviction_candidates (candidates m)) (total_bytes m) m

  -- `none` where the key is blank, which throws.
  unfoldable pub put :
      Policy → Map StoredRecord → CacheStorePutRequest → ℕ → Option (Map StoredRecord)
  unfolding trim Map.set prune_expired enforce_max_bytes to_storage_key record_of
  put policy m q now =
      let key = trim q.key in
      if is_empty key
      then none
      else some (
          enforce_max_bytes policy.max_bytes (
            Map.set (to_storage_key q.kind key) (record_of q key now)
              (prune_expired policy.ttl_sec now m)))

abbrev found_of :
    Policy
    → Map StoredRecord
    → ℕ
    → String
    → Option StoredRecord
    → Map StoredRecord × Option StoredRecord
found_of policy m now key none = (m, none)
found_of policy m now key (some r) =
    if is_expired policy.ttl_sec now r then (Map.delete key m, none) else (m, some r)

unfoldable pub get :
    Policy
    → Map StoredRecord
    → CacheStoreKind
    → String
    → ℕ
    → Option (Map StoredRecord × Option StoredRecord)
unfolding trim Map.get Map.delete to_storage_key
get policy m kind raw now =
    let key = to_storage_key kind (trim raw) in
    if is_empty (trim raw) then none else some (found_of policy m now key (Map.get key m))

unfoldable pub remove :
    Map StoredRecord → CacheStoreKind → String → Option (Map StoredRecord × Bool)
unfolding trim Map.has Map.delete to_storage_key
remove m kind raw =
    let key = to_storage_key kind (trim raw) in
    if is_empty (trim raw) then none else some (Map.delete key m, Map.has key m)
