-- ===== src/CacheExchange.antt =====
-- src/cache_exchange.ts, and the records that a relay keeps for it (appendCacheExchangeRecord and
-- recordCacheExchange of src/memory_handler.ts).
pub mod Select
pub mod Pull
pub mod Allowed
pub mod Kept
pub mod Classify
use bit_relay.Prelude.{
  inr, inl, ◌⊎◌, ◌==◌, ℕ, ◌+◌, max, Bool, true, false, not, ◌&&◌, ◌||◌, List, [], ◌∷◌, ◌++◌, Option,
  none, some, String, str_eq, if◌then◌else◌, ltb, leb, length, zero, suc,
}
use bit_relay.Text.{chars, is_empty, same}
use bit_relay.Json.{Number, Json, num, Fields, prop, as_record, trimmed_string}
use bit_relay.Signing.{canonicalize_json, join}
use bit_relay.Room.{Envelope, trim_log}

pub record CacheExchangeRecord : Type 0 where
  pub cursor : ℕ
  pub envelope : Envelope
  pub origin : String
  pub hop_count : ℕ
  pub max_hops : ℕ

pub record CacheExchangeEntry : Type 0 where
  pub cursor : ℕ
  pub envelope : Envelope
  pub origin : String
  pub hop_count : ℕ
  pub max_hops : ℕ

pub record SelectArgs : Type 0 where
  pub after : ℕ
  pub limit : ℕ
  pub peer : Option String
  pub room : Option String

-- `filter && filter op value`: `null` and `''` filter nothing.
abbrev pub when_given : Option String → (String → Bool) → Bool
when_given none test = false
when_given (some s) test = not (is_empty s) && test s

-- The records that a page passes over.
abbrev pub is_skipped : SelectArgs → CacheExchangeRecord → Bool
is_skipped args r =
    when_given args.room (λ room. not (str_eq r.envelope.room room))
    || when_given args.peer (λ peer. str_eq r.origin peer)
    || leb r.max_hops r.hop_count

abbrev pub entry_of : CacheExchangeRecord → CacheExchangeEntry
entry_of r = record {
  cursor = r.cursor;
  envelope = r.envelope;
  origin = r.origin;
  hop_count = r.hop_count + 1;
  max_hops = r.max_hops;
}

-- The loop, with the page and the cursor so far.
unfoldable pub select_from :
    SelectArgs
    → ℕ
    → List CacheExchangeRecord
    → List CacheExchangeEntry
    → ℕ
    → List CacheExchangeEntry × ℕ
select_from args limit [] entries next_cursor = (entries, next_cursor)
select_from args limit (r ∷ rs) entries next_cursor =
    let longer = entries ++ entry_of r ∷ [] in
    let passed = select_from args limit rs entries next_cursor in
    let skipped = select_from args limit rs entries r.cursor in
    let taken = select_from args limit rs longer r.cursor in
    if leb r.cursor args.after
    then passed
    else if is_skipped args r
    then skipped
    else if leb limit (length longer)
    then (longer, r.cursor)
    else taken

unfoldable pub select_cache_exchange_entries :
    List CacheExchangeRecord → SelectArgs → List CacheExchangeEntry × ℕ
unfolding select_from
select_cache_exchange_entries records args =
    select_from args (max 1 args.limit) records [] args.after

pub record IncomingExchangeEntry : Type 0 where
  pub envelope : Envelope
  pub origin : String
  pub hop_count : ℕ
  pub max_hops : ℕ

pub data ParsedEntry : Type 0 where
  ok : IncomingExchangeEntry → ParsedEntry
  error : String → ParsedEntry

-- asNonNegativeInt: the whole part of a finite number, unless it is below 0.
abbrev pub as_non_negative_int : Option Json → Option ℕ
as_non_negative_int (some (num (Number.finite false whole fraction))) = some whole
as_non_negative_int (some (num (Number.finite true zero fraction))) = some 0
as_non_negative_int _ = none

infixl 5 ◌>>=◌
abbrev ◌>>=◌ {ℓ} : {A : Type ℓ} → A ⊎ String → (A → ParsedEntry) → ParsedEntry
inl a >>= k = k a
inr message >>= k = error message

abbrev or_error {ℓ} : {A : Type ℓ} → Option A → String → A ⊎ String
or_error none message = inr message
or_error (some a) message = inl a

abbrev or_default : Option ℕ → ℕ → ℕ
or_default none d = d
or_default (some n) d = n

abbrev with_max_hops : Envelope → String → (hop_count max_hops : ℕ) → ParsedEntry
with_max_hops envelope origin hop_count max_hops =
    if ltb max_hops 1
    then error "invalid max_hops"
    else ok (record {
      envelope = envelope;
      origin = origin;
      hop_count = hop_count;
      max_hops = max_hops;
    })

unfoldable pub parse_fields : Fields → ℕ → ParsedEntry
unfolding trimmed_string prop
parse_fields fs default_max_hops = do
  room ← or_error (trimmed_string (prop "room" fs)) "invalid room"
  id ← or_error (trimmed_string (prop "id" fs)) "invalid id"
  sender ← or_error (trimmed_string (prop "sender" fs)) "invalid sender"
  topic ← or_error (trimmed_string (prop "topic" fs)) "invalid topic"
  payload ← or_error (prop "payload" fs) "invalid payload"
  origin ← or_error (trimmed_string (prop "origin" fs)) "invalid origin"
  hop_count ← or_error (as_non_negative_int (prop "hop_count" fs)) "invalid hop_count"
  with_max_hops
      (record {
        room = room;
        id = id;
        sender = sender;
        topic = topic;
        payload = payload;
        signature = trimmed_string (prop "signature" fs);
      })
      origin hop_count (or_default (as_non_negative_int (prop "max_hops" fs)) default_max_hops)

unfoldable pub parse_incoming_cache_exchange_entry : Json → ℕ → ParsedEntry
unfolding parse_fields
parse_incoming_cache_exchange_entry value default_max_hops = do
  fs ← or_error (as_record value) "entry must be object"
  parse_fields fs default_max_hops

pub data CacheExchangeCollision : Type 0 where
  duplicate conflict : CacheExchangeCollision

abbrev pub signature_text : Option String → List ℕ
signature_text none = []
signature_text (some s) = chars s

module _ (number_text : Number → List ℕ) where
  unfoldable pub envelope_canonical_signature : Envelope → List ℕ
  unfolding join
  envelope_canonical_signature e = join (10 ∷ []) (
      chars e.sender
      ∷ chars e.topic
      ∷ canonicalize_json number_text e.payload
      ∷ signature_text e.signature
      ∷ [])

  unfoldable pub classify_cache_exchange_collision : Envelope → Envelope → CacheExchangeCollision
  unfolding envelope_canonical_signature same
  classify_cache_exchange_collision existing incoming =
      if same (envelope_canonical_signature existing) (envelope_canonical_signature incoming)
      then duplicate
      else conflict

-- The records with the cursor of the newest.
pub record Exchange : Type 0 where
  pub records : List CacheExchangeRecord
  pub cursor : ℕ

unfoldable pub append_cache_exchange_record : ℕ → Exchange → CacheExchangeRecord → Exchange
unfolding trim_log
append_cache_exchange_record most x r = record x { records = trim_log most (x.records ++ r ∷ []) }

unfoldable pub record_cache_exchange :
    ℕ → Exchange → Envelope → String → (hop_count max_hops : ℕ) → Exchange
unfolding append_cache_exchange_record
record_cache_exchange most x envelope origin hop_count max_hops =
    let cursor = x.cursor + 1 in
    append_cache_exchange_record most (record x { cursor = cursor })
      (record {
        cursor = cursor;
        envelope = envelope;
        origin = origin;
        hop_count = hop_count;
        max_hops = max_hops;
      })
