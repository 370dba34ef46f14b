-- ===== src/Trigger.antt =====
-- The dispatcher of incoming refs to a webhook (src/trigger_dispatcher.ts). `post` is `fetch` of the
-- webhook: the status of the reply and whether it is one of success, `none` where it throws.
pub mod Dispatch
pub mod Dedupe
pub mod Prefixes
use bit_relay.Prelude.{
  ℕ, Bool, true, false, not, ◌&&◌, ◌||◌, List, [], ◌∷◌, ◌++◌, Option, none, some, String,
  if◌then◌else◌, any,
}
use bit_relay.Text.{trim, is_empty, chars}
use bit_relay.Room.{includes}
use bit_relay.GitRefs.{strip_prefix}

-- The loop over the prefixes, with those so far.
unfoldable pub dedupe_prefixes : List String → List String → List String
unfolding trim
dedupe_prefixes dedupe [] = dedupe
dedupe_prefixes dedupe (entry ∷ raw) =
    let trimmed = trim entry in
    dedupe_prefixes
      (if is_empty trimmed || includes dedupe trimmed then dedupe else dedupe ++ trimmed ∷ []) raw

abbrev pub or_default : List String → List String
or_default [] = "refs/relay/incoming/" ∷ []
or_default (p ∷ ps) = p ∷ ps

unfoldable pub normalize_ref_prefixes : List String → List String
unfolding dedupe_prefixes
normalize_ref_prefixes raw = or_default (dedupe_prefixes [] raw)

-- `ref.startsWith(prefix)`
unfoldable pub starts_with : List ℕ → String → Bool
unfolding strip_prefix chars
starts_with ref prefix = elim (strip_prefix (chars prefix) ref) [ none ↦ false | some _ ↦ true ]

unfoldable pub is_incoming_relay_ref : List ℕ → List String → Bool
unfolding normalize_ref_prefixes starts_with
is_incoming_relay_ref ref prefixes = any (starts_with ref) (normalize_ref_prefixes prefixes)

pub data DispatchError : Type 0 where
  network_error : DispatchError
  bad_status : ℕ → DispatchError

pub record TriggerDispatchResult : Type 0 where
  pub ok : Bool
  pub dispatched : Bool
  pub status : ℕ
  pub error : Option DispatchError

-- The event as it is posted.
pub record IncomingRefEvent : Type 0 where
  pub event_id : String
  pub occurred_at : ℕ
  pub room : String
  pub source : String
  pub target : String
  pub ref : List ℕ

abbrev pub result_of : Option (ℕ × Bool) → TriggerDispatchResult
result_of none = record { ok = false; dispatched = true; status = 0; error = some network_error }
result_of (some (status, true)) = record {
  ok = true;
  dispatched = true;
  status = status;
  error = none;
}
result_of (some (status, false)) = record {
  ok = false;
  dispatched = true;
  status = status;
  error = some (bad_status status);
}

module _ (webhook_url : String) (ref_prefixes : List String)
    (post : String → IncomingRefEvent → Option (ℕ × Bool)) where
  unfoldable pub dispatch_incoming_ref : IncomingRefEvent → TriggerDispatchResult
  unfolding trim is_incoming_relay_ref
  dispatch_incoming_ref event =
      let url = trim webhook_url in
      if not (is_incoming_relay_ref event.ref ref_prefixes) || is_empty url
      then record { ok = true; dispatched = false; status = 0; error = none }
      else result_of (post url event)
