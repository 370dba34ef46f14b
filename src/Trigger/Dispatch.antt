-- ===== src/Trigger/Dispatch.antt =====
-- Which refs are dispatched (src/trigger_dispatcher.ts).
use bit_relay.Prelude.{
  ℕ, ◌≡◌, ◌↔◌, refl, Bool, true, false, List, [], ◌∷◌, Option, none, some, String, arith, All,
}
use bit_relay.Text.{trim, is_empty, chars}
use bit_relay.GitRefs.{incoming_prefix, extract_incoming_refs}
use bit_relay.GitRefs.Extract.{IsRef, extract-IsRef}
use bit_relay.Trigger.Prefixes.{StartsWith, IsPrefix, is_incoming_relay_ref_iff}
use bit_relay.Trigger.{is_incoming_relay_ref, result_of, IncomingRefEvent, dispatch_incoming_ref}

All-incoming :
    (refs : List (List ℕ))
    → All (IsRef incoming_prefix) refs
    → All (λ ref. StartsWith ref "refs/relay/incoming/") refs
unfolding chars
All-incoming [] h = tt
All-incoming (ref ∷ refs) ((run, shape, some_run, short, class), h) =
    ((run, shape), All-incoming refs h)

result_of-dispatched : (reply : Option (ℕ × Bool)) → (result_of reply).dispatched ≡ true
result_of-dispatched none = refl
result_of-dispatched (some (status, true)) = refl
result_of-dispatched (some (status, false)) = refl

module _ (webhook_url : String) (ref_prefixes : List String)
    (post : String → IncomingRefEvent → Option (ℕ × Bool)) where
  dispatched_iff :
      (event : IncomingRefEvent)
      → ((dispatch_incoming_ref webhook_url ref_prefixes post event).dispatched ≡ true) ↔ (
          (is_incoming_relay_ref event.ref ref_prefixes ≡ true)
          × (is_empty (trim webhook_url) ≡ false))
  unfolding dispatch_incoming_ref
  dispatched_iff event = ground (arith, result_of-dispatched (post (trim webhook_url) event))

-- An event is posted just where its ref starts with one of the prefixes and the webhook's address is
-- not blank. The prefixes are the settings that are not blank, their white space cut off, and
-- "refs/relay/incoming/" where every setting is blank; and every ref that is read from the text of a
-- push starts with that one.
pub dispatch-incoming :
    (webhook_url : String) (ref_prefixes : List String)
    (post : String → IncomingRefEvent → Option (ℕ × Bool)) (event : IncomingRefEvent)
    (text : List ℕ)
    → (((dispatch_incoming_ref webhook_url ref_prefixes post event).dispatched ≡ true) ↔ (
        ((prefix : String) × IsPrefix ref_prefixes prefix × StartsWith event.ref prefix)
        × (is_empty (trim webhook_url) ≡ false)))
      × All (λ ref. StartsWith ref "refs/relay/incoming/") (extract_incoming_refs text)
dispatch-incoming webhook_url ref_prefixes post event text =
    let sent = dispatched_iff webhook_url ref_prefixes post event in
    let taken = is_incoming_relay_ref_iff event.ref ref_prefixes in
    (
      (
        (λ posted. let (incoming, address) = sent.0 posted in (taken.0 incoming, address)),
        λ (starts, address). sent.1 (taken.1 starts, address),
      ),
      All-incoming (extract_incoming_refs text) (extract-IsRef text).0.1,
    )
