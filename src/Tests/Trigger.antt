-- ===== src/Tests/Trigger.antt =====
-- The dispatcher of incoming refs.
use bit_relay.Prelude.{ℕ, ◌≡◌, ◌↔◌, refl, Bool, true, false, [], Option, some, String, All}
use bit_relay.Text.{trim, is_empty, chars}
use bit_relay.GitRefs.{extract_incoming_refs}
use bit_relay.Trigger.{IncomingRefEvent, is_incoming_relay_ref, dispatch_incoming_ref}
use bit_relay.Trigger.Prefixes.{StartsWith, IsPrefix}
use bit_relay.Trigger.Dispatch.{dispatch-incoming}

abbrev event : IncomingRefEvent
unfolding chars
event = record {
  event_id = "e1";
  occurred_at = 1;
  room = "main";
  source = "session";
  target = "git-receive-pack";
  ref = chars "refs/relay/incoming/a";
}

abbrev post : String → IncomingRefEvent → Option (ℕ × Bool)
post url e = some (503, false)

dispatch_test : (dispatch_incoming_ref "https://ci" [] post event).status ≡ 503
unfolding dispatch_incoming_ref is_incoming_relay_ref trim chars
dispatch_test = refl

dispatch-incoming_example :
    (((dispatch_incoming_ref "https://ci" [] post event).dispatched ≡ true) ↔ (
      ((prefix : String) × IsPrefix [] prefix × StartsWith event.ref prefix)
      × (is_empty (trim "https://ci") ≡ false)))
    × All
        (λ ref. StartsWith ref "refs/relay/incoming/")
        (extract_incoming_refs (chars "0 refs/relay/incoming/a"))
dispatch-incoming_example =
    dispatch-incoming "https://ci" [] post event (chars "0 refs/relay/incoming/a")
