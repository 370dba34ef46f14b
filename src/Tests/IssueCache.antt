-- ===== src/Tests/IssueCache.antt =====
-- Inputs for the issue cache (src/issue_projection.ts and src/relay_cache_adapter.ts).
use bit_relay.Prelude.{
  if◌then◌else◌, ◌≡◌, ◌⊎◌, ◌↔◌, ◌<◌, refl, Bool, true, false, List, [], ◌∷◌, none, some, arith, All,
}
use bit_relay.Text.{trim, trim_start, trim_end, matches_name, every_char, utf16_length}
use bit_relay.Json.{str}
use bit_relay.Room.{Envelope, is_valid_topic, is_valid_room_name}
use bit_relay.IssueProjection.{IssueCacheEventRecord, IssueCacheSnapshotRecord}
use bit_relay.IssueProjection.Records.{
  parse_issue_cache_event_record, json_of_event, json_of_snapshot,
}
use bit_relay.IssueProjection.Stored.{IsEvent, IsSnapshot, event-Reads}
use bit_relay.IssueCache.{Cache, found, PutRequest, Adapter, AdapterOptions, github}
use bit_relay.IssueCache.Writes.{next_issue_cursor, should_update}
use bit_relay.IssueCache.Reads.{pull_issues}
use bit_relay.IssueCache.Cursors.{PersistCall, persist_all, next_issue_cursor-rises}
use bit_relay.IssueCache.Policy.{IsOlder, IsPreferred, should_update_iff}
use bit_relay.IssueCache.Pull.{IsRoomIssue, pull_issues-IsRoomIssue}
use bit_relay.Relay.Snapshot.{json_of_envelope}
use bit_relay.Tests.Relay.{platform}

abbrev opened : Envelope
opened = record {
  room = "main";
  id = "m1";
  sender = "ann";
  topic = "issue.opened";
  payload = str "hi";
  signature = none;
}

abbrev event : IssueCacheEventRecord
event = record {
  room = "main";
  cursor = 3;
  issue_id = "m1";
  action = "opened";
  envelope = opened;
  source_updated_at_ms = some 5;
  updated_at = 9;
}

event-IsEvent : IsEvent event
unfolding trim trim_start trim_end is_valid_topic is_valid_room_name matches_name every_char
    utf16_length
event-IsEvent = record {
  room = refl;
  cursor = omega arith;
  issue_id = (refl, refl);
  action = (refl, refl);
  envelope = record { room = refl; topic = refl; id = refl; sender = refl };
}

event-Reads_example : parse_issue_cache_event_record (some (json_of_event event)) ≡ some event
event-Reads_example = event-Reads event event-IsEvent

-- A store that keeps its puts and throws at every other one.
abbrev flaky : Cache (List PutRequest × Bool)
flaky = record {
  get = λ s kind key. (s, found (some (json_of_envelope opened)));
  put = λ s q. ((q ∷ s.0, if s.1 then false else true), s.1);
  list_issues = λ s room limit cursor. (s, some (record { keys = "main/m1" ∷ []; cursor = none }));
}

abbrev adapter : Adapter (List PutRequest × Bool)
adapter = record { issue_cursor_by_room = []; store = ([], true) }

abbrev adapter_options : AdapterOptions
adapter_options = record { issue_source_of_truth = github; max_retries = 2 }

abbrev calls : List PersistCall
calls = record { envelope = opened; room_cursor_hint = some 1; now = 7 } ∷ []

next_issue_cursor-rises_example :
    (next_issue_cursor flaky "main" (some 4) adapter).1
    < (next_issue_cursor flaky "main" none (
        persist_all flaky platform adapter_options calls
          (next_issue_cursor flaky "main" (some 4) adapter).0)).1
next_issue_cursor-rises_example =
    next_issue_cursor-rises flaky platform adapter_options "main" (some 4) none calls adapter

abbrev cached : IssueCacheSnapshotRecord
cached = record {
  room = "main";
  issue_id = "m1";
  last_cursor = 3;
  envelope = opened;
  source_updated_at_ms = some 5;
  updated_at = 9;
}

cached-IsSnapshot : IsSnapshot cached
unfolding trim trim_start trim_end is_valid_topic is_valid_room_name matches_name every_char
    utf16_length
cached-IsSnapshot = record {
  room = refl;
  last_cursor = omega arith;
  issue_id = (refl, refl);
  envelope = record { room = refl; topic = refl; id = refl; sender = refl };
}

should_update_iff_example :
    (should_update flaky platform adapter_options 10 opened
        (some 8)
        (found (some (json_of_snapshot cached)))
      ≡ false)
    ↔ (IsOlder (some 8) (some 5)
        ⊎ (IsPreferred platform github (str "hi") × (¬ (IsPreferred platform github (str "hi")))))
should_update_iff_example =
    should_update_iff flaky platform adapter_options 10 opened (some 8) cached cached-IsSnapshot

pull_issues-IsRoomIssue_example :
    All (IsRoomIssue "main") (pull_issues flaky "main" 0 10 ([], true)).2
pull_issues-IsRoomIssue_example = pull_issues-IsRoomIssue flaky "main" 0 10 ([], true)
