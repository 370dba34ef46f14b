-- ===== src/IssueCache/Reads.antt =====
-- pullIssues and the snapshot of the cursors (src/relay_cache_adapter.ts).

use bit_relay.Prelude.{
  ℕ, ◌+◌, max, Bool, ◌&&◌, List, [], ◌∷◌, Option, none, some, String, str_eq, if◌then◌else◌, length,
}
use bit_relay.Map
use bit_relay.Map.{Map}
use bit_relay.Map.Listed.{listed}
use bit_relay.Text.{parse_int}
use bit_relay.Json.{Json, Fields, end, field}
use bit_relay.Room.{Envelope, is_valid_room_name}
use bit_relay.CacheStore.{issue}
use bit_relay.IssueSync.Snapshot.{json_nat, finite_at_zero}
use bit_relay.IssueProjection.{is_issue_topic, parse_cached_issue_envelope}
use bit_relay.IssueCache.{Lookup, found, ListPage, Cache}

-- One key of a page: the envelope, unless its get throws or it is none of the room's issues.
unfoldable pub issue_of_lookup : String → Lookup → Option Envelope
unfolding parse_cached_issue_envelope is_issue_topic
issue_of_lookup room (found body) = elim (parse_cached_issue_envelope body) [
  | none ↦ none
  | some e ↦ if str_eq e.room room && is_issue_topic e.topic then some e else none
]
issue_of_lookup room _ = none

-- The cursor after a page; one that is no number falls back to the page's length. A store gives no
-- cursor below 0.
abbrev pub number_or : Option (Bool × ℕ) → ℕ → ℕ
number_or (some (negative, n)) fallback = n
number_or none fallback = fallback

abbrev pub cursor_after : (after : ℕ) → ListPage → ℕ
unfolding parse_int
cursor_after after page = elim page.cursor [
  | none ↦ after + length page.keys
  | some cursor ↦ number_or (parse_int cursor) (after + length page.keys)
]

module _ {S : Type 0} (cache : Cache S) where
  unfoldable pub read_issues : String → List String → S → S × List Envelope
  unfolding issue_of_lookup
  read_issues room [] store = (store, [])
  read_issues room (key ∷ keys) store =
      let (store', cached) = cache.get store issue key in
      let (last, envelopes) = read_issues room keys store' in
      (last, elim (issue_of_lookup room cached) [ none ↦ envelopes | some e ↦ e ∷ envelopes ])

  -- The next cursor and the envelopes.
  unfoldable pub pull_issues : String → (after limit : ℕ) → S → S × ℕ × List Envelope
  unfolding read_issues cursor_after
  pull_issues room after limit store =
      let (store', listed) = cache.list_issues store room (max 1 limit) after in
      elim listed [
        | none ↦ (store', after, [])
        | some page ↦
            let (last, envelopes) = read_issues room page.keys store' in
            (last, cursor_after after page, envelopes)
      ]

-- The cursors of rooms with a valid name.
unfoldable pub cursor_fields : Map ℕ → Fields
unfolding is_valid_room_name
cursor_fields [] = end
cursor_fields ((room, cursor) ∷ rest) =
    let more = cursor_fields rest in
    if is_valid_room_name room then field room (json_nat cursor) more else more

unfoldable pub snapshot_issue_cursors : Map ℕ → Fields
unfolding cursor_fields
snapshot_issue_cursors cursors = cursor_fields (listed cursors)

abbrev put_cursor : String → Option ℕ → Map ℕ → Map ℕ
unfolding is_valid_room_name Map.set
put_cursor room none m = m
put_cursor room (some cursor) m = if is_valid_room_name room then Map.set room cursor m else m

unfoldable pub restore_issue_cursors : Map Json → Map ℕ → Map ℕ
unfolding put_cursor
restore_issue_cursors [] m = m
restore_issue_cursors ((room, cursor) ∷ rest) m =
    restore_issue_cursors rest (put_cursor room (finite_at_zero (some cursor)) m)
