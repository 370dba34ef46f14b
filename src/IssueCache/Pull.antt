-- ===== src/IssueCache/Pull.antt =====
-- What a pull of cached issues shows (pullIssues, src/relay_cache_adapter.ts).
use bit_relay.Prelude.{
  ℕ, ◌≡◌, subst, true, ◌&&◌, List, [], ◌∷◌, String, str_eq, eq_iff, arith, All, max, Bool-cases,
  Option-cases, inl, inr,
}
use bit_relay.Room.{Envelope}
use bit_relay.IssueProjection.{is_issue_topic, parse_cached_issue_envelope}
use bit_relay.CacheStore.{issue}
use bit_relay.IssueCache.{Cache, Lookup, failed, missing, found}
use bit_relay.IssueCache.Reads.{issue_of_lookup, read_issues, pull_issues}
use bit_relay.Relay.Restore.Bounds.{Holds}

-- An issue of the room.
abbrev pub IsRoomIssue : String → Envelope → Type 0
IsRoomIssue room e = (e.room ≡ room) × (is_issue_topic e.topic ≡ true)

issue-Holds :
    (room : String) (cached : Lookup) → Holds (IsRoomIssue room) (issue_of_lookup room cached)
unfolding issue_of_lookup
issue-Holds room failed = tt
issue-Holds room missing = tt
issue-Holds room (found body) = elim (Option-cases (parse_cached_issue_envelope body)) [
  | inl bad ↦ rw (bad, issue_of_lookup) tt
  | inr (e, good) ↦ elim (Bool-cases (str_eq e.room room && is_issue_topic e.topic)) [
    | inl taken ↦
        rw (good, issue_of_lookup, taken)
          (ground (arith, eq_iff e.room room, taken), ground (arith, taken))
    | inr other ↦ rw (good, issue_of_lookup, other) tt
  ]
]

module _ {S : Type 0} (cache : Cache S) where
  read-All :
      (room : String) (keys : List String) (store : S)
      → All (IsRoomIssue room) (read_issues cache room keys store).1
  unfolding read_issues
  read-All room [] store = tt
  read-All room (key ∷ keys) store =
      let (store', cached) = cache.get store issue key in
      let more = read-All room keys store' in
      elim (Option-cases (issue_of_lookup room cached)) [
        | inl passed ↦ rw (read_issues, passed) more
        | inr (e, taken) ↦
            rw (read_issues, taken)
              (subst (Holds (IsRoomIssue room)) taken (issue-Holds room cached), more)
      ]

  -- Whatever the store holds, a pull shows only issues of the room that was asked for.
  pub pull_issues-IsRoomIssue :
      (room : String) (after limit : ℕ) (store : S)
      → All (IsRoomIssue room) (pull_issues cache room after limit store).2
  unfolding pull_issues
  pull_issues-IsRoomIssue room after limit store =
      let (store', listed) = cache.list_issues store room (max 1 limit) after in
      elim (Option-cases listed) [
        | inl failing ↦ rw (pull_issues, failing) tt
        | inr (page, listing) ↦ rw (pull_issues, listing) (read-All room page.keys store')
      ]
