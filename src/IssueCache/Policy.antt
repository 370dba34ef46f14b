-- ===== src/IssueCache/Policy.antt =====
-- When an issue's cached snapshot is replaced (shouldUpdateSnapshotBySourcePolicy of
-- src/relay_cache_adapter.ts).
use bit_relay.Prelude.{
  ℕ, ◌<◌, ◌≡◌, ◌⊎◌, ◌↔◌, inl, inr, refl, ap, if◌then◌else◌, true, false, Option, none, some, String,
  arith, Bool-cases, eq_iff, str_eq,
}
use bit_relay.Text.{trim}
use bit_relay.Json.{Json, null, bool, num, str, arr, obj, prop, string_or_empty}
use bit_relay.Http.{Platform}
use bit_relay.Room.{Envelope}
use bit_relay.IssueProjection.{IssueCacheSnapshotRecord}
use bit_relay.IssueProjection.Records.{json_of_snapshot}
use bit_relay.IssueProjection.Stored.{IsSnapshot, snapshot-Reads}
use bit_relay.IssueCache.{
  SourceOfTruth, last_write, github, bit, Cache, AdapterOptions, found, parse_issue_source,
  is_older_by_timestamp, is_source, by_policy, preferred_wins,
  should_update_snapshot_by_source_policy,
}
use bit_relay.IssueCache.Writes.{should_update}

-- Both times are there, and the first is before the second.
abbrev pub IsOlder : (time existing : Option ℕ) → Type 0
IsOlder (some time) (some existing) = time < existing
IsOlder (some time) none = ⊥
IsOlder none existing = ⊥

-- The text of the payload's `source`, trimmed and in lower case; a `source` that is no text is read as
-- an empty one.
abbrev pub source_text : Platform → Json → Option String
source_text p (obj fs) = some (p.to_lower_case (trim (string_or_empty (prop "source" fs))))
source_text p null = none
source_text p (bool b) = none
source_text p (num n) = none
source_text p (str s) = none
source_text p (arr vs) = none

-- The payload names the source that the policy prefers.
abbrev pub IsPreferred : Platform → SourceOfTruth → Json → Type 0
IsPreferred p last_write payload = ⊥
IsPreferred p github payload = source_text p payload ≡ some "github"
IsPreferred p bit payload = source_text p payload ≡ some "bit"

is_older_by_timestamp-IsOlder :
    (time existing : Option ℕ)
    → (is_older_by_timestamp time existing ≡ true) ↔ IsOlder time existing
unfolding is_older_by_timestamp
is_older_by_timestamp-IsOlder (some time) (some existing) = ground arith
is_older_by_timestamp-IsOlder (some time) none = ground arith
is_older_by_timestamp-IsOlder none existing = ground arith

-- The source that a text names.
abbrev source_named : String → Option SourceOfTruth
source_named text =
    if str_eq text "github" then some github else if str_eq text "bit" then some bit else none

github_iff :
    (text : String) → (is_source github (source_named text) ≡ true) ↔ (some text ≡ some "github")
github_iff text = elim (Bool-cases (str_eq text "github")) [
  | inl named ↦ rw named ((λ _. ap some ((eq_iff text "github").0 named)), (λ _. refl))
  | inr other ↦ rw other (
    (λ h. absurd (ground arith)),
    λ h.
        let same : text ≡ "github" = ground arith in
        let named = (eq_iff text "github").1 same in absurd (ground arith),
  )
]

bit_iff : (text : String) → (is_source bit (source_named text) ≡ true) ↔ (some text ≡ some "bit")
bit_iff text = elim (Bool-cases (str_eq text "bit")) [
  | inl named ↦
      let same = (eq_iff text "bit").0 named in
      let other : str_eq text "github" ≡ false = ap (λ q. str_eq q "github") same in
      rw (other, named) ((λ _. ap some same), (λ _. refl))
  | inr other ↦ (
    (λ h. absurd (ground arith)),
    λ h.
        let same : text ≡ "bit" = ground arith in
        let named = (eq_iff text "bit").1 same in absurd (ground arith),
  )
]

is_source-IsPreferred :
    (p : Platform) (policy : SourceOfTruth) (payload : Json)
    → (is_source policy (parse_issue_source p payload) ≡ true) ↔ IsPreferred p policy payload
unfolding parse_issue_source
is_source-IsPreferred p last_write payload = ground arith
is_source-IsPreferred p github (obj fs) =
    (github_iff (p.to_lower_case (trim (string_or_empty (prop "source" fs)))))
is_source-IsPreferred p bit (obj fs) =
    bit_iff (p.to_lower_case (trim (string_or_empty (prop "source" fs))))
is_source-IsPreferred p github payload = ground arith
is_source-IsPreferred p bit payload = ground arith

module _ (incoming existing : Option SourceOfTruth) where
  wins_iff :
      (preferred : SourceOfTruth)
      → (preferred_wins preferred incoming existing ≡ false)
        ↔ ((is_source preferred existing ≡ true) × (is_source preferred incoming ≡ false))
  wins_iff preferred = ground arith

  policy_iff :
      (policy : SourceOfTruth)
      → (by_policy policy incoming existing ≡ false)
        ↔ ((is_source policy existing ≡ true) × (is_source policy incoming ≡ false))
  policy_iff last_write = ground arith
  policy_iff github = wins_iff github
  policy_iff bit = wins_iff bit

  stays_iff :
      (policy : SourceOfTruth) (incoming_ms existing_ms : Option ℕ)
      → (should_update_snapshot_by_source_policy policy incoming existing incoming_ms existing_ms
          ≡ false)
        ↔ ((is_older_by_timestamp incoming_ms existing_ms ≡ true)
            ⊎ ((is_source policy existing ≡ true) × (is_source policy incoming ≡ false)))
  unfolding should_update_snapshot_by_source_policy
  stays_iff policy incoming_ms existing_ms =
      elim (Bool-cases (is_older_by_timestamp incoming_ms existing_ms)) [
        | inl older ↦ rw older ((λ _. inl refl), (λ _. refl))
        | inr younger ↦ rw younger (
          (λ kept. inr ((policy_iff policy).0 kept)),
          λ h. elim h [
            | inl older ↦ absurd (ground arith)
            | inr preferred ↦ (policy_iff policy).1 preferred
          ],
        )
      ]

stays_iff-named :
    (p : Platform) (policy : SourceOfTruth) (incoming existing : Json) (time old : Option ℕ)
    → (should_update_snapshot_by_source_policy policy
          (parse_issue_source p incoming)
          (parse_issue_source p existing)
          time
          old
        ≡ false)
      ↔ (IsOlder time old ⊎ (IsPreferred p policy existing × (¬ (IsPreferred p policy incoming))))
stays_iff-named p policy incoming existing time old =
    let stays =
      stays_iff (parse_issue_source p incoming) (parse_issue_source p existing) policy time old in
    let older = is_older_by_timestamp-IsOlder time old in
    let theirs = is_source-IsPreferred p policy existing in
    let ours = is_source-IsPreferred p policy incoming in
    (
      (λ kept. elim (stays.0 kept) [
        | inl h ↦ inl (older.0 h)
        | inr (there, here) ↦
            inr (theirs.0 there, λ named. let h = ours.1 named in absurd (ground arith))
      ]),
      λ h. stays.1 (elim h [
        | inl before ↦ inl (older.1 before)
        | inr (there, here) ↦ inr (
          theirs.1 there,
          elim (Bool-cases (is_source policy (parse_issue_source p incoming))) [
            | inl named ↦ absurd (here (ours.0 named))
            | inr other ↦ other
          ],
        )
      ]),
    )

-- A stored snapshot of an issue, read back, stays exactly where the new envelope's time is before the
-- snapshot's, both being known, or where the snapshot's payload names the preferred source and the
-- envelope's does not; with the last write preferred, only where the envelope is older. The
-- snapshot is one that the adapter stores: a valid envelope of its room, an issue's id and a
-- positive cursor.
pub should_update_iff :
    {S : Type 0} (cache : Cache S) (p : Platform) (o : AdapterOptions) (now : ℕ)
    (envelope : Envelope) (time : Option ℕ) (existing : IssueCacheSnapshotRecord)
    → IsSnapshot existing
    → (should_update cache p o now envelope time (found (some (json_of_snapshot existing))) ≡ false)
      ↔ (IsOlder time existing.source_updated_at_ms
          ⊎ (IsPreferred p o.issue_source_of_truth existing.envelope.payload
              × (¬ (IsPreferred p o.issue_source_of_truth envelope.payload))))
unfolding should_update
should_update_iff cache p o now envelope time existing h =
    rw (should_update, snapshot-Reads existing h)
      (stays_iff-named p o.issue_source_of_truth envelope.payload existing.envelope.payload time
        existing.source_updated_at_ms)
