-- ===== src/Contracts/WellFormed.antt =====
-- Which events the parser of src/contracts.ts can return, and that it reads each of them back from
-- its JSON form.
use bit_relay.Prelude.{subst, ◌≡◌, refl, false, Option, some, String, inl, inr, Option-cases, arith}
use bit_relay.Text.{is_empty}
use bit_relay.Json.{null, bool, arr, Number, Json, obj, num, str, Fields, field, end, prop}
use bit_relay.Contracts.{
  ParseResult, ok, error, RelayEvent, RelayEventBase, incoming_ref, issue_synced, cache_replicated,
  IssueProvider, IssueSyncAction, bit, github, upsert, close, parse_relay_event, parse_base_event,
  parse_typed, parse_incoming_ref, parse_issue_synced, parse_cache_replicated, EventType,
  incoming_ref_type, issue_synced_type, cache_replicated_type, event_type_of, provider_of,
  action_of, as_string, as_finite_number, named, ◌>>=◌, or_error,
}

abbrev IsText : String → Type 0
IsText s = is_empty s ≡ false

-- Neither an infinity nor `NaN`.
abbrev IsFinite : Number → Type 0
IsFinite (Number.finite negative whole fraction) = Unit
IsFinite (Number.infinite negative) = ⊥
IsFinite Number.not_a_number = ⊥

abbrev pub IsBase : RelayEventBase → Type 0
IsBase b = IsText b.event_id × IsFinite b.occurred_at × IsText b.room × IsText b.source

-- Every text of the event is there, and every number is finite.
abbrev pub IsEvent : RelayEvent → Type 0
IsEvent (incoming_ref b ref target) = IsBase b × IsText ref × IsText target
IsEvent (issue_synced b provider action issue_id) = IsBase b × IsText issue_id
IsEvent (cache_replicated b key from_node to_node bytes) =
    IsBase b × IsText key × IsText from_node × IsText to_node × IsFinite bytes

abbrev provider_text : IssueProvider → String
provider_text bit = "bit"
provider_text github = "github"

abbrev action_text : IssueSyncAction → String
action_text upsert = "upsert"
action_text close = "close"

abbrev base_fields : RelayEventBase → Fields → Fields
base_fields b rest = field "event_id" (str b.event_id) (
    field "occurred_at" (num b.occurred_at)
      (field "room" (str b.room) (field "source" (str b.source) rest)))

-- The JSON form of an event.
abbrev pub wire : RelayEvent → Json
wire (incoming_ref b ref target) = obj (
    field "type" (str "incoming_ref")
      (base_fields b (field "ref" (str ref) (field "target" (str target) end))))
wire (issue_synced b provider action issue_id) = obj (
    field "type" (str "issue_synced") (
      base_fields b (
        field "provider" (str (provider_text provider))
          (field "action" (str (action_text action)) (field "issue_id" (str issue_id) end)))))
wire (cache_replicated b key from_node to_node bytes) = obj (
    field "type" (str "cache_replicated") (
      base_fields b (
        field "cache_key" (str key) (
          field "from_node" (str from_node)
            (field "to_node" (str to_node) (field "bytes" (num bytes) end))))))

-- An event whose texts are not empty and whose numbers are finite is read back from its JSON form.
pub parse_relay_event-wire : (e : RelayEvent) → IsEvent e → parse_relay_event (wire e) ≡ ok e
unfolding parse_relay_event parse_base_event parse_incoming_ref parse_issue_synced
    parse_cache_replicated prop event_type_of provider_of action_of
parse_relay_event-wire (incoming_ref b ref target) h = ground arith
parse_relay_event-wire (issue_synced b bit upsert issue_id) h = ground arith
parse_relay_event-wire (issue_synced b bit close issue_id) h = ground arith
parse_relay_event-wire (issue_synced b github upsert issue_id) h = ground arith
parse_relay_event-wire (issue_synced b github close issue_id) h = ground arith
parse_relay_event-wire (cache_replicated b key from_node to_node bytes) h = ground arith

as_string-IsText : (v : Option Json) (s : String) → as_string v ≡ some s → IsText s
as_string-IsText v s h = ground arith

as_number-IsFinite : (v : Option Json) (n : Number) → as_finite_number v ≡ some n → IsFinite n
as_number-IsFinite (some (num (Number.finite negative whole fraction))) n h = ground arith
as_number-IsFinite (some (num (Number.infinite negative))) n h = ground arith
as_number-IsFinite (some (num Number.not_a_number)) n h = ground arith
as_number-IsFinite v s h = ground arith

common-IsBase : (fs : Fields) (b : RelayEventBase) → parse_base_event fs ≡ ok b → IsBase b
unfolding parse_base_event
common-IsBase fs b h = grind (arith, as_string-IsText, as_number-IsFinite)

-- What a parser may return.
abbrev IsResult : ParseResult RelayEvent → Type 0
IsResult (ok e) = IsEvent e
IsResult (error reason) = Unit

identified-IsResult :
    (fs : Fields) (b : RelayEventBase) (provider : IssueProvider) (action : IssueSyncAction)
    → IsBase b
    → IsResult (
        or_error (as_string (prop "issue_id" fs)) "invalid issue_id" >>= λ issue_id.
        ok (issue_synced b provider action issue_id))
identified-IsResult fs b provider action h = grind (arith, as_string-IsText)

parse_typed-IsResult :
    (type : EventType) (fs : Fields) (b : RelayEventBase)
    → IsBase b
    → IsResult (parse_typed type fs b)
unfolding parse_incoming_ref parse_issue_synced parse_cache_replicated
parse_typed-IsResult incoming_ref_type fs b h = grind (arith, as_string-IsText, as_number-IsFinite)
parse_typed-IsResult issue_synced_type fs b h =
    elim (Option-cases (named provider_of (prop "provider" fs))) [
      | inl e ↦ rw e tt
      | inr (provider, e) ↦ elim (Option-cases (named action_of (prop "action" fs))) [
        | inl e' ↦ rw (e, e') tt
        | inr (action, e') ↦ rw (e, e') (identified-IsResult fs b provider action h)
      ]
    ]
parse_typed-IsResult cache_replicated_type fs b h =
    grind (arith, as_string-IsText, as_number-IsFinite)

based-IsResult :
    (type : EventType) (fs : Fields) (base : ParseResult RelayEventBase)
    → parse_base_event fs ≡ base
    → IsResult (base >>= parse_typed type fs)
based-IsResult type fs (ok b) e = parse_typed-IsResult type fs b (common-IsBase fs b e)
based-IsResult type fs (error reason) e = tt

fields-IsResult : (fs : Fields) → IsResult (parse_relay_event (obj fs))
unfolding parse_relay_event
fields-IsResult fs = elim (Option-cases (named event_type_of (prop "type" fs))) [
  | inl e ↦ rw e tt
  | inr (type, e) ↦ rw e (based-IsResult type fs (parse_base_event fs) refl)
]

input-IsResult : (input : Json) → IsResult (parse_relay_event input)
unfolding parse_relay_event
input-IsResult (obj fs) = fields-IsResult fs
input-IsResult null = tt
input-IsResult (bool b) = tt
input-IsResult (num n) = tt
input-IsResult (str s) = tt
input-IsResult (arr vs) = tt

-- Every event that `parseRelayEvent` returns has no empty text, and no number in it is `NaN` or
-- infinite.
pub parse_relay_event-IsEvent :
    (input : Json) (e : RelayEvent) → parse_relay_event input ≡ ok e → IsEvent e
parse_relay_event-IsEvent input e h = subst IsResult h (input-IsResult input)
