-- ===== src/GitHub.antt =====
-- How a GitHub webhook becomes an envelope: the readers and builders of src/memory_handler.ts and
-- the `map` of applyGitHubWebhookDelivery.
pub mod Mapped
use Prim.Native.String
use bit_relay.Prelude.{
  ℕ, ◌==◌, leb, Bool, true, false, not, ◌&&◌, ◌||◌, Option, none, some, String, str_eq,
  if◌then◌else◌, all, length,
}
use bit_relay.Text.{trim, is_empty, chars, is_lower, is_digit, is_mark}
use bit_relay.Text.Edit.{strip_text, replace_where}
use bit_relay.Json.{
  Number, Json, num, str, Fields, end, field, prop, as_record, string_or_empty, obj,
}
use bit_relay.Http.{Platform, default_room}
use bit_relay.Room.{is_valid_room_name, is_valid_topic}
use bit_relay.IssueSync.{MappedEnvelope, MapInput, MapResult}

-- [a-fA-F0-9]
abbrev pub is_hex : ℕ → Bool
is_hex c = is_digit c || (leb b'a' c && leb c b'f') || (leb b'A' c && leb c b'F')

-- /^sha256=([a-fA-F0-9]{64})$/
unfoldable pub parse_github_signature_header : Platform → String → Option String
unfolding trim strip_text chars
parse_github_signature_header p value = elim (strip_text "sha256=" (trim value)) [
  | none ↦ none
  | some hex ↦
      if all is_hex (chars hex) && (length (chars hex) == 64)
      then some (p.to_lower_case hex)
      else none
]

unfoldable pub normalize_github_room_name : Option String → String
unfolding trim replace_where is_valid_room_name
normalize_github_room_name full_name = elim full_name [
  | none ↦ default_room
  | some name ↦
      let normalized = replace_where (λ c. c == b'/') "-" (trim name) in
      if is_valid_room_name normalized then normalized else default_room
]

-- A member that is an object, `none` where it is not.
abbrev pub object_at : String → Fields → Option Fields
unfolding prop
object_at key fs = elim (prop key fs) [ none ↦ none | some v ↦ as_record v ]

abbrev non_empty : String → Option String
non_empty s = if is_empty s then none else some s

unfoldable pub read_github_repository_full_name : Fields → Option String
unfolding prop trim
read_github_repository_full_name fs = elim (object_at "repository" fs) [
  | none ↦ none
  | some repository ↦ non_empty (trim (string_or_empty (prop "full_name" repository)))
]

-- `Math.trunc` of a finite number above 0, unless that is 0.
abbrev pub positive_whole : Option Json → Option ℕ
positive_whole (some (num (Number.finite false whole fraction))) =
    if whole == 0 then none else some whole
positive_whole _ = none

unfoldable pub read_github_issue_number : Fields → Option ℕ
unfolding prop
read_github_issue_number fs = elim (object_at "issue" fs) [
  | none ↦ none
  | some issue ↦ positive_whole (prop "number" issue)
]

-- `Math.trunc(epochMs)` where that is not below 0.
abbrev pub whole_at_least_zero : Number → Option ℕ
whole_at_least_zero (Number.finite false whole fraction) = some whole
whole_at_least_zero (Number.finite true whole fraction) = if whole == 0 then some 0 else none
whole_at_least_zero _ = none

unfoldable pub read_github_issue_updated_at_ms : Platform → Fields → Option ℕ
unfolding prop trim
read_github_issue_updated_at_ms p fs = elim (object_at "issue" fs) [
  | none ↦ none
  | some issue ↦
      let updated_at = trim (string_or_empty (prop "updated_at" issue)) in
      if is_empty updated_at then none else whole_at_least_zero (p.date_parse updated_at)
]

abbrev pub sender_of : Option Fields → String
unfolding prop trim
sender_of none = "github:webhook"
sender_of (some sender) =
    let login = trim (string_or_empty (prop "login" sender)) in
    if is_empty login then "github:webhook" else String.◌++◌ "github:" login

unfoldable pub read_github_sender : Fields → String
unfolding prop
read_github_sender fs = sender_of (object_at "sender" fs)

-- [^a-z0-9._-]
abbrev pub is_not_topic_char : ℕ → Bool
is_not_topic_char c = not (is_lower c || is_digit c || is_mark c)

abbrev pub if_valid_topic : String → Option String
unfolding is_valid_topic
if_valid_topic candidate = if is_valid_topic candidate then some candidate else none

abbrev pub topic_suffix : Platform → String → String
unfolding replace_where
topic_suffix p action = replace_where is_not_topic_char "_" (p.to_lower_case action)

abbrev pub issues_topic : Platform → String → Option String
issues_topic p action =
    if str_eq action "opened"
    then some "issue"
    else if str_eq action "reopened"
    then some "issue.reopened"
    else if str_eq action "edited"
    then some "issue.updated"
    else if str_eq action "closed"
    then some "issue.closed"
    else if str_eq action "labeled" || str_eq action "unlabeled"
    then some "issue.label"
    else if is_empty action
    then some "issue"
    else if_valid_topic (String.◌++◌ "issue." (topic_suffix p action))

unfoldable pub map_github_webhook_topic : Platform → (event action : String) → Option String
unfolding replace_where is_valid_topic
map_github_webhook_topic p event action =
    if str_eq event "issues"
    then issues_topic p action
    else if str_eq event "issue_comment"
    then if_valid_topic (
        String.◌++◌ "issue.comment."
          (topic_suffix p (if is_empty action then "created" else action)))
    else if str_eq event "label"
    then some "issue.label"
    else none

unfoldable pub build_github_issue_id :
    Platform → Option String → Option ℕ → (delivery_id : String) → String
build_github_issue_id p (some full_name) (some number) delivery_id =
    String.◌++◌ (if is_empty full_name then "issue" else full_name)
      (String.◌++◌ "#" (p.integer_text number))
build_github_issue_id p none (some number) delivery_id =
    String.◌++◌ "issue#" (p.integer_text number)
build_github_issue_id p full_name none delivery_id = String.◌++◌ "delivery:" delivery_id

-- `Math.trunc` of a number, 0 of anything else.
abbrev pub truncated : Option Json → Json
truncated (some (num (Number.finite negative whole fraction))) =
    num (Number.finite negative whole 0)
truncated (some (num n)) = num n
truncated _ = num (Number.finite false 0 0)

abbrev text_field : String → Fields → Fields → Fields
unfolding prop
text_field key fs rest = field key (str (string_or_empty (prop key fs))) rest

abbrev issue_member : Option Fields → Fields → Fields
unfolding prop
issue_member none rest = rest
issue_member (some issue) rest =
    field "issue"
      (obj (
        field "number" (truncated (prop "number" issue)) (
          text_field "title" issue (
            text_field "state" issue
              (text_field "html_url" issue (text_field "updated_at" issue end))))))
      rest

abbrev comment_member : Option Fields → Fields → Fields
unfolding prop
comment_member none rest = rest
comment_member (some comment) rest =
    field "comment"
      (obj (
        field "id" (truncated (prop "id" comment))
          (text_field "body" comment (text_field "html_url" comment end))))
      rest

abbrev label_member : Option Fields → Fields → Fields
unfolding prop
label_member none rest = rest
label_member (some label) rest =
    field "label" (obj (text_field "name" label (text_field "color" label end))) rest

abbrev or_no_text : Option String → String
or_no_text none = ""
or_no_text (some s) = s

-- The payload, with what `map` adds after it.
unfoldable pub build_github_issue_payload :
    (delivery_id event action issue_id : String) → Option String → Fields → Fields → Json
unfolding prop
build_github_issue_payload delivery_id event action issue_id full_name parsed more = obj (
    field "source" (str "github") (
      field "delivery_id" (str delivery_id) (
        field "event" (str event) (
          field "action" (str action) (
            field "issue_id" (str issue_id) (
              field "repository" (str (or_no_text full_name)) (
                issue_member (object_at "issue" parsed) (
                  comment_member (object_at "comment" parsed)
                    (label_member (object_at "label" parsed) more)))))))))

-- `envelopePayload.source_updated_at_ms = issueUpdatedAtMs`
abbrev updated_member : Option ℕ → Fields
updated_member none = end
updated_member (some ms) = field "source_updated_at_ms" (num (Number.finite false ms 0)) end

abbrev pub mapped_of : Platform → MapInput → (event action topic : String) → MappedEnvelope
unfolding read_github_repository_full_name normalize_github_room_name read_github_issue_number
    build_github_issue_id read_github_issue_updated_at_ms build_github_issue_payload
    read_github_sender
mapped_of p input event action topic =
    let full_name = read_github_repository_full_name input.parsed in
    let issue_id =
      build_github_issue_id p full_name (read_github_issue_number input.parsed) input.delivery_id in
    record {
      room = normalize_github_room_name full_name;
      sender = read_github_sender input.parsed;
      topic = topic;
      issue_id = issue_id;
      action = action;
      envelope_id = String.◌++◌ "gh-" input.delivery_id;
      payload =
          build_github_issue_payload input.delivery_id event action issue_id full_name input.parsed
            (updated_member (read_github_issue_updated_at_ms p input.parsed));
    }

abbrev pub unsupported : MapResult
unsupported = MapResult.error "unsupported github webhook event/action"

-- The `map` that applyGitHubWebhookDelivery passes for an event.
unfoldable pub map_delivery : Platform → (event : String) → MapInput → MapResult
unfolding prop trim map_github_webhook_topic is_valid_topic
map_delivery p event input =
    let action = p.to_lower_case (trim (string_or_empty (prop "action" input.parsed))) in
    elim (map_github_webhook_topic p event action) [
      | none ↦ unsupported
      | some topic ↦
          if is_valid_topic topic
          then MapResult.ok (mapped_of p input event action topic)
          else unsupported
    ]
