-- ===== src/RepositoryAffinity.antt =====
-- src/repository_affinity.ts: whether a peer relay serves the same repository. The parsing of URLs and
-- lower-casing are the platform's, and a git command is a parameter.
pub mod Agreement
use Prim.Native.Char.{code}
use Prim.Native.String
use bit_relay.Prelude.{
  ℕ, zero, suc, max, leb, ◌==◌, Bool, true, false, not, ◌&&◌, ◌||◌, List, [], ◌∷◌, ◌++◌, map, any,
  length, Option, none, some, String, str_eq, if◌then◌else◌,
}
use bit_relay.Text.{trim, is_empty, is_space, is_alnum, is_digit, is_mark, every_char, utf16_length}
use bit_relay.Text.Edit.{strip_text, before, contains}
use bit_relay.Json.{Number, Json, str, arr, obj, Items, items, Fields, prop, as_record}
use bit_relay.Http.{or_default}
use bit_relay.Room.{includes, array_items}

pub record RepositoryDescriptor : Type 0 where
  pub host : Option String
  pub owner : Option String
  pub name : String

pub record RelayRepositoryIdentity : Type 0 where
  pub repo_id : Option String
  pub owner : Option String
  pub name : Option String
  pub recent_commits : List String

pub data Reason : Type 0 where
  exact_repo_id recent_commit_overlap repository_name_mismatch peer_repository_unknown : Reason
  no_recent_fast_forward local_repository_unknown : Reason

pub record Decision : Type 0 where
  pub compatible : Bool
  pub reason : Reason

-- `new URL(raw)`: its host name and path, `none` where it throws.
pub record Texts : Type 0 where
  pub to_lower_case : String → String
  pub parse_url : String → Option (String × String)

infixl 5 ◌>>=◌
abbrev pub ◌>>=◌ : {A B : Type 0} → Option A → (A → Option B) → Option B
none >>= k = none
some a >>= k = k a

unfoldable pub normalize_optional_string : Option String → Option String
unfolding trim
normalize_optional_string none = none
normalize_optional_string (some raw) = if is_empty (trim raw) then none else some (trim raw)

-- COMMIT_HASH_PATTERN on a text in lower case.
abbrev is_hex : ℕ → Bool
is_hex c = is_digit c || (leb b'a' c && leb c b'f')

abbrev pub is_commit_hash : String → Bool
unfolding every_char utf16_length
is_commit_hash s = every_char is_hex s && leb 7 (utf16_length s) && leb (utf16_length s) 40

unfoldable pub normalize_commit_window : Option Number → ℕ
normalize_commit_window (some (Number.finite false zero zero)) = 30
normalize_commit_window (some (Number.finite false whole fraction)) = max 1 whole
normalize_commit_window _ = 30

-- What follows the first mark.
unfoldable pub after : ℕ → String → Option String
after mark String.[] = none
after mark (String.◌∷◌ c s) = let rest = after mark s in if code c == mark then some s else rest

abbrev is_some : Option String → Bool
is_some none = false
is_some (some s) = true

abbrev pub push_char : String → List String → List String
push_char c [] = c ∷ []
push_char c (s ∷ ss) = String.◌++◌ c s ∷ ss

-- `split`, on the characters that a test names.
unfoldable pub split_where : (ℕ → Bool) → String → List String
split_where mark String.[] = String.[] ∷ []
split_where mark (String.◌∷◌ c s) =
    let rest = split_where mark s in
    if mark (code c) then String.[] ∷ rest else push_char (String.◌∷◌ c String.[]) rest

abbrev pub filled_only : List String → List String
filled_only [] = []
filled_only (s ∷ ss) = if is_empty s then filled_only ss else s ∷ filled_only ss

-- `endsWith('.git') ? slice(0, -4)`
unfoldable pub drop_git : String → String
drop_git String.[] = String.[]
drop_git (String.◌∷◌ c s) =
    let rest = drop_git s in if str_eq (String.◌∷◌ c s) ".git" then String.[] else String.◌∷◌ c rest

-- The last segment, and the one before it.
unfoldable pub last_two : List String → Option (Option String × String)
last_two [] = none
last_two (s ∷ []) = some (none, s)
last_two (s ∷ t ∷ []) = some (some s, t)
last_two (s ∷ t ∷ u ∷ ss) = last_two (t ∷ u ∷ ss)

abbrev pub is_line_end : ℕ → Bool
is_line_end c = (c == 10) || (c == 13) || (c == 0x2028) || (c == 0x2029)

module _ (x : Texts) where
  unfoldable pub normalize_token : Option String → Option String
  unfolding normalize_optional_string every_char
  normalize_token raw = normalize_optional_string raw >>= λ value.
      if every_char (λ c. is_alnum c || is_mark c) value then some (x.to_lower_case value) else none

  abbrev known_prefix : String → Bool
  known_prefix s = str_eq s "github" || str_eq s "gitlab" || str_eq s "repo"

  unfoldable pub strip_known_prefix : String → String
  unfolding contains strip_text before after trim
  strip_known_prefix raw =
      if contains "://" raw || is_some (strip_text "git@" raw) || is_empty (before b':' raw)
      then raw
      else if known_prefix (x.to_lower_case (trim (before b':' raw)))
      then or_default (after b':' raw) raw
      else raw

  -- Slashes at both ends and empty segments are left out.
  unfoldable pub parse_owner_and_name : String → Option (Option String × String)
  unfolding trim split_where last_two drop_git normalize_token
  parse_owner_and_name path =
      last_two (filled_only (split_where (λ c. c == b'/') (trim path))) >>= λ segments.
      normalize_token (some (drop_git segments.1)) >>= λ name.
      some (normalize_token segments.0, name)

  -- /^[^@]+@([^:]+):(.+)$/
  unfoldable pub parse_scp_like : String → Option (Option String × String)
  unfolding before after every_char trim normalize_token
  parse_scp_like raw = after b'@' raw >>= λ rest. after b':' rest >>= λ path.
      if is_empty (before b'@' raw)
        || is_empty (before b':' rest)
        || is_empty path
        || not (every_char (λ c. not (is_line_end c)) path)
        || is_empty (trim path)
      then none
      else some (normalize_token (some (before b':' rest)), trim path)

  abbrev parse_as_url : String → Option (Option String × String)
  unfolding normalize_token
  parse_as_url raw = x.parse_url raw >>= λ url. some (normalize_token (some url.0), url.1)

  abbrev pub descriptor_of : (host : Option String) → String → Option RepositoryDescriptor
  unfolding parse_owner_and_name
  descriptor_of host path = parse_owner_and_name path >>= λ parsed.
      some (record { host = host; owner = parsed.0; name = parsed.1 })

  abbrev pub first_form :
      Option (Option String × String)
      → Option (Option String × String)
      → String
      → Option RepositoryDescriptor
  unfolding descriptor_of
  first_form (some (host, path)) url stripped = descriptor_of host path
  first_form none (some (host, path)) stripped = descriptor_of host path
  first_form none none stripped = descriptor_of none stripped

  unfoldable pub parse_repository_descriptor : String → Option RepositoryDescriptor
  unfolding normalize_optional_string strip_known_prefix parse_scp_like parse_as_url first_form
  parse_repository_descriptor raw = normalize_optional_string (some raw) >>= λ trimmed.
      let stripped = strip_known_prefix trimmed in
      first_form (parse_scp_like stripped) (parse_as_url stripped) stripped

  abbrev pub id_of_descriptor : RepositoryDescriptor → String
  id_of_descriptor d = elim d.owner [
    | none ↦ d.name
    | some owner ↦ String.◌++◌ owner (String.◌++◌ "/" d.name)
  ]

  unfoldable pub normalize_repository_id : Option String → Option String
  unfolding parse_repository_descriptor
  normalize_repository_id raw =
      parse_repository_descriptor (or_default raw "") >>= λ d. some (id_of_descriptor d)

  -- The loop, with the commits so far; it ends where there are `limit` of them.
  unfoldable pub normalize_commit_hashes :
      (limit : ℕ) → List String → (out : List String) → List String
  unfolding normalize_optional_string is_commit_hash
  normalize_commit_hashes limit [] out = out
  normalize_commit_hashes limit (entry ∷ raw) out =
      let hash = x.to_lower_case (or_default (normalize_optional_string (some entry)) "") in
      let longer = out ++ hash ∷ [] in
      let passed = normalize_commit_hashes limit raw out in
      let more = normalize_commit_hashes limit raw longer in
      if not (is_commit_hash hash) || includes out hash
      then passed
      else if leb limit (length longer)
      then longer
      else more

  unfoldable pub has_recent_fast_forward_like_overlap : (local peer : List String) → Bool
  has_recent_fast_forward_like_overlap [] peer = false
  has_recent_fast_forward_like_overlap (l ∷ ls) [] = false
  has_recent_fast_forward_like_overlap (l ∷ ls) (q ∷ qs) =
      let local_set = map x.to_lower_case (l ∷ ls) in
      let peer_set = map x.to_lower_case (q ∷ qs) in
      includes peer_set (x.to_lower_case l)
      || includes local_set (x.to_lower_case q)
      || any (λ commit. includes peer_set commit) local_set

  abbrev pub ids_equal : (local peer : Option String) → Bool
  ids_equal (some a) (some b) = not (is_empty a) && str_eq a b
  ids_equal _ _ = false

  unfoldable pub decide_named :
      (local peer : RelayRepositoryIdentity) → (local_name peer_name : String) → Decision
  unfolding normalize_repository_id has_recent_fast_forward_like_overlap
  decide_named local peer local_name peer_name =
      if not (str_eq local_name peer_name)
      then record { compatible = false; reason = repository_name_mismatch }
      else if ids_equal (normalize_repository_id local.repo_id)
          (normalize_repository_id peer.repo_id)
      then record { compatible = true; reason = exact_repo_id }
      else if has_recent_fast_forward_like_overlap local.recent_commits peer.recent_commits
      then record { compatible = true; reason = recent_commit_overlap }
      else record { compatible = false; reason = no_recent_fast_forward }

  -- A name that is missing or empty is unknown.
  abbrev pub known : Option String → Option String
  known none = none
  known (some s) = if is_empty s then none else some s

  abbrev pub name_of : Option RelayRepositoryIdentity → Option String
  name_of none = none
  name_of (some r) = known r.name

  abbrev pub decide_peer :
      (peer_name : Option String)
      → RelayRepositoryIdentity
      → Option RelayRepositoryIdentity
      → (local_name : String) → Decision
  unfolding decide_named
  decide_peer (some peer_name) local (some peer) local_name =
      decide_named local peer local_name peer_name
  decide_peer _ local _ local_name = record { compatible = false; reason = peer_repository_unknown }

  abbrev pub decide_local :
      (local_name : Option String)
      → RelayRepositoryIdentity
      → Option RelayRepositoryIdentity
      → Decision
  unfolding decide_peer
  decide_local none local peer = record { compatible = true; reason = local_repository_unknown }
  decide_local (some local_name) local peer = decide_peer (name_of peer) local peer local_name

  unfoldable pub decide_repository_compatibility :
      RelayRepositoryIdentity → Option RelayRepositoryIdentity → Decision
  unfolding decide_local
  decide_repository_compatibility local peer = decide_local (known local.name) local peer

  -- parseRecentCommits: what is no text is passed over.
  abbrev texts_of : List Json → List String
  texts_of [] = []
  texts_of (str s ∷ vs) = s ∷ texts_of vs
  texts_of (_ ∷ vs) = texts_of vs

  unfoldable pub parse_recent_commits : Option Json → (limit : ℕ) → List String
  unfolding normalize_commit_hashes
  parse_recent_commits value limit = normalize_commit_hashes limit (texts_of (array_items value)) []

  abbrev as_string : Option Json → Option String
  as_string (some (str s)) = some s
  as_string _ = none

  -- `asObject(body.repository) ?? body`
  abbrev container_of : Option Json → Fields → Fields
  container_of (some (obj fs)) body = fs
  container_of _ body = body

  infixr 4 ◌<|>◌
  abbrev ◌<|>◌ : {A : Type 0} → Option A → Option A → Option A
  none <|> other = other
  some a <|> other = some a

  abbrev owner_of : Option RepositoryDescriptor → Option String
  owner_of none = none
  owner_of (some d) = d.owner

  abbrev name_of_descriptor : Option RepositoryDescriptor → Option String
  name_of_descriptor none = none
  name_of_descriptor (some d) = some d.name

  -- parseRepoNameFromRepoId
  abbrev from_repo_id : Option String → Option RepositoryDescriptor
  unfolding parse_repository_descriptor
  from_repo_id repo_id = repo_id >>= parse_repository_descriptor

  abbrev is_missing : {A : Type 0} → Option A → Bool
  is_missing none = true
  is_missing (some a) = false

  abbrev unless_empty : RelayRepositoryIdentity → Option RelayRepositoryIdentity
  unless_empty r =
      if is_missing r.repo_id
        && is_missing r.owner
        && is_missing r.name
        && (length r.recent_commits == 0)
      then none
      else some r

  unfoldable pub parse_repository_from_discovery_body :
      Fields → (commit_window : Option Number) → Option RelayRepositoryIdentity
  unfolding prop normalize_repository_id normalize_token parse_recent_commits
      normalize_commit_window from_repo_id
  parse_repository_from_discovery_body body commit_window =
      let fs = container_of (prop "repository" body) body in
      let repo_id = normalize_repository_id (as_string (prop "repo_id" fs)) in
      let from_id = from_repo_id repo_id in
      unless_empty (record {
        repo_id = repo_id;
        owner = normalize_token (as_string (prop "owner" fs)) <|> owner_of from_id;
        name = normalize_token (as_string (prop "name" fs)) <|> name_of_descriptor from_id;
        recent_commits =
            parse_recent_commits (prop "recent_commits" fs) (normalize_commit_window commit_window);
      })
