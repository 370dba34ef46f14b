-- ===== src/GitRefs.antt =====
-- The texts of the Git serve session (src/git_serve_session.ts): the refs named in a push, pkt-lines
-- and the replies to a push that the agent's Git refuses. Texts are lists of code points. The
-- platform's `URLSearchParams.get` is a parameter.
pub mod Extract
use bit_relay.Prelude.{
  ℕ, ◌+◌, ◌-◌, ◌*◌, ◌/◌, ◌%◌, zero, suc, Bool, true, false, not, ◌&&◌, ◌||◌, List, [], ◌∷◌, ◌++◌,
  Option, none, some, if◌then◌else◌, ltb, leb, ◌==◌, length, any, all,
}
use bit_relay.Text.{chars, is_alnum, same}

-- [A-Za-z0-9._/-]
abbrev pub is_ref_char : ℕ → Bool
is_ref_char c = is_alnum c || (c == b'.') || (c == b'_') || (c == b'/') || (c == b'-')

-- What follows a prefix, where a text starts with it.
unfoldable pub strip_prefix : List ℕ → List ℕ → Option (List ℕ)
strip_prefix [] text = some text
strip_prefix (p ∷ ps) [] = none
strip_prefix (p ∷ ps) (c ∷ cs) = let rest = strip_prefix ps cs in if p == c then rest else none

-- The longest run of at most `most` characters of the class.
unfoldable pub take_run : ℕ → List ℕ → List ℕ
take_run zero text = []
take_run (suc most) [] = []
take_run (suc most) (c ∷ cs) = let run = take_run most cs in if is_ref_char c then c ∷ run else []

abbrev pub with_prefix : List ℕ → List ℕ → Option (List ℕ)
with_prefix prefix [] = none
with_prefix prefix (c ∷ run) = some (prefix ++ c ∷ run)

abbrev pub match_after : List ℕ → Option (List ℕ) → Option (List ℕ)
match_after prefix none = none
match_after prefix (some rest) = with_prefix prefix (take_run 255 rest)

-- The match of `prefix[A-Za-z0-9._/-]{1,255}` at the start of a text.
abbrev pub match_at : List ℕ → List ℕ → Option (List ℕ)
match_at prefix text = match_after prefix (strip_prefix prefix text)

-- All matches, from the first character that the last match does not hold.
unfoldable pub match_all : ℕ → List ℕ → List ℕ → List (List ℕ)
unfolding strip_prefix take_run
match_all skip prefix [] = []
match_all (suc skip) prefix (c ∷ cs) = match_all skip prefix cs
match_all zero prefix (c ∷ cs) = elim (match_at prefix (c ∷ cs)) [
  | none ↦ match_all zero prefix cs
  | some ref ↦ ref ∷ match_all (length ref - 1) prefix cs
]

-- The loop over the matches, with the refs so far.
unfoldable pub dedupe : List (List ℕ) → List (List ℕ) → List (List ℕ)
unfolding same
dedupe refs [] = refs
dedupe refs (ref ∷ matches) =
    dedupe (if any (same ref) refs then refs else refs ++ ref ∷ []) matches

abbrev pub incoming_prefix : List ℕ
unfolding chars
incoming_prefix = chars "refs/relay/incoming/"

abbrev pub relay_prefix : List ℕ
unfolding chars
relay_prefix = chars "refs/"

unfoldable pub extract_incoming_refs : List ℕ → List (List ℕ)
unfolding match_all dedupe
extract_incoming_refs text = dedupe [] (match_all 0 incoming_prefix text)

unfoldable pub extract_all_relay_refs : List ℕ → List (List ℕ)
unfolding match_all dedupe
extract_all_relay_refs text = dedupe [] (match_all 0 relay_prefix text)

-- The length in UTF-8 bytes.
unfoldable pub utf8_length : List ℕ → ℕ
utf8_length [] = 0
utf8_length (c ∷ cs) =
    (if ltb c 0x80 then 1 else if ltb c 0x800 then 2 else if ltb c 0x10000 then 3 else 4)
    + utf8_length cs

abbrev pub hex_digit : ℕ → ℕ
hex_digit d = if ltb d 10 then b'0' + d else b'a' + (d - 10)

-- `toString(16)`, on fuel; the number itself is enough.
unfoldable pub hex_from : ℕ → ℕ → List ℕ → List ℕ
hex_from zero n text = hex_digit (n % 16) ∷ text
hex_from (suc fuel) n text =
    let rest = hex_from fuel (n / 16) (hex_digit (n % 16) ∷ text) in
    if ltb n 16 then hex_digit (n % 16) ∷ text else rest

-- `padStart(4, '0')`
abbrev pub pad_start : ℕ → List ℕ → List ℕ
pad_start zero text = text
pad_start (suc n) text = b'0' ∷ pad_start n text

unfoldable pub to_pkt_line : List ℕ → List ℕ
unfolding utf8_length hex_from
to_pkt_line payload =
    let n = utf8_length payload + 4 in
    let digits = hex_from n n [] in pad_start (4 - length digits) digits ++ payload

unfoldable pub build_receive_pack_advertisement_body : List ℕ
unfolding to_pkt_line chars
build_receive_pack_advertisement_body =
    let zero_oid = chars "0000000000000000000000000000000000000000" in
    let capabilities = chars "report-status report-status-v2 delete-refs ofs-delta atomic quiet" in
    let first_ref = zero_oid ++ chars " capabilities^{}" ++ 0 ∷ capabilities ++ 10 ∷ [] in
    to_pkt_line (chars "# service=git-receive-pack" ++ 10 ∷ [])
    ++ chars "0000"
    ++ to_pkt_line first_ref
    ++ chars "0000"

unfoldable pub ok_lines : List (List ℕ) → List ℕ
unfolding to_pkt_line chars
ok_lines [] = []
ok_lines (ref ∷ refs) = to_pkt_line (chars "ok " ++ ref ++ 10 ∷ []) ++ ok_lines refs

unfoldable pub build_receive_pack_result_body : List (List ℕ) → List ℕ
unfolding ok_lines to_pkt_line chars
build_receive_pack_result_body incoming_refs =
    to_pkt_line (chars "unpack ok" ++ 10 ∷ []) ++ ok_lines incoming_refs ++ chars "0000"

-- The text before the first '?', and what follows it.
unfoldable pub until_mark : List ℕ → List ℕ
until_mark [] = []
until_mark (c ∷ cs) = let rest = until_mark cs in if c == b'?' then [] else c ∷ rest

unfoldable pub after_mark : List ℕ → List ℕ
after_mark [] = []
after_mark (c ∷ cs) = let rest = after_mark cs in if c == b'?' then cs else rest

-- `pathWithQuery.split('?', 2)`
unfoldable pub split_path : List ℕ → List ℕ × List ℕ
unfolding until_mark after_mark
split_path path = (until_mark path, until_mark (after_mark path))

unfoldable pub is_receive_pack_rpc_path : List ℕ → Bool
unfolding split_path same chars
is_receive_pack_rpc_path path = same (split_path path).0 (chars "/git-receive-pack")

unfoldable pub starts_with_incoming : List ℕ → Bool
unfolding strip_prefix
starts_with_incoming ref = elim (strip_prefix incoming_prefix ref) [ none ↦ false | some _ ↦ true ]

unfoldable pub compat_accepts : List ℕ → (incoming_refs all_relay_refs : List (List ℕ)) → Bool
unfolding is_receive_pack_rpc_path starts_with_incoming
compat_accepts path incoming_refs all_relay_refs =
    is_receive_pack_rpc_path path
    && not (length incoming_refs == 0)
    && not (length all_relay_refs == 0)
    && all starts_with_incoming all_relay_refs

module _ (search_param : List ℕ → List ℕ → Option (List ℕ)) where
  abbrev is_service : Option (List ℕ) → Bool
  unfolding same chars
  is_service none = false
  is_service (some service) = same service (chars "git-receive-pack")

  unfoldable pub is_receive_pack_info_refs_path : List ℕ → Bool
  unfolding split_path same chars is_service
  is_receive_pack_info_refs_path path =
      let (pathname, search) = split_path path in
      same pathname (chars "/info/refs") && is_service (search_param search (chars "service"))
