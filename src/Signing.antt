-- ===== src/Signing.antt =====
-- src/signing.ts: the canonical text of a JSON value and the texts that a client signs, as code
-- points. The hash, the signature check and the printing of numbers are the platform's.
pub mod Separation
use bit_relay.Prelude.{
  ℕ, ◌+◌, ◌-◌, ◌/◌, ◌%◌, ◌<◌, zero, suc, Bool, true, false, ◌&&◌, ◌||◌, not, List, [], ◌∷◌, ◌++◌,
  map, Option, none, some, String, if◌then◌else◌, ltb, leb, ◌==◌, length,
}
use bit_relay.Text.{chars, is_alnum, every_char, is_empty}
use bit_relay.Json.{
  Number, Json, null, bool, num, str, arr, obj, Items, nil, cons, Fields, end, field,
}

-- /^[A-Za-z0-9_-]+$/
unfoldable pub is_likely_base64_url : String → Bool
unfolding every_char
is_likely_base64_url value =
    not (is_empty value) && every_char (λ c. is_alnum c || (c == b'_') || (c == b'-')) value

abbrev hex_digit : ℕ → ℕ
hex_digit d = if ltb d 10 then b'0' + d else b'a' + (d - 10)

abbrev quote_char : ℕ → List ℕ
quote_char c =
    if (c == b'"') || (c == 0x5c)
    then 0x5c ∷ c ∷ []
    else if c == 8
    then 0x5c ∷ b'b' ∷ []
    else if c == 9
    then 0x5c ∷ b't' ∷ []
    else if c == 10
    then 0x5c ∷ b'n' ∷ []
    else if c == 12
    then 0x5c ∷ b'f' ∷ []
    else if c == 13
    then 0x5c ∷ b'r' ∷ []
    else if ltb c 32
    then 0x5c ∷ b'u' ∷ b'0' ∷ b'0' ∷ hex_digit (c / 16) ∷ hex_digit (c % 16) ∷ []
    else c ∷ []

unfoldable pub quote_chars : List ℕ → List ℕ
quote_chars [] = []
quote_chars (c ∷ cs) = quote_char c ++ quote_chars cs

-- `JSON.stringify` of a string.
abbrev pub quote : String → List ℕ
quote s = b'"' ∷ (quote_chars (chars s) ++ b'"' ∷ [])

-- The UTF-16 code units by which `Array.prototype.sort` compares.
abbrev units : List ℕ → List ℕ
units [] = []
units (c ∷ cs) =
    if ltb 0xffff c
    then (0xd800 + (c - 0x10000) / 1024) ∷ (0xdc00 + (c - 0x10000) % 1024) ∷ units cs
    else c ∷ units cs

abbrev units_le : List ℕ → List ℕ → Bool
units_le [] ys = true
units_le (x ∷ xs) [] = false
units_le (x ∷ xs) (y ∷ ys) = ltb x y || ((x == y) && units_le xs ys)

-- A member of an object: its key, and the text `"key":value`.
abbrev Member : Type 0
Member = String × List ℕ

unfoldable pub insert_member : Member → List Member → List Member
insert_member m [] = m ∷ []
insert_member (k, t) ((j, u) ∷ ms) =
    let later = insert_member (k, t) ms in
    if units_le (units (chars k)) (units (chars j)) then (k, t) ∷ (j, u) ∷ ms else (j, u) ∷ later

unfoldable pub sort_members : List Member → List Member
sort_members [] = []
sort_members (m ∷ ms) = insert_member m (sort_members ms)

-- `Array.prototype.join`.
unfoldable pub join : List ℕ → List (List ℕ) → List ℕ
join sep [] = []
join sep (p ∷ []) = p
join sep (p ∷ q ∷ ps) = p ++ (sep ++ join sep (q ∷ ps))

module _ (number_text : Number → List ℕ) where
  unfoldable mutual
    unfolding join sort_members insert_member

    pub canonicalize_json : Json → List ℕ
    canonicalize_json null = chars "null"
    canonicalize_json (bool true) = chars "true"
    canonicalize_json (bool false) = chars "false"
    canonicalize_json (num n) = number_text n
    canonicalize_json (str s) = quote s
    canonicalize_json (arr vs) = b'[' ∷ (join (b',' ∷ []) (canonical_items vs) ++ b']' ∷ [])
    canonicalize_json (obj fs) =
        b'{'
        ∷ (join (b',' ∷ []) (map (λ m. m.1) (sort_members (canonical_members fs))) ++ b'}' ∷ [])

    pub canonical_items : Items → List (List ℕ)
    canonical_items nil = []
    canonical_items (cons v vs) = canonicalize_json v ∷ canonical_items vs

    pub canonical_members : Fields → List Member
    canonical_members end = []
    canonical_members (field k v fs) =
        (k, quote k ++ (b':' ∷ canonicalize_json v)) ∷ canonical_members fs

-- A natural number in decimal, on fuel; the number itself is enough.
unfoldable pub decimal_from : ℕ → ℕ → List ℕ → List ℕ
decimal_from zero n text = (b'0' + n % 10) ∷ text
decimal_from (suc fuel) n text =
    let rest = decimal_from fuel (n / 10) ((b'0' + n % 10) ∷ text) in
    if ltb n 10 then (b'0' + n % 10) ∷ text else rest

abbrev pub decimal : ℕ → List ℕ
decimal n = decimal_from n n []

pub record PublishSigningInput : Type 0 where
  pub sender : String
  pub room : String
  pub id : String
  pub topic : String
  pub ts : ℕ
  pub nonce : String
  pub payload_hash : List ℕ

pub record ReviewSigningInput : Type 0 where
  pub sender : String
  pub room : String
  pub pr_id : String
  pub verdict : String
  pub ts : ℕ
  pub nonce : String

pub record RotateSigningInput : Type 0 where
  pub sender : String
  pub new_public_key : String
  pub ts : ℕ
  pub nonce : String

unfoldable pub build_publish_signing_message : PublishSigningInput → List ℕ
unfolding join chars decimal_from
build_publish_signing_message input = join (10 ∷ []) (
    chars "v1"
    ∷ (chars "sender=" ++ chars input.sender)
    ∷ (chars "room=" ++ chars input.room)
    ∷ (chars "id=" ++ chars input.id)
    ∷ (chars "topic=" ++ chars input.topic)
    ∷ (chars "ts=" ++ decimal input.ts)
    ∷ (chars "nonce=" ++ chars input.nonce)
    ∷ (chars "payload_sha256=" ++ input.payload_hash)
    ∷ [])

unfoldable pub build_review_signing_message : ReviewSigningInput → List ℕ
unfolding join chars decimal_from
build_review_signing_message input = join (10 ∷ []) (
    chars "v1"
    ∷ chars "op=review"
    ∷ (chars "sender=" ++ chars input.sender)
    ∷ (chars "room=" ++ chars input.room)
    ∷ (chars "pr_id=" ++ chars input.pr_id)
    ∷ (chars "verdict=" ++ chars input.verdict)
    ∷ (chars "ts=" ++ decimal input.ts)
    ∷ (chars "nonce=" ++ chars input.nonce)
    ∷ [])

unfoldable pub build_rotate_signing_message : RotateSigningInput → List ℕ
unfolding join chars decimal_from
build_rotate_signing_message input = join (10 ∷ []) (
    chars "v1"
    ∷ chars "op=rotate"
    ∷ (chars "sender=" ++ chars input.sender)
    ∷ (chars "new_public_key=" ++ chars input.new_public_key)
    ∷ (chars "ts=" ++ decimal input.ts)
    ∷ (chars "nonce=" ++ chars input.nonce)
    ∷ [])
