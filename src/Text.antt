-- ===== src/Text.antt =====
-- The string operations of the language that the relay uses: `trim`, character classes, lengths.
pub mod Edit
use Prim.Native.Char.{code}
use Prim.Native.String.{[], String}
use mathlib.Core.Option
use bit_relay.Prelude.{
  arith, ◌↔◌, [], ◌∷◌, ◌*◌, ◌-◌, none, Option, some, List, ℕ, ◌≡◌, refl, Bool, true, false, ◌&&◌,
  ◌||◌, leb, ltb, ◌+◌, ◌==◌, if◌then◌else◌, str_eq,
}

-- The white space and line terminators that `String.prototype.trim` strips.
abbrev pub is_space : ℕ → Bool
is_space c =
    (leb 9 c && leb c 13)
    || (c == 32)
    || (c == 0xa0)
    || (c == 0x1680)
    || (leb 0x2000 c && leb c 0x200a)
    || (c == 0x2028)
    || (c == 0x2029)
    || (c == 0x202f)
    || (c == 0x205f)
    || (c == 0x3000)
    || (c == 0xfeff)

unfoldable pub trim_start : String → String
trim_start String.[] = String.[]
trim_start (String.◌∷◌ c s) =
    let rest = trim_start s in if is_space (code c) then rest else String.◌∷◌ c s

unfoldable pub trim_end : String → String
trim_end String.[] = String.[]
trim_end (String.◌∷◌ c s) =
    let rest = trim_end s in
    if str_eq rest "" && is_space (code c) then String.[] else String.◌∷◌ c rest

unfoldable pub trim : String → String
unfolding trim_start trim_end
trim s = trim_end (trim_start s)

abbrev pub is_empty : String → Bool
is_empty String.[] = true
is_empty (String.◌∷◌ c s) = false

-- `length`: the number of UTF-16 code units.
unfoldable pub utf16_length : String → ℕ
utf16_length String.[] = 0
utf16_length (String.◌∷◌ c s) = (if ltb 0xffff (code c) then 2 else 1) + utf16_length s

unfoldable pub every_char : (ℕ → Bool) → String → Bool
every_char p String.[] = true
every_char p (String.◌∷◌ c s) = p (code c) && every_char p s

abbrev pub is_lower : ℕ → Bool
is_lower c = leb b'a' c && leb c b'z'

abbrev pub is_upper : ℕ → Bool
is_upper c = leb b'A' c && leb c b'Z'

abbrev pub is_digit : ℕ → Bool
is_digit c = leb b'0' c && leb c b'9'

abbrev pub is_alnum : ℕ → Bool
is_alnum c = is_lower c || is_upper c || is_digit c

-- The class [._-].
abbrev pub is_mark : ℕ → Bool
is_mark c = (c == b'.') || (c == b'_') || (c == b'-')

-- /^[first][rest]{0,most}$/
unfoldable pub matches_name : (ℕ → Bool) → (ℕ → Bool) → ℕ → String → Bool
unfolding utf16_length every_char
matches_name first rest most String.[] = false
matches_name first rest most (String.◌∷◌ c s) =
    first (code c) && every_char rest s && leb (utf16_length s) most

trim_test : trim " \t a b \n" ≡ "a b"
unfolding trim
trim_test = refl

-- The code points of a text.
unfoldable pub chars : String → List ℕ
chars String.[] = []
chars (String.◌∷◌ c s) = code c ∷ chars s

abbrev shift_in : Option ℕ → ℕ → ℕ
shift_in none digit = digit
shift_in (some n) digit = n * 10 + digit

-- `Number.parseInt(s, 10)` on the digits, with the value read so far.
unfoldable pub parse_digits : Option ℕ → String → Option ℕ
parse_digits read String.[] = read
parse_digits read (String.◌∷◌ c s) =
    let digit = code c - b'0' in
    let rest = parse_digits (some (shift_in read digit)) s in
    if is_digit (code c) then rest else read

abbrev parse_sign : String → Option (Bool × ℕ)
parse_sign String.[] = none
parse_sign (String.◌∷◌ c s) =
    if code c == b'-'
    then Option.map (λ n. (true, n)) (parse_digits none s)
    else if code c == b'+'
    then Option.map (λ n. (false, n)) (parse_digits none s)
    else Option.map (λ n. (false, n)) (parse_digits none (String.◌∷◌ c s))

-- `Number.parseInt(s, 10)`: the sign and the magnitude, `none` for `NaN`.
unfoldable pub parse_int : String → Option (Bool × ℕ)
unfolding trim_start parse_digits
parse_int s = parse_sign (trim_start s)

parse_int_test : parse_int " 120s" ≡ some (false, 120)
unfolding parse_int
parse_int_test = refl

-- `===` on texts.
unfoldable pub same : List ℕ → List ℕ → Bool
same [] [] = true
same (x ∷ xs) (y ∷ ys) = (x == y) && same xs ys
same _ _ = false

pub same_iff : (xs ys : List ℕ) → (same xs ys ≡ true) ↔ (xs ≡ ys)
unfolding same
same_iff [] [] = (λ h. refl, λ h. refl)
same_iff [] (y ∷ ys) = ground arith
same_iff (x ∷ xs) [] = ground arith
same_iff (x ∷ xs) (y ∷ ys) = ground (arith, same_iff xs ys)

-- `indexOf` and `splice(index, 1)`.
unfoldable pub remove_first : String → List String → List String
remove_first id [] = []
remove_first id (x ∷ xs) = let rest = remove_first id xs in if str_eq x id then xs else x ∷ rest
