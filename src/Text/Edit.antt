-- ===== src/Text/Edit.antt =====
-- String operations that cut and rewrite: `slice` after a prefix, `split(c)[0]` and `replaceAll`.
use Prim.Native.Char.{code}
use Prim.Native.String
use Prim.Native.String.{[], String}
use bit_relay.Prelude.{
  ℕ, Bool, true, false, ◌||◌, ◌+◌, Option, none, some, if◌then◌else◌, ltb, ◌==◌,
}
use bit_relay.Text.{is_upper, is_space}

-- What follows a prefix, where a text starts with it.
unfoldable pub strip_text : String → String → Option String
strip_text String.[] s = some s
strip_text (String.◌∷◌ p ps) String.[] = none
strip_text (String.◌∷◌ p ps) (String.◌∷◌ c cs) =
    let rest = strip_text ps cs in if code p == code c then rest else none

abbrev lower : ℕ → ℕ
lower c = if is_upper c then c + 32 else c

-- The same for a pattern in lower case with the flag `i`.
unfoldable pub strip_any_case : String → String → Option String
strip_any_case String.[] s = some s
strip_any_case (String.◌∷◌ p ps) String.[] = none
strip_any_case (String.◌∷◌ p ps) (String.◌∷◌ c cs) =
    let rest = strip_any_case ps cs in if code p == lower (code c) then rest else none

abbrev pub starts_with_space : String → Bool
starts_with_space String.[] = false
starts_with_space (String.◌∷◌ c s) = is_space (code c)

-- `s.split(c)[0]`
unfoldable pub before : ℕ → String → String
before mark String.[] = String.[]
before mark (String.◌∷◌ c s) =
    let rest = before mark s in if code c == mark then String.[] else String.◌∷◌ c rest

-- `s.replaceAll(/[class]/g, replacement)`, once for each UTF-16 unit.
unfoldable pub replace_where : (ℕ → Bool) → String → String → String
replace_where in_class replacement String.[] = String.[]
replace_where in_class replacement (String.◌∷◌ c s) =
    let rest = replace_where in_class replacement s in
    if in_class (code c)
    then String.◌++◌ replacement
        (if ltb 0xffff (code c) then String.◌++◌ replacement rest else rest)
    else String.◌∷◌ c rest

abbrev is_some_text : Option String → Bool
is_some_text none = false
is_some_text (some rest) = true

-- `s.includes(part)`
unfoldable pub contains : String → String → Bool
unfolding strip_text
contains part String.[] = is_some_text (strip_text part String.[])
contains part (String.◌∷◌ c s) = is_some_text (strip_text part (String.◌∷◌ c s)) || contains part s
