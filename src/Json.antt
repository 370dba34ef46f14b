-- ===== src/Json.antt =====
-- JSON values as the relay sees them after `JSON.parse`, and the reads of `unknown` values
-- (JsonValue and asRecord, asString, asFiniteNumber of src/contracts.ts; isObjectRecord of
-- src/memory_handler.ts). A number is its sign, whole part and fraction digits, rounding left out.
use bit_relay.Prelude.{
  ℕ, Bool, true, false, List, [], ◌∷◌, Option, none, some, String, if◌then◌else◌,
}
use bit_relay.Map
use bit_relay.Map.{Map}
use bit_relay.Text.{trim, is_empty}

pub data Number : Type 0 where
  finite : (negative : Bool) (whole fraction : ℕ) → Number
  infinite : (negative : Bool) → Number
  not_a_number : Number

mutual
  pub data Json : Type 0 where
    null : Json
    bool : Bool → Json
    num : Number → Json
    str : String → Json
    arr : Items → Json
    obj : Fields → Json

  pub data Items : Type 0 where
    nil : Items
    cons : Json → Items → Items

  pub data Fields : Type 0 where
    end : Fields
    field : String → Json → Fields → Fields

abbrev pub items : Items → List Json
items nil = []
items (cons v vs) = v ∷ items vs

abbrev pub entries : Fields → Map Json
entries end = []
entries (field k v fs) = (k, v) ∷ entries fs

-- A property read, `none` for `undefined`.
unfoldable pub prop : String → Fields → Option Json
unfolding Map.get
prop k fs = Map.get k (entries fs)

-- `isObjectRecord` and `asRecord`.
abbrev pub as_record : Json → Option Fields
as_record (obj fs) = some fs
as_record _ = none

-- `typeof value === 'string' ? value : ''`
abbrev pub string_or_empty : Option Json → String
string_or_empty (some (str s)) = s
string_or_empty _ = ""

-- `typeof value === 'string' && value.trim().length > 0 ? value.trim() : null`
unfoldable pub trimmed_string : Option Json → Option String
unfolding trim
trimmed_string (some (str s)) = if is_empty (trim s) then none else some (trim s)
trimmed_string _ = none

-- `Math.max(0, Math.trunc(value))` for a finite number.
abbrev pub trunc_at_zero : Bool → ℕ → ℕ
trunc_at_zero true whole = 0
trunc_at_zero false whole = whole
