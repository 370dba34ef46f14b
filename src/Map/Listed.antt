-- ===== src/Map/Listed.antt =====
-- An object as JavaScript lists its properties, after one assignment for each entry of a map: the array
-- indices first, from the lowest, then the other names in the order of the assignments. An
-- assignment to `__proto__` makes no property.
use Prim.Native.Char.{code}
use Prim.Native.String.{String}
use bit_relay.Prelude.{
  ℕ, ◌+◌, ◌-◌, ◌*◌, ◌≡◌, ◌≢◌, refl, ap, ◌∙◌, Bool, true, false, [], ◌∷◌, Option, none, some, str_eq,
  eq_iff, eq_refl, ltb, ◌==◌, if◌then◌else◌, arith, All, Bool-cases, inl, inr,
}
use mathlib.Core.Option
use bit_relay.Map
use bit_relay.Map.{Map}
use bit_relay.Text.{is_digit, is_empty}

-- The value of a text of digits.
abbrev digits_value : ℕ → String → Option ℕ
digits_value n String.[] = some n
digits_value n (String.◌∷◌ c s) =
    let rest = digits_value (n * 10 + (code c - b'0')) s in if is_digit (code c) then rest else none

abbrev below_limit : Option ℕ → Option ℕ
below_limit none = none
below_limit (some n) = if ltb n 4294967295 then some n else none

-- The array index that a name is, written with no leading zero and below 2 ^ 32 - 1.
unfoldable pub index_of : String → Option ℕ
index_of String.[] = none
index_of (String.◌∷◌ c s) =
    let whole = below_limit (digits_value 0 (String.◌∷◌ c s)) in
    if code c == b'0' then if is_empty s then some 0 else none else whole

-- Whether a property that is assigned before another is listed before it.
abbrev pub stands_before : (index other : Option ℕ) → Bool
stands_before (some n) (some m) = ltb n m
stands_before (some n) none = true
stands_before none (some m) = false
stands_before none none = true

module _ {ℓ} {V : Type ℓ} where
  unfoldable pub place : String → V → Map V → Map V
  unfolding index_of
  place k v [] = (k, v) ∷ []
  place k v ((j, w) ∷ m) =
      let rest = place k v m in
      if stands_before (index_of k) (index_of j) then (k, v) ∷ (j, w) ∷ m else (j, w) ∷ rest

  unfoldable pub listed : Map V → Map V
  unfolding place
  listed [] = []
  listed ((k, v) ∷ m) = let rest = listed m in if str_eq k "__proto__" then rest else place k v rest

  -- No key is `__proto__`.
  abbrev pub IsOwn : Map V → Type ℓ
  IsOwn m = Map.get "__proto__" m ≡ none

  get-place :
      (k j : String) (v : V) (m : Map V)
      → Map.get k m ≡ none
      → Map.get j (place k v m) ≡ (if str_eq k j then some v else Map.get j m)
  unfolding place Map.get
  get-place k j v [] h = refl
  get-place k j v ((i, w) ∷ m) h = elim (Bool-cases (stands_before (index_of k) (index_of i))) [
    | inl before ↦ rw before refl
    | inr after ↦
        let absent : Map.get k m ≡ none = ground arith in
        rw after (ground (arith, get-place k j v m absent, eq_iff k j, eq_iff i j, eq_iff i k))
  ]

  place-Distinct :
      (k : String) (v : V) (m : Map V)
      → Map.get k m ≡ none
      → Map.Distinct m
      → Map.Distinct (place k v m)
  unfolding place Map.get
  place-Distinct k v [] h d = (refl, tt)
  place-Distinct k v ((i, w) ∷ m) h (new, d) =
      elim (Bool-cases (stands_before (index_of k) (index_of i))) [
        | inl before ↦ rw before (h, (new, d))
        | inr after ↦
            let absent : Map.get k m ≡ none = ground arith in
            rw after (
              ground (arith, get-place k i v m absent, eq_iff k i, eq_iff i k, new),
              place-Distinct k v m absent d,
            )
      ]

  -- A listed object has each entry but the one of `__proto__`.
  pub get-listed :
      (j : String) (m : Map V)
      → Map.Distinct m
      → Map.get j (listed m) ≡ (if str_eq j "__proto__" then none else Map.get j m)
  unfolding listed Map.get
  get-listed j [] d = ground arith
  get-listed j ((k, v) ∷ m) (new, d) =
      let here = get-listed k m d in
      let absent : Map.get k (listed m) ≡ none = ground arith in
      let placed = get-place k j v (listed m) absent in
      ground
        (arith, get-listed j m d, placed, eq_iff k j, eq_iff k "__proto__", eq_iff j "__proto__")

  pub get-listed_own :
      (j : String) (m : Map V) → Map.Distinct m → IsOwn m → Map.get j (listed m) ≡ Map.get j m
  get-listed_own j m d own = elim (Bool-cases (str_eq j "__proto__")) [
    | inl same ↦
        let none_there : Map.get j m ≡ none =
          ap (λ q. Map.get q m) ((eq_iff j "__proto__").0 same) ∙ own in
        get-listed j m d ∙ rw (same, none_there) refl
    | inr other ↦ get-listed j m d ∙ rw other refl
  ]

  pub listed-Distinct : (m : Map V) → Map.Distinct m → Map.Distinct (listed m)
  unfolding listed
  listed-Distinct [] d = tt
  listed-Distinct ((k, v) ∷ m) (new, d) = elim (Bool-cases (str_eq k "__proto__")) [
    | inl dropped ↦ rw dropped (listed-Distinct m d)
    | inr kept ↦
        let here = get-listed k m d in
        let absent : Map.get k (listed m) ≡ none = ground arith in
        rw kept (place-Distinct k v (listed m) absent (listed-Distinct m d))
  ]

  pub listed-filled : (m : Map V) → Map.Distinct m → IsOwn m → m ≢ [] → listed m ≢ []
  unfolding Map.get
  listed-filled [] d own filled e = filled refl
  listed-filled ((k, v) ∷ m) d own filled e =
      let there = get-listed_own k ((k, v) ∷ m) d own in
      let nothing : Map.get k (listed ((k, v) ∷ m)) ≡ none = ap (Map.get k) e in
      absurd (ground (arith, there, nothing, eq_refl k))

module _ {ℓ κ} {V : Type ℓ} (P : String × V → Type κ) where
  pub place-All : (k : String) (v : V) (m : Map V) → P (k, v) → All P m → All P (place k v m)
  unfolding place
  place-All k v [] p h = (p, tt)
  place-All k v ((j, w) ∷ m) p h = elim (Bool-cases (stands_before (index_of k) (index_of j))) [
    | inl before ↦ rw before (p, h)
    | inr after ↦ rw after (h.0, place-All k v m p h.1)
  ]

  pub listed-All : (m : Map V) → All P m → All P (listed m)
  unfolding listed
  listed-All [] h = tt
  listed-All ((k, v) ∷ m) h = elim (Bool-cases (str_eq k "__proto__")) [
    | inl dropped ↦ rw dropped (listed-All m h.1)
    | inr kept ↦ rw kept (place-All k v (listed m) h.0 (listed-All m h.1))
  ]

-- The entries of an object with each value replaced.
module _ {ℓ κ} {V : Type ℓ} {W : Type κ} (f : V → W) where
  abbrev pub map_values : Map V → Map W
  map_values [] = []
  map_values ((k, v) ∷ m) = (k, f v) ∷ map_values m

  pub get-map_values :
      (k : String) (m : Map V) → Map.get k (map_values m) ≡ Option.map f (Map.get k m)
  unfolding Map.get
  get-map_values k [] = refl
  get-map_values k ((j, v) ∷ m) = elim (Bool-cases (str_eq j k)) [
    | inl same ↦ rw same refl
    | inr other ↦ rw other (get-map_values k m)
  ]

  pub map_values-Distinct : (m : Map V) → Map.Distinct m → Map.Distinct (map_values m)
  map_values-Distinct [] d = tt
  map_values-Distinct ((k, v) ∷ m) (new, d) =
      (get-map_values k m ∙ ap (Option.map f) new, map_values-Distinct m d)

-- Both values are there and stand in a relation, or neither is.
abbrev pub Both {ℓ κ} : {V : Type ℓ} {W : Type κ} → (V → W → Type 0) → Option V → Option W → Type 0
Both R none none = Unit
Both R (some v) (some w) = R v w
Both R none (some w) = ⊥
Both R (some v) none = ⊥

-- Two maps that give the same for each key.
abbrev pub SameEntries {ℓ} : {V : Type ℓ} → Map V → Map V → Type ℓ
SameEntries m n = (k : String) → Map.get k m ≡ Map.get k n

pub get-Both {ℓ κ} :
    {V : Type ℓ} {W : Type κ} (R : V → W → Type 0) (f : V → W) (m : Map V) (k : String)
    → All (λ e. R e.1 (f e.1)) m
    → Both R (Map.get k m) (Option.map f (Map.get k m))
unfolding Map.get
get-Both R f [] k h = tt
get-Both R f ((j, v) ∷ m) k (here, h) = elim (Bool-cases (str_eq j k)) [
  | inl same ↦ rw same here
  | inr other ↦ rw other (get-Both R f m k h)
]

abbrev numbered : Map ℕ
numbered = ("b", 1) ∷ ("10", 2) ∷ ("a", 3) ∷ ("9", 4) ∷ ("__proto__", 5) ∷ ("09", 6) ∷ []

listed_test : listed numbered ≡ ("9", 4) ∷ ("10", 2) ∷ ("b", 1) ∷ ("a", 3) ∷ ("09", 6) ∷ []
unfolding listed index_of
listed_test = refl
