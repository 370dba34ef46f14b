-- ===== src/Map/Newer.antt =====
-- How many entries of a map are newer than a key's.
use bit_relay.Prelude.{
  inr, inl, Bool-cases, ℕ, zero, suc, ◌+◌, ◌<◌, ◌≡◌, refl, true, [], ◌∷◌, ◌++◌, none, String,
  str_eq, eq_refl, arith, if◌then◌else◌, length, drop, length-append,
}
use bit_relay.Map
use bit_relay.Map.{Map}

module _ {ℓ} {V : Type ℓ} where
  unfoldable pub newer : String → Map V → ℕ
  newer id [] = 0
  newer id ((k, v) ∷ m) = if str_eq k id then length m else newer id m

  pub has-snoc :
      (id k : String) (v : V) (m : Map V)
      → Map.has id m ≡ true
      → Map.has id (m ++ (k, v) ∷ []) ≡ true
  unfolding Map.has Map.get
  has-snoc id k v [] h = absurd (ground arith)
  has-snoc id k v ((j, w) ∷ m) h = ground (arith, has-snoc id k v m)

  pub newer-snoc :
      (id k : String) (v : V) (m : Map V)
      → Map.has id m ≡ true
      → newer id (m ++ (k, v) ∷ []) ≡ newer id m + 1
  unfolding Map.has Map.get newer
  newer-snoc id k v [] h = absurd (ground arith)
  newer-snoc id k v ((j, w) ∷ m) h =
      ground (arith, newer-snoc id k v m, length-append m ((k, v) ∷ []))

  -- A key that was not there is the newest.
  pub newer-snoc_self :
      (id : String) (v : V) (m : Map V) → Map.get id m ≡ none → newer id (m ++ (id, v) ∷ []) ≡ 0
  unfolding Map.get newer
  newer-snoc_self id v [] h = ground (arith, eq_refl id)
  newer-snoc_self id v ((j, w) ∷ m) h = ground (arith, newer-snoc_self id v m)

  pub drop-newer :
      (n : ℕ) (id : String) (m : Map V)
      → Map.has id m ≡ true
      → n + newer id m < length m
      → (Map.has id (drop n m) ≡ true) × (newer id (drop n m) ≡ newer id m)
  unfolding Map.has Map.get newer
  drop-newer zero id m h lt = (h, refl)
  drop-newer (suc n) id [] h lt = absurd (ground arith)
  drop-newer (suc n) id ((j, w) ∷ m) h lt = elim (Bool-cases (str_eq j id)) [
    | inl same ↦ absurd (ground arith)
    | inr other ↦
        let lt' : suc n + newer id m < length m + 1 = ground arith in
        let h' : Map.has id m ≡ true = ground arith in
        let (kept, same) = drop-newer n id m h' (omega arith) in rw other (kept, same)
  ]
