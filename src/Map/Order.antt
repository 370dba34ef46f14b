-- ===== src/Map/Order.antt =====
-- The order in which JavaScript lists the properties of an object, told of the list alone.
use bit_relay.Prelude.{
  ℕ, ◌≤◌, ◌≡◌, refl, ap, ◌∙◌, Bool, if◌then◌else◌, true, false, [], ◌∷◌, Option, none, some, String,
  str_eq, arith, All, Bool-cases, Option-cases, inl, inr,
}
use bit_relay.Map
use bit_relay.Map.{Map}
use bit_relay.Map.Listed.{index_of, stands_before, place, place-All, listed, IsOwn}

-- A property may be listed before another: array indices from the lowest, and then the other names.
abbrev Precedes : (index other : Option ℕ) → Type 0
Precedes (some n) (some m) = n ≤ m
Precedes (some n) none = Unit
Precedes none (some m) = ⊥
Precedes none none = Unit

before-Precedes : (index other : Option ℕ) → stands_before index other ≡ true → Precedes index other
before-Precedes (some n) (some m) h = ground arith
before-Precedes (some n) none h = tt
before-Precedes none (some m) h = absurd (ground arith)
before-Precedes none none h = tt

after-Precedes : (index other : Option ℕ) → stands_before index other ≡ false → Precedes other index
after-Precedes (some n) (some m) h = ground arith
after-Precedes (some n) none h = absurd (ground arith)
after-Precedes none (some m) h = tt
after-Precedes none none h = absurd (ground arith)

Precedes-trans :
    (first middle last : Option ℕ)
    → Precedes first middle
    → Precedes middle last
    → Precedes first last
Precedes-trans (some n) (some m) (some l) h g = omega (arith, h, g)
Precedes-trans (some n) (some m) none h g = tt
Precedes-trans (some n) none (some l) h g = absurd g
Precedes-trans (some n) none none h g = tt
Precedes-trans none (some m) last h g = absurd h
Precedes-trans none none (some l) h g = absurd g
Precedes-trans none none none h g = tt

abbrev no_index : Option ℕ → Bool
no_index none = true
no_index (some n) = false

module _ {ℓ} {V : Type ℓ} where
  -- Each property may be listed before those after it.
  abbrev pub IsOrdered : Map V → Type 0
  IsOrdered [] = Unit
  IsOrdered ((k, v) ∷ m) = All (λ e. Precedes (index_of k) (index_of e.0)) m × IsOrdered m

  -- The entries whose name is no array index.
  abbrev pub named : Map V → Map V
  named [] = []
  named ((k, v) ∷ m) = let rest = named m in if no_index (index_of k) then (k, v) ∷ rest else rest

  Precedes-All :
      (k j : String) (m : Map V)
      → Precedes (index_of k) (index_of j)
      → All (λ e. Precedes (index_of j) (index_of e.0)) m
      → All (λ e. Precedes (index_of k) (index_of e.0)) m
  Precedes-All k j [] h all = tt
  Precedes-All k j ((i, w) ∷ m) h (here, all) =
      (Precedes-trans (index_of k) (index_of j) (index_of i) h here, Precedes-All k j m h all)

  place-IsOrdered : (k : String) (v : V) (m : Map V) → IsOrdered m → IsOrdered (place k v m)
  unfolding place
  place-IsOrdered k v [] h = (tt, tt)
  place-IsOrdered k v ((j, w) ∷ m) (here, h) =
      elim (Bool-cases (stands_before (index_of k) (index_of j))) [
        | inl before ↦
            let first = before-Precedes (index_of k) (index_of j) before in
            rw before ((first, Precedes-All k j m first here), (here, h))
        | inr after ↦
            let last = after-Precedes (index_of k) (index_of j) after in
            rw after (
              place-All (λ e. Precedes (index_of j) (index_of e.0)) k v m last here,
              place-IsOrdered k v m h,
            )
      ]

  pub listed-IsOrdered : (m : Map V) → IsOrdered (listed m)
  unfolding listed
  listed-IsOrdered [] = tt
  listed-IsOrdered ((k, v) ∷ m) = elim (Bool-cases (str_eq k "__proto__")) [
    | inl dropped ↦ rw dropped (listed-IsOrdered m)
    | inr kept ↦ rw kept (place-IsOrdered k v (listed m) (listed-IsOrdered m))
  ]

  named-place_index :
      (k : String) (v : V) (n : ℕ) (m : Map V) → index_of k ≡ some n → named (place k v m) ≡ named m
  unfolding place
  named-place_index k v n [] h = rw h refl
  named-place_index k v n ((j, w) ∷ m) h =
      elim (Bool-cases (stands_before (index_of k) (index_of j))) [
        | inl before ↦ rw (before, h) refl
        | inr after ↦ rw after (
            ap (λ q. if no_index (index_of j) then (j, w) ∷ q else q) (named-place_index k v n m h))
      ]

  named-place :
      (k : String) (v : V) (m : Map V) → index_of k ≡ none → named (place k v m) ≡ (k, v) ∷ named m
  unfolding place
  named-place k v [] h = rw h refl
  named-place k v ((j, w) ∷ m) h = elim (Option-cases (index_of j)) [
    | inl e ↦ rw (h, e, named, h, e) refl
    | inr (n, e) ↦ rw (h, e, named, e) (named-place k v m h)
  ]

  -- The other names stay in the order of their writing.
  pub named-listed : (m : Map V) → Map.Distinct m → IsOwn m → named (listed m) ≡ named m
  unfolding listed Map.get
  named-listed [] d own = refl
  named-listed ((k, v) ∷ m) (new, d) own = elim (Bool-cases (str_eq k "__proto__")) [
    | inl dropped ↦ absurd (ground arith)
    | inr kept ↦
        let own' : IsOwn m = ground arith in
        let rest = named-listed m d own' in
        elim (Option-cases (index_of k)) [
          | inl e ↦ rw (kept, e) (named-place k v (listed m) e ∙ ap (◌∷◌ (k, v)) rest)
          | inr (n, e) ↦ rw (kept, e) (named-place_index k v n (listed m) e ∙ rest)
        ]
  ]
