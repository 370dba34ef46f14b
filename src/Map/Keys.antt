-- ===== src/Map/Keys.antt =====
-- The order of the keys of a map, and the removal of its oldest entries.
use bit_relay.Prelude.{
  Bool, keep, subst, inr, sym, inl, Bool-cases, ℕ, zero, suc, ◌≤◌, ◌≡◌, refl, true, false, [], ◌∷◌,
  ◌++◌, none, some, String, str_eq, eq_iff, eq_refl, arith, if◌then◌else◌, length, drop, All,
}
use bit_relay.Map
use bit_relay.Map.{Map}

module _ {ℓ} {V : Type ℓ} where
  pub keys-set :
      (k : String) (v : V) (m : Map V)
      → Map.keys (Map.set k v m) ≡ (if Map.has k m then Map.keys m else Map.keys m ++ k ∷ [])
  unfolding Map.set Map.has Map.get
  keys-set k v [] = refl
  keys-set k v ((j, w) ∷ m) = ground (arith, keys-set k v m, eq_iff j k)

  pub keys-set_new :
      (k : String) (v : V) (m : Map V)
      → Map.get k m ≡ none
      → Map.keys (Map.set k v m) ≡ Map.keys m ++ k ∷ []
  unfolding Map.has
  keys-set_new k v m h = ground (arith, keys-set k v m)

  pub keys-set_old :
      (k : String) (v w : V) (m : Map V)
      → Map.get k m ≡ some w
      → Map.keys (Map.set k v m) ≡ Map.keys m
  unfolding Map.has
  keys-set_old k v w m h = ground (arith, keys-set k v m)

  pub set_new :
      (k : String) (v : V) (m : Map V) → Map.get k m ≡ none → Map.set k v m ≡ m ++ (k, v) ∷ []
  unfolding Map.set Map.get
  set_new k v [] h = refl
  set_new k v ((j, w) ∷ m) h = ground (arith, set_new k v m)

  -- The newest entry stays when older ones are dropped.
  pub get-drop_newest :
      (n : ℕ) (k : String) (v : V) (m : Map V)
      → n ≤ length m
      → Map.get k m ≡ none
      → Map.get k (drop n (m ++ (k, v) ∷ [])) ≡ some v
  unfolding Map.get
  get-drop_newest zero k v [] le h = ground (arith, eq_refl k)
  get-drop_newest (suc n) k v [] le h = absurd (omega arith)
  get-drop_newest zero k v ((j, w) ∷ m) le h =
      ground (arith, get-drop_newest zero k v m (omega arith))
  get-drop_newest (suc n) k v ((j, w) ∷ m) le h =
      get-drop_newest n k v m (omega arith) (ground arith)

  pub has_of_get : (k : String) (v : V) (m : Map V) → Map.get k m ≡ some v → Map.has k m ≡ true
  unfolding Map.has
  has_of_get k v m h = ground arith

  pub has-set :
      (k j : String) (v : V) (m : Map V)
      → Map.has j (Map.set k v m) ≡ (if str_eq k j then true else Map.has j m)
  unfolding Map.has
  has-set k j v m = ground (arith, Map.get-set k j v m)

  pub has-delete :
      (k j : String) (m : Map V)
      → Map.has j (Map.delete k m) ≡ (if str_eq k j then false else Map.has j m)
  unfolding Map.has
  has-delete k j m = ground (arith, Map.get-delete k j m)

  pub keep-absent :
      (p : String × V → Bool) (k : String) (m : Map V)
      → Map.get k m ≡ none
      → Map.get k (keep p m) ≡ none
  unfolding keep Map.get
  keep-absent p k [] h = refl
  keep-absent p k ((j, w) ∷ m) h = ground (arith, keep-absent p k m)

  pub keep-Distinct : (p : String × V → Bool) (m : Map V) → Map.Distinct m → Map.Distinct (keep p m)
  unfolding keep
  keep-Distinct p [] d = tt
  keep-Distinct p ((j, w) ∷ m) d = ground (arith, keep-absent p j m d.0, keep-Distinct p m d.1)

  pub length-keys : (m : Map V) → length (Map.keys m) ≡ length m
  length-keys [] = refl
  length-keys ((k, v) ∷ m) = omega (arith, length-keys m)

  pub keys-drop : (n : ℕ) (m : Map V) → Map.keys (drop n m) ≡ drop n (Map.keys m)
  keys-drop zero m = refl
  keys-drop (suc n) [] = refl
  keys-drop (suc n) ((k, v) ∷ m) = keys-drop n m

  pub drop-Distinct : (n : ℕ) (m : Map V) → Map.Distinct m → Map.Distinct (drop n m)
  drop-Distinct zero m d = d
  drop-Distinct (suc n) [] d = tt
  drop-Distinct (suc n) ((k, v) ∷ m) (fresh, d) = drop-Distinct n m d

  -- Deleting the oldest key leaves the others.
  pub delete-oldest :
      (k : String) (v : V) (m : Map V) → Map.Distinct ((k, v) ∷ m) → Map.delete k ((k, v) ∷ m) ≡ m
  unfolding Map.delete
  delete-oldest k v m (fresh, d) = ground (arith, eq_refl k, Map.delete_absent k m)

module _ {ℓ κ} {V : Type ℓ} (P : String × V → Type κ) where
  pub set-All : (k : String) (v : V) (m : Map V) → P (k, v) → All P m → All P (Map.set k v m)
  unfolding Map.set
  set-All k v [] p h = (p, tt)
  set-All k v ((j, w) ∷ m) p h = elim (Bool-cases (str_eq j k)) [
    | inl same ↦
        let keys_equal : k ≡ j = sym ((eq_iff j k).0 same) in
        rw (same, All) (subst (λ x. P (x, v)) keys_equal p, h.1)
    | inr other ↦ rw (other, All) (h.0, set-All k v m p h.1)
  ]

  pub delete-All : (k : String) (m : Map V) → All P m → All P (Map.delete k m)
  unfolding Map.delete
  delete-All k [] h = tt
  delete-All k ((j, w) ∷ m) h = elim (Bool-cases (str_eq j k)) [
    | inl same ↦ rw (same, All) (delete-All k m h.1)
    | inr other ↦ rw (other, All) (h.0, delete-All k m h.1)
  ]

  pub get-All : (k : String) (v : V) (m : Map V) → Map.get k m ≡ some v → All P m → P (k, v)
  unfolding Map.get
  get-All k v [] e h = absurd (ground arith)
  get-All k v ((j, w) ∷ m) e h = elim (Bool-cases (str_eq j k)) [
    | inl same ↦
        let keys_equal : j ≡ k = (eq_iff j k).0 same in
        let values_equal : w ≡ v = ground arith in
        subst (λ x. P (x, v)) keys_equal (subst (λ y. P (j, y)) values_equal h.0)
    | inr other ↦ get-All k v m (ground arith) h.1
  ]
