-- ===== src/CacheStore/Evict.antt =====
-- A bounded store stays within its bytes (enforceMaxBytesLimit of src/cache_store.ts).
use bit_relay.Prelude.{
  ℕ, ◌+◌, ◌-◌, ◌≤◌, ◌≡◌, inl, inr, refl, ap, sym, ◌∙◌, Bool, true, false, not, ◌||◌, List, [], ◌∷◌,
  Option, none, some, String, str_eq, eq_iff, eq_refl, arith, leb, any, All, Bool-cases,
  Option-cases,
}
use bit_relay.Map
use bit_relay.Map.{Map}
use bit_relay.Map.Keys.{keep-Distinct, has_of_get, has-delete}
use bit_relay.Text.{trim, is_empty}
use bit_relay.CacheStore.{
  is_expired, StoredRecord, EvictionCandidate, Policy, CacheStorePutRequest, candidates,
  total_bytes, evict, goes_first, insert, sort_eviction_candidates, enforce_max_bytes,
  prune_expired, put, to_storage_key, record_of,
}

-- A candidate whose record is in the store has that record's size.
abbrev pub Sized : Map StoredRecord → EvictionCandidate → Type 0
Sized m c = (r : StoredRecord) → Map.get c.storage_key m ≡ some r → r.metadata.size ≡ c.size

abbrev named : String → EvictionCandidate → Bool
named k c = str_eq c.storage_key k

-- Each key of the store has a candidate.
abbrev pub Covers : List EvictionCandidate → Map StoredRecord → Type 0
Covers cs m = (k : String) → Map.has k m ≡ true → any (named k) cs ≡ true

total_bytes-delete :
    (k : String) (r : StoredRecord) (m : Map StoredRecord)
    → Map.Distinct m
    → Map.get k m ≡ some r
    → total_bytes m ≡ r.metadata.size + total_bytes (Map.delete k m)
unfolding Map.get Map.delete
total_bytes-delete k r [] d e = absurd (ground arith)
total_bytes-delete k r ((j, q) ∷ m) d e = elim (Bool-cases (str_eq j k)) [
  | inl same ↦
      let absent : Map.get k m ≡ none = ground (arith, eq_iff j k, d.0) in
      let here : q ≡ r = ground arith in ground (arith, Map.delete_absent k m absent, same, here)
  | inr other ↦
      let there : Map.get k m ≡ some r = ground arith in
      ground (arith, total_bytes-delete k r m d.1 there)
]

has_of_none : (k : String) (m : Map StoredRecord) → Map.get k m ≡ none → Map.has k m ≡ false
unfolding Map.has
has_of_none k m e = ground arith

Covers-none : (m : Map StoredRecord) → Covers [] m → total_bytes m ≡ 0
unfolding Map.has Map.get
Covers-none [] h = refl
Covers-none ((k, r) ∷ m) h = absurd (ground (arith, h k, eq_refl k))

delete-Sized :
    (k : String) (m : Map StoredRecord) (cs : List EvictionCandidate)
    → All (Sized m) cs
    → All (Sized (Map.delete k m)) cs
delete-Sized k m [] h = tt
delete-Sized k m (c ∷ cs) (here, h) =
    (λ r e. here r (ground (arith, Map.get-delete k c.storage_key m, e)), delete-Sized k m cs h)

delete-Covers :
    (c : EvictionCandidate) (cs : List EvictionCandidate) (m : Map StoredRecord)
    → Covers (c ∷ cs) m
    → Covers cs (Map.delete c.storage_key m)
delete-Covers c cs m covers k there = ground (arith, has-delete c.storage_key k m, covers k, there)

absent-Covers :
    (c : EvictionCandidate) (cs : List EvictionCandidate) (m : Map StoredRecord)
    → Map.has c.storage_key m ≡ false
    → Covers (c ∷ cs) m
    → Covers cs m
absent-Covers c cs m absent covers k there = elim (Bool-cases (str_eq c.storage_key k)) [
  | inl same ↦
      let equal : c.storage_key ≡ k = (eq_iff c.storage_key k).0 same in absurd (ground arith)
  | inr other ↦ ground (arith, covers k there)
]

evict-le :
    (most : ℕ) (cs : List EvictionCandidate) (m : Map StoredRecord)
    → Map.Distinct m
    → All (Sized m) cs
    → Covers cs m
    → total_bytes (evict most cs (total_bytes m) m) ≤ most
unfolding evict
evict-le most [] m d sized covers = omega (arith, Covers-none m covers)
evict-le most (c ∷ cs) m d (here, sized) covers = elim (Bool-cases (leb (total_bytes m) most)) [
  | inl fits ↦ rw (fits, evict) (ground arith)
  | inr over ↦ elim (Option-cases (Map.get c.storage_key m)) [
    | inl none_there ↦
        let absent : Map.has c.storage_key m ≡ false = has_of_none c.storage_key m none_there in
        rw (over, absent, evict) (evict-le most cs m d sized (absent-Covers c cs m absent covers))
    | inr (r, found) ↦
        let there = has_of_get c.storage_key r m found in
        let smaller : total_bytes m - c.size ≡ total_bytes (Map.delete c.storage_key m) =
          omega (arith, total_bytes-delete c.storage_key r m d found, here r found) in
        rw (over, there, evict, smaller)
          (evict-le most cs (Map.delete c.storage_key m) (Map.delete-Distinct c.storage_key m d)
            (delete-Sized c.storage_key m cs sized) (delete-Covers c cs m covers))
  ]
]

candidates-Covers : (m : Map StoredRecord) → Covers (candidates m) m
unfolding Map.has Map.get
candidates-Covers [] k h = absurd (ground arith)
candidates-Covers ((j, r) ∷ m) k h = ground (arith, candidates-Covers m k)

store-injective : (m n : Map StoredRecord) → some m ≡ some n → m ≡ n
store-injective m n e = cc

prune-Distinct :
    (ttl : Option ℕ) (now : ℕ) (m : Map StoredRecord)
    → Map.Distinct m
    → Map.Distinct (prune_expired ttl now m)
unfolding prune_expired
prune-Distinct ttl now m d = keep-Distinct (λ e. not (is_expired ttl now e.1)) m d

some-injective : (r q : StoredRecord) → some r ≡ some q → r ≡ q
some-injective r q e = cc

candidates-Sized : (m : Map StoredRecord) → Map.Distinct m → All (Sized m) (candidates m)
unfolding Map.get
candidates-Sized m d = go m m (λ k r e. e) d
  where
    go :
        (n m : Map StoredRecord)
        → ((k : String) (r : StoredRecord) → Map.get k n ≡ some r → Map.get k m ≡ some r)
        → Map.Distinct n
        → All (Sized m) (candidates n)
    go [] m sub d = tt
    go ((k, q) ∷ n) m sub d =
        let stands : Map.get k m ≡ some q = sub k q (ground (arith, eq_refl k)) in
        (
          λ r e. ap (λ x. x.metadata.size) (some-injective r q (sym e ∙ stands)),
          go n m (λ j r e. sub j r (ground (arith, eq_iff k j, d.0, e))) d.1,
        )

module _ (not_after : String → String → Bool) where
  insert-All :
      (P : EvictionCandidate → Type 0) (c : EvictionCandidate) (cs : List EvictionCandidate)
      → P c
      → All P cs
      → All P (insert not_after c cs)
  unfolding insert
  insert-All P c [] p h = (p, tt)
  insert-All P c (x ∷ cs) p (q, h) = elim (Bool-cases (goes_first not_after c x)) [
    | inl first ↦ rw (first, insert) (p, (q, h))
    | inr later ↦ rw (later, insert) (q, insert-All P c cs p h)
  ]

  sort-All :
      (P : EvictionCandidate → Type 0) (cs : List EvictionCandidate)
      → All P cs
      → All P (sort_eviction_candidates not_after cs)
  unfolding sort_eviction_candidates
  sort-All P [] h = tt
  sort-All P (c ∷ cs) (p, h) =
      insert-All P c (sort_eviction_candidates not_after cs) p (sort-All P cs h)

  insert-any :
      (p : EvictionCandidate → Bool) (c : EvictionCandidate) (cs : List EvictionCandidate)
      → any p (insert not_after c cs) ≡ (p c || any p cs)
  unfolding insert
  insert-any p c [] = refl
  insert-any p c (x ∷ cs) = ground (arith, insert-any p c cs)

  sort-any :
      (p : EvictionCandidate → Bool) (cs : List EvictionCandidate)
      → any p (sort_eviction_candidates not_after cs) ≡ any p cs
  unfolding sort_eviction_candidates
  sort-any p [] = refl
  sort-any p (c ∷ cs) =
      ground (arith, insert-any p c (sort_eviction_candidates not_after cs), sort-any p cs)

  enforce-le :
      (most : ℕ) (m : Map StoredRecord)
      → Map.Distinct m
      → total_bytes (enforce_max_bytes not_after (some most) m) ≤ most
  unfolding enforce_max_bytes
  enforce-le most m d = elim (Bool-cases (leb (total_bytes m) most)) [
    | inl fits ↦ rw (fits, enforce_max_bytes) (ground arith)
    | inr over ↦
        rw (over, enforce_max_bytes)
          (evict-le most (sort_eviction_candidates not_after (candidates m)) m d
            (sort-All (Sized m) (candidates m) (candidates-Sized m d))
            (λ k there. sort-any (named k) (candidates m) ∙ candidates-Covers m k there))
  ]

  put-stored :
      (policy : Policy) (m : Map StoredRecord) (q : CacheStorePutRequest) (now : ℕ)
      → is_empty (trim q.key) ≡ false
      → put not_after policy m q now
        ≡ some (
            enforce_max_bytes not_after policy.max_bytes (
              Map.set
                (to_storage_key q.kind (trim q.key))
                (record_of q (trim q.key) now)
                (prune_expired policy.ttl_sec now m)))
  unfolding put
  put-stored policy m q now key = rw (key, put)

  -- A record that is put in a store with a bound leaves the store within it, whatever was there,
  -- where no key stood twice.
  pub put-total_bytes :
      (policy : Policy) (most : ℕ) (m m' : Map StoredRecord) (q : CacheStorePutRequest) (now : ℕ)
      → Map.Distinct m
      → policy.max_bytes ≡ some most
      → put not_after policy m q now ≡ some m'
      → total_bytes m' ≤ most
  unfolding put
  put-total_bytes policy most m m' q now d bound done = elim (Bool-cases (is_empty (trim q.key))) [
    | inl blank ↦ absurd (ground arith)
    | inr key ↦
        let pruned = prune_expired policy.ttl_sec now m in
        let storage_key = to_storage_key q.kind (trim q.key) in
        let stored = Map.set storage_key (record_of q (trim q.key) now) pruned in
        let distinct =
          Map.set-Distinct storage_key (record_of q (trim q.key) now) pruned
            (prune-Distinct policy.ttl_sec now m d) in
        let result : m' ≡ enforce_max_bytes not_after policy.max_bytes stored =
          store-injective m' (enforce_max_bytes not_after policy.max_bytes stored)
            (sym done ∙ put-stored policy m q now key) in
        rw (result, bound) (enforce-le most stored distinct)
  ]
