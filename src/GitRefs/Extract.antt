-- ===== src/GitRefs/Extract.antt =====
-- The refs that a push names (extractIncomingRefs and extractAllRelayRefs of
-- src/git_serve_session.ts).
use bit_relay.Prelude.{
  Option-cases, subst, ℕ, ◌-◌, ◌≤◌, ◌≡◌, refl, ap, zero, suc, true, false, List, [], ◌∷◌, ◌++◌,
  Option, none, some, arith, Bool-cases, inl, inr, length, any, all, All,
}
use bit_relay.Text.{same, same_iff}
use bit_relay.Room.Log.{All-append, any-append}
use bit_relay.GitRefs.{
  is_ref_char, strip_prefix, take_run, with_prefix, match_after, match_at, match_all, dedupe,
  incoming_prefix, relay_prefix, extract_incoming_refs, extract_all_relay_refs,
}

-- A prefix followed by 1 to 255 characters of the class.
abbrev pub IsRef : List ℕ → List ℕ → Type 0
IsRef prefix ref =
    (run : List ℕ) × (ref ≡ prefix ++ run)
    × (1 ≤ length run)
    × (length run ≤ 255)
    × (all is_ref_char run ≡ true)

-- No ref stands twice.
abbrev pub DistinctRefs : List (List ℕ) → Type 0
DistinctRefs [] = Unit
DistinctRefs (ref ∷ refs) = (any (same ref) refs ≡ false) × DistinctRefs refs

same_sym : (xs ys : List ℕ) → same xs ys ≡ same ys xs
unfolding same
same_sym [] [] = refl
same_sym [] (y ∷ ys) = refl
same_sym (x ∷ xs) [] = refl
same_sym (x ∷ xs) (y ∷ ys) = ground (arith, same_sym xs ys)

take_run-le : (most : ℕ) (text : List ℕ) → length (take_run most text) ≤ most
unfolding take_run
take_run-le zero text = omega arith
take_run-le (suc most) [] = omega arith
take_run-le (suc most) (c ∷ cs) = ground (arith, take_run-le most cs)

take_run-all : (most : ℕ) (text : List ℕ) → all is_ref_char (take_run most text) ≡ true
unfolding take_run
take_run-all zero text = refl
take_run-all (suc most) [] = refl
take_run-all (suc most) (c ∷ cs) = elim (Bool-cases (is_ref_char c)) [
  | inl in_class ↦ rw in_class (ground (arith, in_class, take_run-all most cs))
  | inr other ↦ rw other refl
]

match_after-IsRef :
    (prefix : List ℕ) (rest : Option (List ℕ)) (ref : List ℕ)
    → match_after prefix rest ≡ some ref
    → IsRef prefix ref
match_after-IsRef prefix none ref e = cc
match_after-IsRef prefix (some rest) ref e = go (take_run 255 rest) refl e
  where
    go :
        (run : List ℕ)
        → take_run 255 rest ≡ run
        → with_prefix prefix run ≡ some ref
        → IsRef prefix ref
    go [] same h = cc
    go (c ∷ run) same h =
        let shape : ref ≡ prefix ++ c ∷ run = cc in
        let size : length (take_run 255 rest) ≡ length (c ∷ run) = ap length same in
        let class : all is_ref_char (c ∷ run) ≡ true =
          subst (λ r. all is_ref_char r ≡ true) same (take_run-all 255 rest) in
        (c ∷ run, shape, omega arith, omega (arith, size, take_run-le 255 rest), class)

match_all-IsRef :
    (skip : ℕ) (prefix text : List ℕ) → All (IsRef prefix) (match_all skip prefix text)
unfolding match_all
match_all-IsRef skip prefix [] = tt
match_all-IsRef (suc skip) prefix (c ∷ cs) = match_all-IsRef skip prefix cs
match_all-IsRef zero prefix (c ∷ cs) = elim (Option-cases (match_at prefix (c ∷ cs))) [
  | inl no_match ↦ rw (no_match, match_all) (match_all-IsRef zero prefix cs)
  | inr (ref, found) ↦
      rw (found, match_all)
        (
          match_after-IsRef prefix (strip_prefix prefix (c ∷ cs)) ref found,
          match_all-IsRef (length ref - 1) prefix cs,
        )
]

DistinctRefs-snoc :
    (refs : List (List ℕ)) (ref : List ℕ)
    → DistinctRefs refs
    → any (same ref) refs ≡ false
    → DistinctRefs (refs ++ ref ∷ [])
DistinctRefs-snoc [] ref d h = (refl, tt)
DistinctRefs-snoc (r ∷ refs) ref (fresh, d) h = (
  ground (
    arith,
    any-append (same r) refs (ref ∷ []),
    same_iff r ref,
    same_iff ref r,
    fresh,
    same_sym r ref,
  ),
  DistinctRefs-snoc refs ref d (ground arith),
)

-- Dedupe keeps refs that are distinct and what holds of all of them.
dedupe-Distinct :
    (refs matches : List (List ℕ)) → DistinctRefs refs → DistinctRefs (dedupe refs matches)
unfolding dedupe
dedupe-Distinct refs [] d = d
dedupe-Distinct refs (ref ∷ matches) d = elim (Bool-cases (any (same ref) refs)) [
  | inl old ↦ rw old (dedupe-Distinct refs matches d)
  | inr new ↦ rw new (dedupe-Distinct (refs ++ ref ∷ []) matches (DistinctRefs-snoc refs ref d new))
]

dedupe-All {κ} :
    (P : List ℕ → Type κ) (refs matches : List (List ℕ))
    → All P refs
    → All P matches
    → All P (dedupe refs matches)
unfolding dedupe
dedupe-All P refs [] h k = h
dedupe-All P refs (ref ∷ matches) h (p, k) = elim (Bool-cases (any (same ref) refs)) [
  | inl old ↦ rw old (dedupe-All P refs matches h k)
  | inr new ↦
      rw new (dedupe-All P (refs ++ ref ∷ []) matches (All-append P refs (ref ∷ []) h (p, tt)) k)
]

-- The refs read from the text of a push are distinct, and each is 'refs/relay/incoming/', or
-- 'refs/' for all relay refs, with 1 to 255 characters of the class after it.
pub extract-IsRef :
    (text : List ℕ)
    → (DistinctRefs (extract_incoming_refs text)
        × All (IsRef incoming_prefix) (extract_incoming_refs text))
      × (DistinctRefs (extract_all_relay_refs text)
          × All (IsRef relay_prefix) (extract_all_relay_refs text))
unfolding extract_incoming_refs extract_all_relay_refs
extract-IsRef text = (
  (
    dedupe-Distinct [] (match_all 0 incoming_prefix text) tt,
    dedupe-All (IsRef incoming_prefix) [] (match_all 0 incoming_prefix text) tt
        (match_all-IsRef 0 incoming_prefix text),
  ),
  (
    dedupe-Distinct [] (match_all 0 relay_prefix text) tt,
    dedupe-All (IsRef relay_prefix) [] (match_all 0 relay_prefix text) tt
        (match_all-IsRef 0 relay_prefix text),
  ),
)
