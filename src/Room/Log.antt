-- ===== src/Room/Log.antt =====
-- Lemmas on the message log of a room: membership of ids, distinct ids, trimming.
use bit_relay.Prelude.{
  drop-nil, ◌∙◌, inr, inl, ℕ, ◌+◌, ◌-◌, ◌≤◌, ◌<◌, ◌≡◌, refl, Bool, false, ◌||◌, List, [], ◌∷◌, ◌++◌,
  str_eq, eq_iff, arith, ltb, zero, suc, length, length-append, drop, length-drop, drop-drop, All,
  any, Bool-cases,
}
use bit_relay.Room.{Envelope, has_id, trim_log}

pub any-append {ℓ} :
    {A : Type ℓ} (p : A → Bool) (xs ys : List A) → any p (xs ++ ys) ≡ (any p xs || any p ys)
any-append p [] ys = refl
any-append p (x ∷ xs) ys = ground (arith, any-append p xs ys)

-- No two messages share an id.
abbrev pub DistinctIds : List Envelope → Type 0
DistinctIds [] = Unit
DistinctIds (e ∷ es) = (has_id e.id es ≡ false) × DistinctIds es

pub DistinctIds-append :
    (es : List Envelope) (e : Envelope)
    → DistinctIds es
    → has_id e.id es ≡ false
    → DistinctIds (es ++ e ∷ [])
DistinctIds-append [] e d h = (refl, tt)
DistinctIds-append (x ∷ es) e (fresh, d) h = (
  ground (
    arith,
    any-append (λ item. str_eq item.id x.id) es (e ∷ []),
    eq_iff e.id x.id,
    eq_iff x.id e.id,
  ),
  DistinctIds-append es e d (ground arith),
)

pub drop-DistinctIds : (n : ℕ) (es : List Envelope) → DistinctIds es → DistinctIds (drop n es)
drop-DistinctIds zero es d = d
drop-DistinctIds (suc n) [] d = tt
drop-DistinctIds (suc n) (e ∷ es) (fresh, d) = drop-DistinctIds n es d

module _ {ℓ κ} {A : Type ℓ} (P : A → Type κ) where
  pub All-append : (xs ys : List A) → All P xs → All P ys → All P (xs ++ ys)
  All-append [] ys h k = k
  All-append (x ∷ xs) ys (p, h) k = (p, All-append xs ys h k)

  pub drop-All : (n : ℕ) (xs : List A) → All P xs → All P (drop n xs)
  drop-All zero xs h = h
  drop-All (suc n) [] h = tt
  drop-All (suc n) (x ∷ xs) (p, h) = drop-All n xs h

module _ {ℓ} {A : Type ℓ} where
  -- Trimming is dropping the overflow, which is 0 where there is none.
  pub trim_log-eq-drop : (most : ℕ) (xs : List A) → trim_log most xs ≡ drop (length xs - most) xs
  unfolding trim_log
  trim_log-eq-drop most xs = elim (Bool-cases (ltb most (length xs))) [
    | inl over ↦ rw over
    | inr fits ↦ let none_over : length xs - most ≡ 0 = ground arith in rw (fits, none_over)
  ]

  pub trim_log-nil : (most : ℕ) → trim_log {A = A} most [] ≡ []
  trim_log-nil most = trim_log-eq-drop most [] ∙ drop-nil (0 - most)

  pub length-trim_log : (most : ℕ) (xs : List A) → length (trim_log most xs) ≤ most
  length-trim_log most xs =
      rw (trim_log-eq-drop most xs) (omega (arith, length-drop (length xs - most) xs))

  drop-append : (n : ℕ) (xs ys : List A) → n ≤ length xs → drop n (xs ++ ys) ≡ drop n xs ++ ys
  drop-append zero xs ys h = refl
  drop-append (suc n) [] ys h = absurd (omega arith)
  drop-append (suc n) (x ∷ xs) ys h = drop-append n xs ys (omega arith)

  -- To trim before an append loses nothing that the trim after it keeps.
  pub trim_log-append :
      (most : ℕ) (xs ys : List A)
      → trim_log most (trim_log most xs ++ ys) ≡ trim_log most (xs ++ ys)
  trim_log-append most xs ys =
      let n = length xs - most in
      let shorter = drop-append n xs ys (omega arith) in
      rw
        (
          trim_log-eq-drop most xs,
          trim_log-eq-drop most (drop n xs ++ ys),
          trim_log-eq-drop most (xs ++ ys),
          ← shorter,
        )
        (drop-drop n (length (drop n (xs ++ ys)) - most) (length (xs ++ ys) - most) (xs ++ ys)
          (omega (arith, length-drop n (xs ++ ys), length-append xs ys)))

  -- The newest entry stays where the log may hold one.
  pub trim_log-snoc :
      (most : ℕ) (xs : List A) (x : A)
      → 0 < most
      → trim_log most (xs ++ x ∷ []) ≡ drop (length xs + 1 - most) xs ++ x ∷ []
  trim_log-snoc most xs x h =
      let size : length (xs ++ x ∷ []) ≡ length xs + 1 = omega (arith, length-append xs (x ∷ [])) in
      rw (trim_log-eq-drop most (xs ++ x ∷ []), size)
        (drop-append (length xs + 1 - most) xs (x ∷ []) (omega arith))
