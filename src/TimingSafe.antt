-- ===== src/TimingSafe.antt =====
-- timingSafeEqual (src/memory_handler.ts). Characters are code points where the source compares
-- UTF-16 units.
mod Bits
use Prim.Native.Nat.{bit_or, bit_xor}
use Prim.Native.Char.{Char, code}
use Bits.{bit_xor-eq-zero_iff, bit_or-eq-zero}
use mathlib.Core.Path.{ap₂}
use text.Mathlib.TextEquality.{Char-path}
use bit_relay.Text.{chars}
use bit_relay.Prelude.{
  ℕ, ◌≡◌, ◌↔◌, refl, ap, sym, ◌∙◌, Bool, true, false, not, List, [], ◌∷◌, String, str_eq, eq_iff,
  eq_refl, arith, if◌then◌else◌, ◌==◌, ==_iff, length, Bool-cases,
}

-- The loop that collects the differences, over texts of one length.
mismatch_from : ℕ → List ℕ → List ℕ → ℕ
mismatch_from mismatch (a ∷ as') (b ∷ bs) = mismatch_from (bit_or mismatch (bit_xor a b)) as' bs
mismatch_from mismatch _ _ = mismatch

unfoldable pub timing_safe_equal : String → String → Bool
unfolding mismatch_from chars
timing_safe_equal a b =
    if not (length (chars a) == length (chars b))
    then false
    else mismatch_from 0 (chars a) (chars b) == 0

mismatch_from_zero :
    (m : ℕ) (xs ys : List ℕ)
    → length xs ≡ length ys
    → mismatch_from m xs ys ≡ 0
    → (m ≡ 0) × (xs ≡ ys)
unfolding mismatch_from
mismatch_from_zero m [] [] e h = (h, refl)
mismatch_from_zero m [] (y ∷ ys) e h = absurd (omega arith)
mismatch_from_zero m (x ∷ xs) [] e h = absurd (omega arith)
mismatch_from_zero m (x ∷ xs) (y ∷ ys) e h =
    let (here, later) = mismatch_from_zero (bit_or m (bit_xor x y)) xs ys (omega arith) h in
    let (m_zero, xor_zero) = bit_or-eq-zero m (bit_xor x y) here in
    let same = (bit_xor-eq-zero_iff x y).0 xor_zero in (m_zero, cc)

mismatch_from_self : (xs : List ℕ) → mismatch_from 0 xs xs ≡ 0
unfolding mismatch_from
mismatch_from_self [] = refl
mismatch_from_self (x ∷ xs) =
    let none_here : bit_xor x x ≡ 0 = (bit_xor-eq-zero_iff x x).1 refl in
    rw none_here (mismatch_from_self xs)

chars-injective : (a b : String) → chars a ≡ chars b → a ≡ b
unfolding chars
chars-injective String.[] String.[] e = refl
chars-injective String.[] (String.◌∷◌ d t) e = cc
chars-injective (String.◌∷◌ c s) String.[] e = cc
chars-injective (String.◌∷◌ c s) (String.◌∷◌ d t) e =
    let same_char : c ≡ d = Char-path c d (cc) in
    let same_rest : s ≡ t = chars-injective s t (cc) in ap₂ String.◌∷◌ same_char same_rest

-- The comparison that runs through every position decides the equality of the texts.
pub timing_safe_equal_iff : (a b : String) → (timing_safe_equal a b ≡ true) ↔ (a ≡ b)
unfolding timing_safe_equal
timing_safe_equal_iff a b = (
  λ h.
      chars-injective a b
        (mismatch_from_zero 0 (chars a) (chars b) (ground arith) (ground arith)).1,
  λ e. rw (← e) (ground (arith, mismatch_from_self (chars a))),
)
