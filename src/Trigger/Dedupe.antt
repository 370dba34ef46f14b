-- ===== src/Trigger/Dedupe.antt =====
-- The loop of normalizeRefPrefixes (src/trigger_dispatcher.ts): which prefixes it collects.
use bit_relay.Prelude.{
  ◌≡◌, ◌⊎◌, inl, inr, refl, ap, sym, ◌∙◌, subst, Bool, true, false, ◌||◌, List, [], ◌∷◌, ◌++◌,
  String, str_eq, eq_iff, arith, any, Bool-cases, if◌then◌else◌,
}
use bit_relay.Text.{trim, is_empty}
use bit_relay.Room.{includes}
use bit_relay.Trigger.{dedupe_prefixes}

-- A text that one of the settings is once its white space is cut off, and not empty.
abbrev pub IsGiven : List String → String → Type 0
IsGiven [] prefix = ⊥
IsGiven (entry ∷ raw) prefix =
    ((trim entry ≡ prefix) × (is_empty prefix ≡ false)) ⊎ IsGiven raw prefix

abbrev pub Among : String → List String → Type 0
Among p [] = ⊥
Among p (q ∷ qs) = (q ≡ p) ⊎ Among p qs

Among-append : (p : String) (qs rs : List String) → Among p qs → Among p (qs ++ rs)
Among-append p [] rs h = absurd h
Among-append p (q ∷ qs) rs (inl e) = inl e
Among-append p (q ∷ qs) rs (inr h) = inr (Among-append p qs rs h)

Among-last : (p : String) (qs : List String) → Among p (qs ++ p ∷ [])
Among-last p [] = inl refl
Among-last p (q ∷ qs) = inr (Among-last p qs)

Among-snoc : (p q : String) (qs : List String) → Among p (qs ++ q ∷ []) → Among p qs ⊎ (q ≡ p)
Among-snoc p q [] (inl e) = inr e
Among-snoc p q [] (inr h) = absurd h
Among-snoc p q (r ∷ qs) (inl e) = inl (inl e)
Among-snoc p q (r ∷ qs) (inr h) = elim (Among-snoc p q qs h) [
  | inl there ↦ inl (inr there)
  | inr e ↦ inr e
]

pub includes-Among : (p : String) (qs : List String) → includes qs p ≡ true → Among p qs
includes-Among p [] h = absurd (ground arith)
includes-Among p (q ∷ qs) h = elim (Bool-cases (str_eq q p)) [
  | inl same ↦ inl ((eq_iff q p).0 same)
  | inr other ↦ inr (includes-Among p qs (ground arith))
]

pub any-Among :
    (f : String → Bool) (qs : List String)
    → any f qs ≡ true
    → (p : String) × Among p qs × (f p ≡ true)
any-Among f [] h = absurd (ground arith)
any-Among f (q ∷ qs) h = elim (Bool-cases (f q)) [
  | inl taken ↦ (q, inl refl, taken)
  | inr passed ↦ let (p, among, taken) = any-Among f qs (ground arith) in (p, inr among, taken)
]

pub Among-any :
    (f : String → Bool) (p : String) (qs : List String) → Among p qs → f p ≡ true → any f qs ≡ true
Among-any f p [] among h = absurd among
Among-any f p (q ∷ qs) (inl e) h = let taken : f q ≡ true = ap f e ∙ h in ground (arith, taken)
Among-any f p (q ∷ qs) (inr among) h = ground (arith, Among-any f p qs among h)

-- The prefixes with one more setting.
abbrev with_entry : List String → String → List String
with_entry dedupe entry =
    if is_empty (trim entry) || includes dedupe (trim entry)
    then dedupe
    else dedupe ++ trim entry ∷ []

with_entry-keeps :
    (p entry : String) (dedupe : List String) → Among p dedupe → Among p (with_entry dedupe entry)
with_entry-keeps p entry dedupe h =
    elim (Bool-cases (is_empty (trim entry) || includes dedupe (trim entry))) [
      | inl skipped ↦ rw skipped h
      | inr added ↦ rw added (Among-append p dedupe (trim entry ∷ []) h)
    ]

with_entry-has :
    (entry : String) (dedupe : List String)
    → is_empty (trim entry) ≡ false
    → Among (trim entry) (with_entry dedupe entry)
with_entry-has entry dedupe filled = elim (Bool-cases (includes dedupe (trim entry))) [
  | inl old ↦ rw (filled, old) (includes-Among (trim entry) dedupe old)
  | inr new ↦ rw (filled, new) (Among-last (trim entry) dedupe)
]

with_entry-from :
    (p entry : String) (dedupe : List String)
    → Among p (with_entry dedupe entry)
    → Among p dedupe ⊎ ((trim entry ≡ p) × (is_empty p ≡ false))
with_entry-from p entry dedupe h = elim (Bool-cases (is_empty (trim entry))) [
  | inl blank ↦ inl (subst (Among p) (rw blank refl) h)
  | inr filled ↦ elim (Bool-cases (includes dedupe (trim entry))) [
    | inl old ↦ inl (subst (Among p) (rw (filled, old) refl) h)
    | inr new ↦
        let h' : Among p (dedupe ++ trim entry ∷ []) = subst (Among p) (rw (filled, new) refl) h in
        elim (Among-snoc p (trim entry) dedupe h') [
          | inl there ↦ inl there
          | inr e ↦ inr (e, ap is_empty (sym e) ∙ filled)
        ]
  ]
]

dedupe-keeps :
    (p : String) (raw dedupe : List String) → Among p dedupe → Among p (dedupe_prefixes dedupe raw)
unfolding dedupe_prefixes
dedupe-keeps p [] dedupe h = h
dedupe-keeps p (entry ∷ raw) dedupe h =
    dedupe-keeps p raw (with_entry dedupe entry) (with_entry-keeps p entry dedupe h)

pub dedupe-has :
    (p : String) (raw dedupe : List String) → IsGiven raw p → Among p (dedupe_prefixes dedupe raw)
unfolding dedupe_prefixes
dedupe-has p [] dedupe h = absurd h
dedupe-has p (entry ∷ raw) dedupe (inl (e, filled)) = dedupe-keeps p raw (with_entry dedupe entry) (
    subst (λ q. Among q (with_entry dedupe entry)) e
      (with_entry-has entry dedupe (ap is_empty e ∙ filled)))
dedupe-has p (entry ∷ raw) dedupe (inr h) = dedupe-has p raw (with_entry dedupe entry) h

pub dedupe-from :
    (p : String) (raw dedupe : List String)
    → Among p (dedupe_prefixes dedupe raw)
    → Among p dedupe ⊎ IsGiven raw p
unfolding dedupe_prefixes
dedupe-from p [] dedupe h = inl h
dedupe-from p (entry ∷ raw) dedupe h = elim (dedupe-from p raw (with_entry dedupe entry) h) [
  | inl there ↦ elim (with_entry-from p entry dedupe there) [
    | inl old ↦ inl old
    | inr new ↦ inr (inl new)
  ]
  | inr later ↦ inr (inr later)
]
