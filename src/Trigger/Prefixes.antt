-- ===== src/Trigger/Prefixes.antt =====
-- The prefixes of the dispatcher (normalizeRefPrefixes of src/trigger_dispatcher.ts) and what they
-- take.
use bit_relay.Prelude.{
  ℕ, ◌≡◌, ◌⊎◌, ◌↔◌, inl, inr, refl, ap, sym, ◌∙◌, subst, true, List, [], ◌∷◌, ◌++◌, some, String,
  arith, All, Bool-cases, Option-cases, ◌==◌,
}
use bit_relay.Text.{trim, is_empty, chars}
use bit_relay.GitRefs.{strip_prefix}
use bit_relay.Trigger.Dedupe.{IsGiven, Among, any-Among, Among-any, dedupe-has, dedupe-from}
use bit_relay.Trigger.{
  dedupe_prefixes, or_default, normalize_ref_prefixes, starts_with, is_incoming_relay_ref,
}

-- A ref that is a prefix and what follows it.
abbrev pub StartsWith : List ℕ → String → Type 0
StartsWith ref prefix = (rest : List ℕ) × (ref ≡ chars prefix ++ rest)

-- The prefixes in force: those set, and where every setting is blank, the incoming one.
abbrev pub IsPrefix : List String → String → Type 0
IsPrefix raw prefix =
    IsGiven raw prefix
    ⊎ (All (λ entry. is_empty (trim entry) ≡ true) raw × (prefix ≡ "refs/relay/incoming/"))

blank-dedupe :
    (raw : List String)
    → All (λ entry. is_empty (trim entry) ≡ true) raw
    → dedupe_prefixes [] raw ≡ []
unfolding dedupe_prefixes
blank-dedupe [] h = refl
blank-dedupe (entry ∷ raw) (blank, h) = rw blank (blank-dedupe raw h)

none-blank :
    (raw : List String)
    → ((p : String) → ¬ (IsGiven raw p))
    → All (λ entry. is_empty (trim entry) ≡ true) raw
none-blank [] h = tt
none-blank (entry ∷ raw) h = (
  elim (Bool-cases (is_empty (trim entry))) [
    | inl blank ↦ blank
    | inr filled ↦ absurd (h (trim entry) (inl (refl, filled)))
  ],
  none-blank raw (λ p set. h p (inr set)),
)

default-IsPrefix :
    (raw found : List String) (p : String)
    → dedupe_prefixes [] raw ≡ found
    → Among p (or_default found)
    → IsPrefix raw p
default-IsPrefix raw [] p e (inl same) =
    inr (none-blank raw (λ q set. subst (Among q) e (dedupe-has q raw [] set)), sym same)
default-IsPrefix raw [] p e (inr h) = absurd h
default-IsPrefix raw (q ∷ qs) p e h = elim (dedupe-from p raw [] (subst (Among p) (sym e) h)) [
  | inl there ↦ absurd there
  | inr set ↦ inl set
]

Among-default : (p : String) (found : List String) → Among p found → Among p (or_default found)
Among-default p [] h = absurd h
Among-default p (q ∷ qs) h = h

IsPrefix-default :
    (raw : List String) (p : String)
    → IsPrefix raw p
    → Among p (or_default (dedupe_prefixes [] raw))
IsPrefix-default raw p (inl set) =
    Among-default p (dedupe_prefixes [] raw) (dedupe-has p raw [] set)
IsPrefix-default raw p (inr (blank, e)) = rw (blank-dedupe raw blank) (inl (sym e))

pub strip_prefix-append : (prefix run : List ℕ) → strip_prefix prefix (prefix ++ run) ≡ some run
unfolding strip_prefix
strip_prefix-append [] run = refl
strip_prefix-append (p ∷ ps) run = ground (arith, strip_prefix-append ps run)

strip_prefix-shape :
    (prefix ref rest : List ℕ) → strip_prefix prefix ref ≡ some rest → ref ≡ prefix ++ rest
unfolding strip_prefix
strip_prefix-shape [] ref rest e = cc
strip_prefix-shape (p ∷ ps) [] rest e = absurd (ground arith)
strip_prefix-shape (p ∷ ps) (c ∷ cs) rest e = elim (Bool-cases (p == c)) [
  | inl same ↦
      let shorter : cs ≡ ps ++ rest = strip_prefix-shape ps cs rest (ground arith) in
      let first : p ≡ c = ground arith in rw (shorter, first) refl
  | inr other ↦ absurd (ground arith)
]

starts_with_iff :
    (ref : List ℕ) (prefix : String) → (starts_with ref prefix ≡ true) ↔ StartsWith ref prefix
unfolding starts_with
starts_with_iff ref prefix = elim (Option-cases (strip_prefix (chars prefix) ref)) [
  | inl e ↦ (
    (λ h. absurd (ground arith)),
    λ (rest, shape). absurd (
        let found : strip_prefix (chars prefix) ref ≡ some rest =
          ap (strip_prefix (chars prefix)) shape ∙ strip_prefix-append (chars prefix) rest in
        ground (arith, found)),
  )
  | inr (rest, e) ↦
      ((λ h. (rest, strip_prefix-shape (chars prefix) ref rest e)), λ h. rw (starts_with, e) refl)
]

-- A ref is taken just where it starts with a prefix in force.
pub is_incoming_relay_ref_iff :
    (ref : List ℕ) (raw : List String)
    → (is_incoming_relay_ref ref raw ≡ true)
      ↔ ((prefix : String) × IsPrefix raw prefix × StartsWith ref prefix)
unfolding is_incoming_relay_ref normalize_ref_prefixes
is_incoming_relay_ref_iff ref raw = (
  (λ h.
      let (p, among, taken) = any-Among (starts_with ref) (or_default (dedupe_prefixes [] raw)) h in
      (
        p,
        default-IsPrefix raw (dedupe_prefixes [] raw) p refl among,
        (starts_with_iff ref p).0 taken,
      )),
  λ (p, force, starts).
      Among-any (starts_with ref) p (or_default (dedupe_prefixes [] raw))
        (IsPrefix-default raw p force) ((starts_with_iff ref p).1 starts),
)
