-- ===== src/CacheExchange/Classify.antt =====
-- When a second envelope under an id is a duplicate (classifyCacheExchangeCollision,
-- src/cache_exchange.ts).
use mathlib.Core.Path.{ap₂}
use bit_relay.Prelude.{
  not, all, ℕ, ◌≡◌, ◌≢◌, ◌↔◌, refl, true, List, [], ◌∷◌, ◌++◌, arith, ◌==◌, All,
}
use bit_relay.Text.{chars, same_iff}
use bit_relay.Json.{Number}
use bit_relay.Signing.{canonicalize_json, join}
use bit_relay.Room.{Envelope}
use bit_relay.CacheExchange.{
  CacheExchangeCollision, signature_text, envelope_canonical_signature,
  classify_cache_exchange_collision,
}

abbrev pub OneLine : List ℕ → Type 0
OneLine = All (λ c. c ≢ 10)

-- A text without line breaks is found by running through it.
pub all-OneLine : (xs : List ℕ) → all (λ c. not (c == 10)) xs ≡ true → OneLine xs
all-OneLine [] h = tt
all-OneLine (x ∷ xs) h = (ground arith, all-OneLine xs (ground arith))

-- A text is cut at its first line break in one way.
first_line :
    (xs xs' ys ys' : List ℕ)
    → OneLine xs
    → OneLine ys
    → xs ++ 10 ∷ xs' ≡ ys ++ 10 ∷ ys'
    → (xs ≡ ys) × (xs' ≡ ys')
first_line [] xs' [] ys' h k e = (refl, cc)
first_line [] xs' (y ∷ ys) ys' h (here, k) e = absurd (here cc)
first_line (x ∷ xs) xs' [] ys' (here, h) k e = absurd (here cc)
first_line (x ∷ xs) xs' (y ∷ ys) ys' (p, h) (q, k) e =
    let (front, back) = first_line xs xs' ys ys' h k cc in
    let same_head : x ≡ y = cc in (ap₂ ◌∷◌ same_head front, back)

module _ (number_text : Number → List ℕ) where
  -- The first three of the four lines that are compared hold no line break.
  abbrev pub IsPlain : Envelope → Type 0
  IsPlain e =
      OneLine (chars e.sender)
      × OneLine (chars e.topic)
      × OneLine (canonicalize_json number_text e.payload)

  -- Two envelopes with no line break in sender, topic and canonical payload are duplicates just
  -- where sender, topic, canonical payload and signature agree; room and id are not compared.
  pub classify-duplicate_iff :
      (existing incoming : Envelope)
      → IsPlain existing
      → IsPlain incoming
      → (classify_cache_exchange_collision number_text existing incoming
          ≡ CacheExchangeCollision.duplicate)
        ↔ ((chars existing.sender ≡ chars incoming.sender)
            × (chars existing.topic ≡ chars incoming.topic)
            × (canonicalize_json number_text existing.payload
                ≡ canonicalize_json number_text incoming.payload)
            × (signature_text existing.signature ≡ signature_text incoming.signature))
  unfolding classify_cache_exchange_collision envelope_canonical_signature join
  classify-duplicate_iff a b (pa, qa, ra) (pb, qb, rb) = (
    λ h.
        let whole =
          (same_iff (envelope_canonical_signature number_text a)
              (envelope_canonical_signature number_text b)).0
            (ground arith) in
        let (s, rest) = first_line _ _ _ _ pa pb whole in
        let (t, rest') = first_line _ _ _ _ qa qb rest in
        let (p, g) = first_line _ _ _ _ ra rb rest' in (s, t, p, g),
    λ (s, t, p, g).
        let whole : envelope_canonical_signature number_text a
            ≡ envelope_canonical_signature number_text b =
          rw (s, t, p, g) in
        let equal = (same_iff _ _).1 whole in rw equal,
  )
