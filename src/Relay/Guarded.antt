-- ===== src/Relay/Guarded.antt =====
-- Handlers that leave a part of the state alone unless a condition holds.
use bit_relay.Prelude.{
  ◌≡◌, refl, ◌∙◌, ◌⊎◌, inl, inr, Bool, true, false, Option, none, some, ℕ, String,
}
use bit_relay.Relay.{Relay}
use bit_relay.Relay.Action.{Action, ◌>>=◌, ◌>>◌, pure, raise, raise_if, or_raise, run}

module _ {ℓ κ} {X : Type ℓ} (part : Relay → X) (C : Type κ) where
  abbrev pub Guarded {λ'} : {A : Type λ'} → Action A → Relay → Type (ℓ ⊔ κ)
  Guarded m s = (part (m s).0 ≡ part s) ⊎ C

  module _ {λ'} {B : Type λ'} where
    pub pure-Guarded : (b : B) (s : Relay) → Guarded (pure b) s
    unfolding pure
    pure-Guarded b s = inl refl

    pub guard-Guarded :
        (test : Bool) (status : ℕ) (reason : String) (k : Action B) (s : Relay)
        → (test ≡ false → Guarded k s)
        → Guarded (raise_if test status reason >> k) s
    unfolding ◌>>=◌ raise_if
    guard-Guarded true status reason k s h = inl refl
    guard-Guarded false status reason k s h = h refl

    pub or_raise-Guarded {μ} :
        {A : Type μ} (found : Option A) (status : ℕ) (reason : String) (k : A → Action B)
        (s : Relay)
        → ((a : A) → found ≡ some a → Guarded (k a) s)
        → Guarded (or_raise found status reason >>= k) s
    unfolding ◌>>=◌ or_raise raise pure
    or_raise-Guarded none status reason k s h = inl refl
    or_raise-Guarded (some a) status reason k s h = h a refl

    -- An operation that leaves the part alone, before the rest.
    pub run-Guarded {μ} :
        {A : Type μ} (f : Relay → Relay × A) (k : A → Action B) (s : Relay)
        → part (f s).0 ≡ part s
        → Guarded (k (f s).1) (f s).0
        → Guarded (run f >>= k) s
    unfolding ◌>>=◌ run
    run-Guarded f k s same (inl kept) = inl (kept ∙ same)
    run-Guarded f k s same (inr c) = inr c
