-- ===== src/Relay/Keeps.antt =====
-- Handlers that keep a property of the state, by the parts that they are made of.
use bit_relay.Prelude.{◌≡◌, refl, Bool, true, false, Option, none, some, ℕ, String}
use bit_relay.Relay.{Relay}
use bit_relay.Relay.Action.{
  Outcome, next, reply, Action, continue, ◌>>=◌, ◌>>◌, pure, raise, raise_if, or_raise, gets, run,
}

module _ {ℓ} (P : Relay → Type ℓ) where
  -- Whatever the outcome, the property still holds.
  abbrev pub Keeps {κ} : {A : Type κ} → Action A → Type ℓ
  Keeps m = (s : Relay) → P s → P (m s).0

  pub raise-Keeps {κ} :
      (A : Type κ) (status : ℕ) (message : String) → Keeps (raise {A = A} status message)
  unfolding raise
  raise-Keeps A status message s h = h

  module _ {κ} {A : Type κ} where
    pub pure-Keeps : (a : A) → Keeps (pure a)
    unfolding pure
    pure-Keeps a s h = h

    pub gets-Keeps : (f : Relay → A) → Keeps (gets f)
    unfolding gets
    gets-Keeps f s h = h

    pub run-Keeps : (f : Relay → Relay × A) → ((s : Relay) → P s → P (f s).0) → Keeps (run f)
    unfolding run
    run-Keeps f keeps s h = keeps s h

    pub or_raise-Keeps :
        (o : Option A) (status : ℕ) (message : String) → Keeps (or_raise o status message)
    unfolding or_raise pure raise
    or_raise-Keeps none status message s h = h
    or_raise-Keeps (some a) status message s h = h

  module _ {κ λ'} {A : Type κ} {B : Type λ'} where
    continue-Keeps :
        (k : A → Action B)
        → ((a : A) → Keeps (k a))
        → (s : Relay) (outcome : Outcome A) → P s
        → P (continue k s outcome).0
    continue-Keeps k keeps s (next a) h = keeps a s h
    continue-Keeps k keeps s (reply response) h = h

    pub >>=-Keeps :
        (m : Action A) (k : A → Action B) → Keeps m → ((a : A) → Keeps (k a)) → Keeps (m >>= k)
    unfolding ◌>>=◌
    >>=-Keeps m k here later s h = continue-Keeps k later (m s).0 (m s).1 (here s h)

    -- A test before the rest, which runs where it fails.
    pub gets->>=-Keeps :
        (f : Relay → A) (k : A → Action B)
        → ((s : Relay) → P s → P (k (f s) s).0)
        → Keeps (gets f >>= k)
    unfolding ◌>>=◌ gets
    gets->>=-Keeps f k keeps s h = keeps s h

    pub or_raise->>=-Keeps :
        (o : Option A) (status : ℕ) (message : String) (k : A → Action B) (s : Relay)
        → P s
        → ((a : A) → o ≡ some a → P (k a s).0)
        → P ((or_raise o status message >>= k) s).0
    unfolding ◌>>=◌ or_raise pure raise
    or_raise->>=-Keeps none status message k s h keeps = h
    or_raise->>=-Keeps (some a) status message k s h keeps = keeps a refl

  module _ {κ} {B : Type κ} where
    pub guard-Keeps :
        (test : Bool) (status : ℕ) (message : String) (k : Action B)
        → (test ≡ false → Keeps k)
        → Keeps (raise_if test status message >> k)
    unfolding ◌>>=◌ raise_if
    guard-Keeps true status message k keeps s h = h
    guard-Keeps false status message k keeps s h = keeps refl s h
