-- ===== src/Relay/Action.antt =====
-- A handler as an action on the relay's state that goes on with a value or replies at once.
use bit_relay.Prelude.{Bool, Option, none, some, ℕ, String, if◌then◌else◌}
use bit_relay.Relay.{Relay, Response, error_response}

pub data Outcome {ℓ} (A : Type ℓ) : Type ℓ where
  next : A → Outcome A
  reply : Response → Outcome A

abbrev pub Action {ℓ} : Type ℓ → Type ℓ
Action A = Relay → Relay × Outcome A

abbrev pub continue {ℓ κ} :
    {A : Type ℓ} {B : Type κ} → (A → Action B) → Relay → Outcome A → Relay × Outcome B
continue k s (next a) = k a s
continue k s (reply response) = (s, reply response)

infixl 5 ◌>>=◌ ◌>>◌
unfoldable pub ◌>>=◌ {ℓ κ} : {A : Type ℓ} {B : Type κ} → Action A → (A → Action B) → Action B
◌>>=◌ m k s = let (s', outcome) = m s in continue k s' outcome

abbrev pub ◌>>◌ {ℓ} : {B : Type ℓ} → Action (Unit {0}) → Action B → Action B
m >> k = m >>= λ _. k

module _ {ℓ} {A : Type ℓ} where
  unfoldable pub pure : A → Action A
  pure a s = (s, next a)

  unfoldable pub raise : ℕ → String → Action A
  raise status message s = (s, reply (error_response status message))

  unfoldable pub gets : (Relay → A) → Action A
  gets f s = (s, next (f s))

  -- An operation that changes the state and has a result.
  unfoldable pub run : (Relay → Relay × A) → Action A
  run f s = let (s', a) = f s in (s', next a)

  unfoldable pub or_raise : Option A → ℕ → String → Action A
  unfolding pure raise
  or_raise none status message = raise status message
  or_raise (some a) status message = pure a

unfoldable pub raise_if : Bool → ℕ → String → Action (Unit {0})
raise_if test status message s =
    (s, if test then reply (error_response status message) else next tt)

unfoldable pub modify : (Relay → Relay) → Action (Unit {0})
modify f s = (f s, next tt)

-- The reply of a handler that ends with one.
abbrev pub response_of : Outcome Response → Response
response_of (next response) = response
response_of (reply response) = response
