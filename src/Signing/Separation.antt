-- ===== src/Signing/Separation.antt =====
-- The three texts that a client may sign are never confused.
use bit_relay.Prelude.{zero, suc, ap, ℕ, ◌≢◌, List, [], ◌∷◌, arith}
use bit_relay.Signing.{
  PublishSigningInput, ReviewSigningInput, RotateSigningInput, build_publish_signing_message,
  build_review_signing_message, build_rotate_signing_message,
}

abbrev code_at : ℕ → List ℕ → ℕ
code_at i [] = 0
code_at zero (c ∷ cs) = c
code_at (suc i) (c ∷ cs) = code_at i cs

-- No text that is signed for a publish is the text of a review or of a key rotation, and no text
-- signed for a review is that of a rotation: a signature for one operation is none for another.
pub signing_messages_differ :
    (p : PublishSigningInput) (v : ReviewSigningInput) (k : RotateSigningInput)
    → (build_publish_signing_message p ≢ build_review_signing_message v)
      × (build_publish_signing_message p ≢ build_rotate_signing_message k)
      × (build_review_signing_message v ≢ build_rotate_signing_message k)
unfolding build_publish_signing_message build_review_signing_message build_rotate_signing_message
signing_messages_differ p v k = (
  λ e. omega (arith, ap (code_at 3) e),
  λ e. omega (arith, ap (code_at 3) e),
  λ e. omega (arith, ap (code_at 7) e),
)
