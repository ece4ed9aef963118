-- ===== src/Webhook/Events.antt =====
-- Which events reach a webhook (shouldSendForEvent of scheduler/internal/webhook/webhook.go).
use bdopsflow.Prelude.{
  ℕ, ◌≡◌, refl, ap, ◌≢◌, Bool, true, false, ◌||◌, List, [], ◌∷◌, none, if◌then◌else◌,
}
use bdopsflow.Prelude.Int.{pos}
use bdopsflow.Election.{Bytes, bytes_eq}
use bdopsflow.Election.Texts.{bytes_eq→eq}
use bdopsflow.Webhook.{
  WebhookConfig, WebhookPayload, every_event, lists_event, should_send_for_event, Client, send_if,
  send, back_off, after_send, send_loop, send_with_retry,
}

-- The configured events have this one, or all of them.
pub data Listed : List Bytes → Bytes → Type 0 where
  listed_here : {e event : Bytes} {es : List Bytes} → e ≡ event → Listed (e ∷ es) event
  listed_all : {e event : Bytes} {es : List Bytes} → e ≡ every_event → Listed (e ∷ es) event
  listed_there : {e event : Bytes} {es : List Bytes} → Listed es event → Listed (e ∷ es) event

lists_event-Listed :
    (es : List Bytes) (event : Bytes) → ¬ Listed es event → lists_event es event ≡ false
unfolding lists_event
lists_event-Listed [] event n = refl
lists_event-Listed (e ∷ es) event n =
    by_tests (bytes_eq e event) (bytes_eq e every_event) (λ m. lists_event-Listed es event m) refl
      refl
  where
    by_tests :
        (a b : Bool)
        → (¬ Listed es event → lists_event es event ≡ false)
        → bytes_eq e event ≡ a
        → bytes_eq e every_event ≡ b
        → (if a || b then true else lists_event es event) ≡ false
    by_tests true b ih p q = absurd (n (listed_here (bytes_eq→eq e event p)))
    by_tests false true ih p q = absurd (n (listed_all (bytes_eq→eq e every_event q)))
    by_tests false false ih p q = ih (λ l. n (listed_there l))

should_send_for_event-Listed :
    (es : List Bytes) (event : Bytes)
    → es ≢ []
    → ¬ Listed es event
    → should_send_for_event es event ≡ false
unfolding should_send_for_event
should_send_for_event-Listed [] event e n = absurd (e refl)
should_send_for_event-Listed (x ∷ es) event e n = lists_event-Listed (x ∷ es) event n

module _ {S M Request : Type 0} (client : Client S M Request) where
  -- With retries that are not negative, a webhook that has events configured, but neither this one nor
  -- all, is sent nothing: the world
  -- stays as it is, nothing is waited for, and the delivery counts as a success.
  pub send_with_retry-unlisted :
      (config : WebhookConfig) (payload : WebhookPayload M) (n : ℕ) (s : S)
      → config.events ≢ []
      → ¬ Listed config.events payload.event
      → send_with_retry client config payload (pos n) s ≡ (s, none)
  unfolding send_with_retry send_loop send send_if back_off after_send
  send_with_retry-unlisted config payload n s e l =
      ap
        (λ b.
          after_send client (send_loop client (pos n) config payload n 1)
            (send_if client b config payload s))
        (should_send_for_event-Listed config.events payload.event e l)
