-- ===== src/Webhook/Deliveries.antt =====
-- How often a delivery is tried, and how long the code waits (SendWithRetry of
-- scheduler/internal/webhook/webhook.go).
use bdopsflow.Prelude.{
  ℕ, zero, suc, ◌+◌, ◌*◌, ◌≤◌, ◌≡◌, refl, Bool, true, false, Option, none, some, arith,
}
use bdopsflow.Prelude.Int.{ℤ, pos, negsuc}
use bdopsflow.Election.{Bytes}
use bdopsflow.Webhook.{
  WebhookConfig, WebhookPayload, should_send_for_event, SendError, RetryError, Client, send_if,
  duration_of, check_response, perform_request, send_body, send, back_off, after_send, send_loop,
  send_with_retry,
}

-- The attempts that SendWithRetry makes at most.
unfoldable pub attempts : ℤ → ℕ
attempts (pos n) = suc n
attempts (negsuc n) = 0

-- The nanoseconds before `left` attempts, the first of which has the number `i`.
unfoldable pub backoffs : (left i : ℕ) → ℕ
backoffs zero i = 0
backoffs (suc left) i = i * i * 1_000_000_000 + backoffs left (suc i)

duration_of-le : (n : ℕ) → duration_of n ≤ n * 1_000_000_000
unfolding duration_of
duration_of-le n = ground arith

-- What the environment counts: the requests made, and the nanoseconds slept.
pub record Counts {S M Request : Type 0} (client : Client S M Request) (requests slept : S → ℕ)
    : Type 0 where
  pub perform_requests : (r : Request) (s : S) → requests (client.perform r s).0 ≡ suc (requests s)
  pub perform_slept : (r : Request) (s : S) → slept (client.perform r s).0 ≡ slept s
  pub sleep_requests : (n : ℕ) (s : S) → requests (client.sleep n s) ≡ requests s
  pub sleep_slept : (n : ℕ) (s : S) → slept (client.sleep n s) ≡ slept s + n

module _ {S M Request : Type 0} (client : Client S M Request) (requests slept : S → ℕ)
    (counts : Counts client requests slept) where
  -- At most `n` requests and `d` nanoseconds more than in the first state.
  record Spends (n d : ℕ) (s s' : S) : Type 0 where
    requested : requests s' ≤ requests s + n
    delayed : slept s' ≤ slept s + d

  check_response-Spends :
      (r : S × Option ℕ) (s : S)
      → requests r.0 ≡ suc (requests s)
      → slept r.0 ≡ slept s
      → Spends 1 0 s (check_response client r).0
  unfolding check_response
  check_response-Spends (s', none) s q d = record { requested = omega arith; delayed = omega arith }
  check_response-Spends (s', some c) s q d = record {
    requested = omega arith;
    delayed = omega arith;
  }

  perform_request-Spends :
      (config : WebhookConfig) (r : Option Request) (s : S)
      → Spends 1 0 s (perform_request client config r s).0
  unfolding perform_request
  perform_request-Spends config none s = record { requested = omega arith; delayed = omega arith }
  perform_request-Spends config (some r) s =
      check_response-Spends _ s (counts.perform_requests _ s) (counts.perform_slept _ s)

  send_body-Spends :
      (config : WebhookConfig) (body : Option Bytes) (s : S)
      → Spends 1 0 s (send_body client config body s).0
  unfolding send_body
  send_body-Spends config none s = record { requested = omega arith; delayed = omega arith }
  send_body-Spends config (some body) s = perform_request-Spends config _ s

  send_if-Spends :
      (b : Bool) (config : WebhookConfig) (payload : WebhookPayload M) (s : S)
      → Spends 1 0 s (send_if client b config payload s).0
  unfolding send_if
  send_if-Spends true config payload s = send_body-Spends config (client.marshal payload) s
  send_if-Spends false config payload s = record { requested = omega arith; delayed = omega arith }

  send-Spends :
      (config : WebhookConfig) (payload : WebhookPayload M) (s : S)
      → Spends 1 0 s (send client config payload s).0
  unfolding send
  send-Spends config payload s =
      send_if-Spends (should_send_for_event config.events payload.event) config payload s

  requests-back_off : (i : ℕ) (s : S) → requests (back_off client i s) ≡ requests s
  unfolding back_off
  requests-back_off zero s = refl
  requests-back_off (suc i) s = counts.sleep_requests _ s

  slept-back_off : (i : ℕ) (s : S) → slept (back_off client i s) ≤ slept s + i * i * 1_000_000_000
  unfolding back_off
  slept-back_off zero s = omega arith
  slept-back_off (suc i) s =
      ground
        (arith, counts.sleep_slept (duration_of (suc i * suc i)) s, duration_of-le (suc i * suc i))

  abbrev Rest : Type 0
  Rest = Option SendError → S → S × Option RetryError

  after_send-Spends :
      (n d w : ℕ) (again : Rest) (s s₁ : S) (r : S × Option SendError)
      → ((last : Option SendError) (s' : S) → Spends n d s' (again last s').0)
      → requests s₁ ≡ requests s
      → slept s₁ ≤ slept s + w
      → Spends 1 0 s₁ r.0
      → Spends (suc n) (w + d) s (after_send client again r).0
  unfolding after_send
  after_send-Spends n d w again s s₁ (s', none) ih q l sent = record {
    requested = ground (arith, sent.requested, q);
    delayed = ground (arith, sent.delayed, l);
  }
  after_send-Spends n d w again s s₁ (s', some e) ih q l sent = record {
    requested = ground (arith, sent.requested, q, (ih (some e) s').requested);
    delayed = ground (arith, sent.delayed, l, (ih (some e) s').delayed);
  }

  abbrev rest_of : ℤ → WebhookConfig → WebhookPayload M → (left i : ℕ) → Rest
  rest_of = send_loop client

  send_loop-Spends :
      (m : ℤ) (config : WebhookConfig) (payload : WebhookPayload M) (left i : ℕ)
      (last : Option SendError) (s : S)
      → Spends left (backoffs left i) s (rest_of m config payload left i last s).0
  unfolding send_loop backoffs
  send_loop-Spends m config payload zero i last s = record {
    requested = omega arith;
    delayed = omega arith;
  }
  send_loop-Spends m config payload (suc left) i last s =
      after_send-Spends left (backoffs left (suc i)) (i * i * 1_000_000_000) _ s _ _
        (send_loop-Spends m config payload left (suc i)) (requests-back_off i s)
        (slept-back_off i s) (send-Spends config payload (back_off client i s))

  -- A delivery is tried once more than the retries that are asked for, at most, and never when they are
  -- negative; the waits together last at most the sum of the squares of the retries' numbers, in seconds.
  pub send_with_retry-ends :
      (config : WebhookConfig) (payload : WebhookPayload M) (m : ℤ) (s : S)
      → (requests (send_with_retry client config payload m s).0 ≤ requests s + attempts m)
        × (slept (send_with_retry client config payload m s).0 ≤ slept s + backoffs (attempts m) 0)
  unfolding send_with_retry attempts
  send_with_retry-ends config payload (pos n) s =
      let spends = send_loop-Spends (pos n) config payload (suc n) 0 none s in
      (spends.requested, spends.delayed)
  send_with_retry-ends config payload (negsuc n) s =
      let spends = send_loop-Spends (negsuc n) config payload 0 0 none s in
      (spends.requested, spends.delayed)
