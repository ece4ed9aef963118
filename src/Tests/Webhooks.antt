-- ===== src/Tests/Webhooks.antt =====
-- The webhooks' theorems on a client that counts, and whose requests all fail.
use bdopsflow.Prelude.{ℕ, suc, ◌+◌, ◌≤◌, ◌≡◌, refl, [], ◌∷◌, none, some}
use bdopsflow.Prelude.Int.{pos}
use bdopsflow.Election.{Bytes}
use bdopsflow.Webhook.{
  WebhookConfig, WebhookPayload, Client, send_with_retry, send_loop, after_send, send, send_if,
  should_send_for_event, lists_event, send_body, perform_request, check_response, back_off,
  duration_of, request_failed, failed_after_retries,
}
use bdopsflow.Webhook.Deliveries.{Counts, attempts, backoffs, send_with_retry-ends}
use bdopsflow.Webhook.Events.{
  Listed, listed_here, listed_all, listed_there, send_with_retry-unlisted,
}

-- The requests made, and the nanoseconds slept.
abbrev World : Type 0
World = ℕ × ℕ

abbrev broken : Client World ℕ Bytes
broken = record {
  marshal = λ p. some p.event;
  new_request = λ m u b. some b;
  set_header = λ k v r. r;
  perform = λ r s. ((suc s.0, s.1), none);
  sleep = λ n s. (s.0, s.1 + n);
}

abbrev config : WebhookConfig
config = record { url = 104 ∷ []; method = []; headers = []; events = (1 ∷ []) ∷ (2 ∷ []) ∷ [] }

abbrev on_event : ℕ → WebhookPayload ℕ
on_event n = record {
  event = n ∷ [];
  timestamp = pos 0;
  task_id = pos 1;
  execution_id = 5 ∷ [];
  status = [];
  output = [];
  error = [];
  duration = pos 0;
  metadata = none;
}

broken-Counts : Counts broken (λ (s : World). s.0) (λ (s : World). s.1)
broken-Counts = record {
  perform_requests = λ r s. refl;
  perform_slept = λ r s. refl;
  sleep_requests = λ n s. refl;
  sleep_slept = λ n s. refl;
}

-- Three requests, and waits of one and of four seconds.
send_with_retry_test :
    send_with_retry broken config (on_event 2) (pos 2) (0, 0)
    ≡ ((3, 5_000_000_000), some (failed_after_retries (pos 2) (some request_failed)))
unfolding send_with_retry send_loop after_send send send_if should_send_for_event lists_event
    send_body perform_request check_response back_off duration_of
send_with_retry_test = refl

send_with_retry-ends_example :
    ((send_with_retry broken config (on_event 2) (pos 2) (0, 0)).0.0 ≤ 0 + attempts (pos 2))
    × ((send_with_retry broken config (on_event 2) (pos 2) (0, 0)).0.1
        ≤ 0 + backoffs (attempts (pos 2)) 0)
send_with_retry-ends_example =
    send_with_retry-ends broken (λ (s : World). s.0) (λ (s : World). s.1) broken-Counts config
      (on_event 2) (pos 2) (0, 0)

third-unlisted : ¬ Listed config.events (on_event 3).event
third-unlisted (listed_here h) = cc
third-unlisted (listed_all h) = cc
third-unlisted (listed_there (listed_here h)) = cc
third-unlisted (listed_there (listed_all h)) = cc
third-unlisted (listed_there (listed_there x)) = elim x [ ]

send_with_retry-unlisted_example :
    send_with_retry broken config (on_event 3) (pos 2) (0, 0) ≡ ((0, 0), none)
send_with_retry-unlisted_example =
    send_with_retry-unlisted broken config (on_event 3) 2 (0, 0) (λ h. cc) third-unlisted
