-- ===== src/Webhook.antt =====
-- scheduler/internal/webhook/webhook.go: which events a webhook is sent, one delivery, and the
-- deliveries that are tried again. The encoder of JSON, the HTTP client and the clock are not this
-- code's: they are parameters. Durations are nanoseconds.
-- The headers are in the order in which Go ranges over their map.
pub mod Deliveries
pub mod Events
use bdopsflow.Prelude.{
  ℕ, zero, suc, ◌+◌, ◌*◌, ◌%◌, ◌^◌, Bool, true, false, ◌||◌, ◌&&◌, not, List, [], ◌∷◌, Option, none,
  some, if◌then◌else◌, ltb,
}
use bdopsflow.Prelude.Int.{ℤ, pos, negsuc}
use bdopsflow.Election.{Bytes, bytes_eq}

pub record WebhookConfig : Type 0 where
  pub url : Bytes
  pub method : Bytes
  pub headers : List (Bytes × Bytes)
  pub events : List Bytes

-- `M` is the type of the metadata, which the encoder alone reads.
pub record WebhookPayload (M : Type 0) : Type 0 where
  pub event : Bytes
  pub timestamp : ℤ
  pub task_id : ℤ
  pub execution_id : Bytes
  pub status : Bytes
  pub output : Bytes
  pub error : Bytes
  pub duration : ℤ
  pub metadata : Option M

-- `*`
abbrev pub every_event : Bytes
every_event = 42 ∷ []

-- `POST`
abbrev pub post : Bytes
post = 80 ∷ 79 ∷ 83 ∷ 84 ∷ []

-- `Content-Type` and `application/json`
abbrev pub content_type_key : Bytes
content_type_key = 67 ∷ 111 ∷ 110 ∷ 116 ∷ 101 ∷ 110 ∷ 116 ∷ 45 ∷ 84 ∷ 121 ∷ 112 ∷ 101 ∷ []

abbrev pub application_json : Bytes
application_json =
    97 ∷ 112 ∷ 112 ∷ 108 ∷ 105 ∷ 99 ∷ 97 ∷ 116 ∷ 105 ∷ 111 ∷ 110 ∷ 47 ∷ 106 ∷ 115 ∷ 111 ∷ 110 ∷ []

unfoldable pub lists_event : List Bytes → Bytes → Bool
lists_event [] event = false
lists_event (e ∷ es) event =
    let rest = lists_event es event in
    if bytes_eq e event || bytes_eq e every_event then true else rest

unfoldable pub should_send_for_event : List Bytes → Bytes → Bool
should_send_for_event [] event = true
should_send_for_event (e ∷ es) event = lists_event (e ∷ es) event

pub data SendError : Type 0 where
  failed_to_marshal failed_to_create_request request_failed : SendError
  non_2xx : (status : ℕ) → SendError

-- What SendWithRetry returns when no attempt is left: the error of the last one, if there was one.
pub data RetryError : Type 0 where
  failed_after_retries : ℤ → Option SendError → RetryError

unfoldable pub or_post : Bytes → Bytes
or_post [] = post
or_post (c ∷ m) = c ∷ m

unfoldable pub is_2xx : ℕ → Bool
is_2xx code = not (ltb code 200) && ltb code 300

-- A sleep of so many seconds in the 64 bits of a Duration; a negative one ends at once.
unfoldable pub duration_of : ℕ → ℕ
duration_of n = let d = (n * 1_000_000_000) % 2 ^ 64 in if ltb d (2 ^ 63) then d else 0

-- What the code is given: `S` is the state of the world. `perform` is a request and the status of its
-- answer, if there is one.
pub record Client (S M Request : Type 0) : Type 0 where
  pub marshal : WebhookPayload M → Option Bytes
  pub new_request : (method url body : Bytes) → Option Request
  pub set_header : (key value : Bytes) → Request → Request
  pub perform : Request → S → S × Option ℕ
  pub sleep : ℕ → S → S

module _ {S M Request : Type 0} (client : Client S M Request) where
  unfoldable pub set_headers : List (Bytes × Bytes) → Request → Request
  set_headers [] r = r
  set_headers ((k, v) ∷ hs) r = set_headers hs (client.set_header k v r)

  unfoldable pub content_type : Request → Request
  content_type r = client.set_header content_type_key application_json r

  unfoldable pub check_response : S × Option ℕ → S × Option SendError
  check_response (s, none) = (s, some request_failed)
  check_response (s, some code) = (s, (if is_2xx code then none else some (non_2xx code)))

  unfoldable pub perform_request : WebhookConfig → Option Request → S → S × Option SendError
  perform_request config none s = (s, some failed_to_create_request)
  perform_request config (some r) s =
      check_response (client.perform (set_headers config.headers (content_type r)) s)

  unfoldable pub send_body : WebhookConfig → Option Bytes → S → S × Option SendError
  send_body config none s = (s, some failed_to_marshal)
  send_body config (some body) s =
      perform_request config (client.new_request (or_post config.method) config.url body) s

  unfoldable pub send_if : Bool → WebhookConfig → WebhookPayload M → S → S × Option SendError
  send_if true config payload s = send_body config (client.marshal payload) s
  send_if false config payload s = (s, none)

  unfoldable pub send : WebhookConfig → WebhookPayload M → S → S × Option SendError
  send config payload s =
      send_if (should_send_for_event config.events payload.event) config payload s

  -- The wait before an attempt, none before the first.
  unfoldable pub back_off : ℕ → S → S
  back_off zero s = s
  back_off (suc n) s = client.sleep (duration_of (suc n * suc n)) s

  -- `again` is the rest of the loop.
  unfoldable pub after_send :
      (again : Option SendError → S → S × Option RetryError)
      → S × Option SendError
      → S × Option RetryError
  after_send again (s, none) = (s, none)
  after_send again (s, some e) = again (some e) s

  -- `left` attempts remain, `i` have been made.
  unfoldable pub send_loop :
      ℤ
      → WebhookConfig
      → WebhookPayload M
      → (left i : ℕ) → Option SendError
      → S
      → S × Option RetryError
  send_loop max_retries config payload zero i last s =
      (s, some (failed_after_retries max_retries last))
  send_loop max_retries config payload (suc left) i last s =
      after_send (send_loop max_retries config payload left (suc i))
        (send config payload (back_off i s))

  unfoldable pub send_with_retry : WebhookConfig → WebhookPayload M → ℤ → S → S × Option RetryError
  send_with_retry config payload (pos n) s = send_loop (pos n) config payload (suc n) 0 none s
  send_with_retry config payload (negsuc n) s = send_loop (negsuc n) config payload 0 0 none s
