-- ===== src/Middleware/Asgi.antt =====
-- src/rate_limit_patterns/middleware/asgi.py: `RateLimitMiddleware`. The downstream application, the
-- key extractor and the event hook are the user's, and come in as arguments.
pub mod Guard
use rate_limit_patterns.Prelude.{
  ℕ, Bool, true, false, Option, none, some, List, [], ◌∷◌, ◌++◌, ◌&&◌, not, if◌then◌else◌,
}
use rate_limit_patterns.Prelude.Int.{ℤ}
use rate_limit_patterns.Prelude.Text.{Text, codes, text_eq}
use rate_limit_patterns.Models.{
  RateLimitConfig, RateLimitEvent, RateLimitResult, Error, value_error, key_error, index_error,
  runtime_error, rate_limit_exceeded, backend_unavailable, backend_configuration, redis_error,
  Result, ok, raise, Scale,
}
use rate_limit_patterns.Backend.Protocol.{RateLimitBackend}
use rate_limit_patterns.Middleware.Headers.{
  HeaderStyle, Headers, build_rate_limit_headers, build_rate_limit_header_bytes,
}
use rate_limit_patterns.Middleware.Shared.{
  FailureMode, fail_closed, fail_open, EventHookFailure, Emission, emit_rate_limit_event,
}

-- The attributes of the middleware.
pub record RateLimitMiddleware (Request : Type 0) : Type 0 where
  pub config : RateLimitConfig
  pub key_extractor : Request → Text
  pub failure_mode : FailureMode
  pub event_hook : Option (RateLimitEvent → Result (Unit {0}))
  pub event_hook_failure : EventHookFailure
  pub header_style : HeaderStyle
  pub backend_type : Text

-- A message that the application sends: the start of the response with its headers, or another.
pub data Message (Bytes : Type 0) : Type 0 where
  start : ℕ → List (Bytes × Bytes) → Message Bytes
  other : Text → Message Bytes

module _ {Bytes : Type 0} where
  -- `wrapped_send` with the headers to add: the message that is passed on, and `headers_sent`.
  unfoldable pub wrapped_send : List (Bytes × Bytes) → Bool → Message Bytes → Message Bytes × Bool
  wrapped_send extra true message = (message, true)
  wrapped_send extra false (start status headers) = (start status (headers ++ extra), true)
  wrapped_send extra false (other kind) = (other kind, false)

  -- The messages of one response, in order, each sent by `wrapped_send`.
  unfoldable pub send_all :
      List (Bytes × Bytes) → Bool → List (Message Bytes) → List (Message Bytes)
  send_all extra sent [] = []
  send_all extra sent (message ∷ messages) =
      let (passed, sent') = wrapped_send extra sent message in
      passed ∷ send_all extra sent' messages

-- What becomes of a request: the application is called as it is; it is called with another `send`,
-- which does this to the messages of its response; or the middleware responds itself.
pub data Handling (Bytes : Type 0) : Type 0 where
  forward : Handling Bytes
  forward_with : (List (Message Bytes) → List (Message Bytes)) → Handling Bytes
  respond : ℕ → Text → Headers → Handling Bytes

-- Whether the error is a RateLimitBackendUnavailableError.
abbrev pub is_unavailable : Error → Bool
is_unavailable backend_unavailable = true
is_unavailable value_error = false
is_unavailable key_error = false
is_unavailable index_error = false
is_unavailable runtime_error = false
is_unavailable (rate_limit_exceeded retry_after result) = false
is_unavailable backend_configuration = false
is_unavailable (redis_error e) = false

unfoldable pub backend_unavailable_response : {Bytes : Type 0} → Handling Bytes
backend_unavailable_response = respond 503 (codes "Rate limit backend unavailable") []

-- The branch on the failure mode.
abbrev pub on_unavailable : {Bytes : Type 0} → FailureMode → Handling Bytes
on_unavailable fail_open = forward
on_unavailable fail_closed = backend_unavailable_response

module _ (s : Scale) (str : ℤ → Text) {Bytes : Type 0} (encode : Text → Bytes) {Request : Type 0}
    (m : RateLimitMiddleware Request) where
  unfoldable pub rate_limit_response : RateLimitResult → Handling Bytes
  rate_limit_response result =
      respond 429 (codes "Rate limit exceeded")
        (build_rate_limit_headers s str result m.header_style)

  -- `_emit_event`
  abbrev pub emit_event : RateLimitResult → ℕ → Emission
  emit_event result latency_ms =
      emit_rate_limit_event m.event_hook m.event_hook_failure m.config.algorithm result
        m.backend_type latency_ms

  -- `_send_through_request`
  unfoldable pub send_through_request : RateLimitResult → Handling Bytes
  send_through_request result =
      forward_with
        (send_all (build_rate_limit_header_bytes s str encode result m.header_style) false)

  -- What follows the event, which may have raised.
  unfoldable pub decide : Result (Unit {0}) → RateLimitResult → Result (Handling Bytes)
  decide (raise e) result = raise e
  decide (ok done) result =
      if not result.allowed
      then ok (rate_limit_response result)
      else ok (send_through_request result)

  -- What follows the check; `latency_ms` is what the clock measured.
  unfoldable pub after_check :
      ℕ → Result RateLimitResult → Result (Handling Bytes) × Option RateLimitEvent
  after_check latency_ms (raise e) =
      (if is_unavailable e then ok (on_unavailable m.failure_mode) else raise e, none)
  after_check latency_ms (ok result) =
      let emission = emit_event result latency_ms in
      (decide emission.outcome result, emission.delivered)

  module _ {B : Type 0} (backend : RateLimitBackend B) where
    -- `__call__`, for a scope of the given type: what is done with the request, the event that was
    -- emitted, and the backend.
    unfoldable pub call :
        Text → Request → ℕ → B → Result (Handling Bytes) × Option RateLimitEvent × B
    call scope_type request latency_ms b =
        if not (text_eq scope_type (codes "http"))
        then (ok forward, none, b)
        else (let (checked, b') =
              backend.check_and_increment b (m.key_extractor request) m.config none in
            let (handling, event) = after_check latency_ms checked in (handling, event, b'))
