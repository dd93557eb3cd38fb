-- ===== src/Middleware/Fastapi/Agreement.antt =====
-- The FastAPI dependency against the ASGI middleware.
use mathlib.Core.Path.{subst}
use rate_limit_patterns.Prelude.{
  ℕ, ◌≡◌, refl, sym, arith, Bool, true, false, not, none, List, [], if◌then◌else◌,
}
use rate_limit_patterns.Prelude.Int.{ℤ, pos}
use rate_limit_patterns.Prelude.Text.{Text, codes, text_eq}
use rate_limit_patterns.Models.{
  RateLimitResult, Error, value_error, key_error, index_error, runtime_error, rate_limit_exceeded,
  backend_unavailable, backend_configuration, redis_error, Result, ok, raise, Scale, make_result,
}
use rate_limit_patterns.Backend.Protocol.{RateLimitBackend}
use rate_limit_patterns.Middleware.Headers.{
  Headers, build_rate_limit_headers, build_rate_limit_header_bytes,
}
use rate_limit_patterns.Middleware.Shared.{FailureMode, fail_open, fail_closed}
use rate_limit_patterns.Middleware.Asgi
use rate_limit_patterns.Middleware.Asgi.Guard.{AddsHeaders, send_all-start}
use rate_limit_patterns.Middleware.Fastapi.{
  RateLimitDependency, Outcome, proceed, http_exception, open_result, proceed_with, on_unavailable,
  decide, after_check, call,
}

module _ (s : Scale) (str : ℤ → Text) {Bytes : Type 0} (encode : Text → Bytes) {Request : Type 0}
    (m : Asgi.RateLimitMiddleware Request) where
  -- The dependency with the arguments of the middleware.
  abbrev pub as_dependency : RateLimitDependency Request
  as_dependency = record {
    config = m.config;
    key_extractor = m.key_extractor;
    failure_mode = m.failure_mode;
    event_hook = m.event_hook;
    event_hook_failure = m.event_hook_failure;
    header_style = m.header_style;
    backend_type = m.backend_type;
  }

  -- What the two do about one request, to the same effect.
  pub data Agrees : Result (Asgi.Handling Bytes) → Result Outcome → Type 0 where
    passed :
        {result : RateLimitResult} {headers : Headers}
        {send : List (Asgi.Message Bytes) → List (Asgi.Message Bytes)}
        → AddsHeaders encode headers send
        → Agrees (ok (Asgi.forward_with send)) (ok (proceed result headers))
    opened :
        {result : RateLimitResult}
        → result.allowed ≡ true
        → Agrees (ok Asgi.forward) (ok (proceed result []))
    refused :
        {status : ℕ} {detail : Text} {headers : Headers}
        → Agrees
            (ok (Asgi.respond status detail headers))
            (ok (http_exception status detail headers))
    raised : {e : Error} → Agrees (raise e) (raise e)

  open_result-ok :
      open_result m.config
      ≡ ok (record {
        allowed = true;
        remaining = pos m.config.limit;
        limit = m.config.limit;
        retry_after = none;
        reset_at = none;
        request_count = pos 0;
      })
  unfolding open_result make_result
  open_result-ok = ground arith

  unavailable-Agrees :
      (mode : FailureMode) → Agrees (ok (Asgi.on_unavailable mode)) (on_unavailable m.config mode)
  unfolding Asgi.backend_unavailable_response
  unavailable-Agrees fail_open =
      subst (λ r. Agrees (ok Asgi.forward) (proceed_with r)) (sym open_result-ok) (opened refl)
  unavailable-Agrees fail_closed = refused

  decide-Agrees :
      (event : Result (Unit {0})) (result : RateLimitResult)
      → Agrees (Asgi.decide s str encode m event result) (decide s str as_dependency event result)
  unfolding Asgi.decide decide Asgi.rate_limit_response Asgi.send_through_request
      build_rate_limit_header_bytes
  decide-Agrees (raise e) result = raised
  decide-Agrees (ok done) result = go result.allowed
    where
      go :
          (allowed : Bool)
          → Agrees
              (if not allowed
                then ok (Asgi.rate_limit_response s str encode m result)
                else ok (Asgi.send_through_request s str encode m result))
              (if not allowed
                then ok (
                    http_exception 429
                      (codes "Rate limit exceeded")
                      (build_rate_limit_headers s str result m.header_style))
                else ok (proceed result (build_rate_limit_headers s str result m.header_style)))
      go true = passed (λ status own kinds messages. send_all-start _ own status kinds messages)
      go false = refused

  after_check-Agrees :
      (latency_ms : ℕ) (checked : Result RateLimitResult)
      → Agrees
          (Asgi.after_check s str encode m latency_ms checked).0
          (after_check s str as_dependency latency_ms checked).0
        × ((Asgi.after_check s str encode m latency_ms checked).1
            ≡ (after_check s str as_dependency latency_ms checked).1)
  unfolding Asgi.after_check after_check
  after_check-Agrees latency_ms (ok result) = (decide-Agrees _ result, refl)
  after_check-Agrees latency_ms (raise backend_unavailable) =
      (unavailable-Agrees m.failure_mode, refl)
  after_check-Agrees latency_ms (raise value_error) = (raised, refl)
  after_check-Agrees latency_ms (raise key_error) = (raised, refl)
  after_check-Agrees latency_ms (raise index_error) = (raised, refl)
  after_check-Agrees latency_ms (raise runtime_error) = (raised, refl)
  after_check-Agrees latency_ms (raise (rate_limit_exceeded retry_after result)) = (raised, refl)
  after_check-Agrees latency_ms (raise backend_configuration) = (raised, refl)
  after_check-Agrees latency_ms (raise (redis_error e)) = (raised, refl)

  module _ {B : Type 0} (backend : RateLimitBackend B) where
    -- On an HTTP request, the middleware and the dependency with the same arguments let the same
    -- requests through, where the middleware adds to the start of the response, encoded, the headers
    -- that the dependency sets, and neither adds any when the backend is unavailable; they refuse the
    -- same with the same status, text and headers, raise the same errors, emit the same event, and
    -- leave the backend in the same state.
    pub call-Agrees :
        (request : Request) (latency_ms : ℕ) (b : B)
        → Agrees
            (Asgi.call s str encode m backend (codes "http") request latency_ms b).0
            (call s str as_dependency backend request latency_ms b).0
          × ((Asgi.call s str encode m backend (codes "http") request latency_ms b).1
              ≡ (call s str as_dependency backend request latency_ms b).1)
          × ((Asgi.call s str encode m backend (codes "http") request latency_ms b).2
              ≡ (call s str as_dependency backend request latency_ms b).2)
    unfolding Asgi.call call text_eq
    call-Agrees request latency_ms b =
        let (agrees, same) =
          after_check-Agrees latency_ms
            (backend.check_and_increment b (m.key_extractor request) m.config none).0 in
        (agrees, same, refl)
