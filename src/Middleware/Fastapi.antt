-- ===== src/Middleware/Fastapi.antt =====
-- src/rate_limit_patterns/middleware/fastapi.py: `RateLimitDependency`.
pub mod Agreement
use rate_limit_patterns.Prelude.{ℕ, true, Option, none, some, [], not, if◌then◌else◌}
use rate_limit_patterns.Prelude.Int.{ℤ, pos}
use rate_limit_patterns.Prelude.Text.{Text, codes, is_empty}
use rate_limit_patterns.Models.{
  RateLimitConfig, RateLimitEvent, RateLimitResult, make_result, Result, ok, raise, Scale,
}
use rate_limit_patterns.Backend.Protocol.{RateLimitBackend}
use rate_limit_patterns.Middleware.Headers.{HeaderStyle, Headers, build_rate_limit_headers}
use rate_limit_patterns.Middleware.Shared.{
  FailureMode, fail_closed, fail_open, EventHookFailure, Emission, emit_rate_limit_event,
}
use rate_limit_patterns.Middleware.Asgi.{is_unavailable}

-- `_default_key_extractor`, of `request.client.host` where there is a client.
unfoldable pub default_key_extractor : Option Text → Text
default_key_extractor none = codes "unknown"
default_key_extractor (some host) = if is_empty host then codes "unknown" else host

pub record RateLimitDependency (Request : Type 0) : Type 0 where
  pub config : RateLimitConfig
  pub key_extractor : Request → Text
  pub failure_mode : FailureMode
  pub event_hook : Option (RateLimitEvent → Result (Unit {0}))
  pub event_hook_failure : EventHookFailure
  pub header_style : HeaderStyle
  pub backend_type : Text

-- The constructor: without a key extractor, the host of the client is the key.
unfoldable pub make_dependency :
    {Request : Type 0}
    → (Request → Option Text)
    → RateLimitConfig
    → Option (Request → Text)
    → FailureMode
    → Option (RateLimitEvent → Result (Unit {0}))
    → EventHookFailure
    → HeaderStyle
    → Text
    → RateLimitDependency Request
make_dependency client_host config key_extractor failure_mode event_hook event_hook_failure
      header_style backend_type =
    record {
      config = config;
      key_extractor = elim key_extractor [
        | none ↦ λ request. default_key_extractor (client_host request)
        | some extract ↦ extract
      ];
      failure_mode = failure_mode;
      event_hook = event_hook;
      event_hook_failure = event_hook_failure;
      header_style = header_style;
      backend_type = backend_type;
    }

-- `create_rate_limit_dependency`, which hands its arguments on.
abbrev pub create_rate_limit_dependency :
    {Request : Type 0}
    → (Request → Option Text)
    → RateLimitConfig
    → Option (Request → Text)
    → FailureMode
    → Option (RateLimitEvent → Result (Unit {0}))
    → EventHookFailure
    → HeaderStyle
    → Text
    → RateLimitDependency Request
create_rate_limit_dependency client_host config key_extractor failure_mode event_hook
      event_hook_failure header_style backend_type =
    make_dependency client_host config key_extractor failure_mode event_hook event_hook_failure
      header_style backend_type

-- How a call of the dependency ends: the endpoint goes on with a result, and headers are added to
-- its response; or an HTTPException with its status, detail and headers.
pub data Outcome : Type 0 where
  proceed : RateLimitResult → Headers → Outcome
  http_exception : ℕ → Text → Headers → Outcome

-- The result that an endpoint is given while the backend cannot be reached.
unfoldable pub open_result : RateLimitConfig → Result RateLimitResult
open_result config = make_result true (pos config.limit) config.limit none none (pos 0)

abbrev pub proceed_with : Result RateLimitResult → Result Outcome
proceed_with (ok result) = ok (proceed result [])
proceed_with (raise e) = raise e

abbrev pub on_unavailable : RateLimitConfig → FailureMode → Result Outcome
on_unavailable config fail_open = proceed_with (open_result config)
on_unavailable config fail_closed =
    ok (http_exception 503 (codes "Rate limit backend unavailable") [])

module _ (s : Scale) (str : ℤ → Text) {Request : Type 0} (d : RateLimitDependency Request) where
  -- `_emit_event`
  abbrev pub emit_event : RateLimitResult → ℕ → Emission
  emit_event result latency_ms =
      emit_rate_limit_event d.event_hook d.event_hook_failure d.config.algorithm result
        d.backend_type latency_ms

  unfoldable pub decide : Result (Unit {0}) → RateLimitResult → Result Outcome
  decide (raise e) result = raise e
  decide (ok done) result =
      let headers = build_rate_limit_headers s str result d.header_style in
      if not result.allowed
      then ok (http_exception 429 (codes "Rate limit exceeded") headers)
      else ok (proceed result headers)

  unfoldable pub after_check : ℕ → Result RateLimitResult → Result Outcome × Option RateLimitEvent
  after_check latency_ms (raise e) =
      (if is_unavailable e then on_unavailable d.config d.failure_mode else raise e, none)
  after_check latency_ms (ok result) =
      let emission = emit_event result latency_ms in
      (decide emission.outcome result, emission.delivered)

  module _ {B : Type 0} (backend : RateLimitBackend B) where
    -- `__call__`
    unfoldable pub call : Request → ℕ → B → Result Outcome × Option RateLimitEvent × B
    call request latency_ms b =
        let (checked, b') = backend.check_and_increment b (d.key_extractor request) d.config none in
        let (outcome, event) = after_check latency_ms checked in (outcome, event, b')
