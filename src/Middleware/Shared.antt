-- ===== src/Middleware/Shared.antt =====
-- src/rate_limit_patterns/middleware/_shared.py: the failure policies and the observability hook.
use rate_limit_patterns.Prelude.{Bool, true, false, Option, none, some, ℕ}
use rate_limit_patterns.Prelude.Text.{Text}
use rate_limit_patterns.Models.{AlgorithmType, RateLimitEvent, RateLimitResult, Result, ok, raise}

pub data FailureMode : Type 0 where
  fail_closed fail_open : FailureMode

-- `EventHookFailure`: "raise" and "log".
pub data EventHookFailure : Type 0 where
  reraise log : EventHookFailure

-- What an emission did: the event handed to the hook, whether a failure was logged, and whether
-- the caller goes on.
pub record Emission : Type 0 where
  pub delivered : Option RateLimitEvent
  pub logged : Bool
  pub outcome : Result (Unit {0})

-- The call of the hook under a policy.
unfoldable pub deliver : RateLimitEvent → EventHookFailure → Result (Unit {0}) → Emission
deliver event policy (ok done) = record { delivered = some event; logged = false; outcome = ok tt }
deliver event reraise (raise e) = record {
  delivered = some event;
  logged = false;
  outcome = raise e;
}
deliver event log (raise e) = record { delivered = some event; logged = true; outcome = ok tt }

unfoldable pub emit_rate_limit_event :
    Option (RateLimitEvent → Result (Unit {0}))
    → EventHookFailure
    → AlgorithmType
    → RateLimitResult
    → Text
    → ℕ
    → Emission
emit_rate_limit_event none policy algorithm result backend_type latency_ms = record {
  delivered = none;
  logged = false;
  outcome = ok tt;
}
emit_rate_limit_event (some hook) policy algorithm result backend_type latency_ms =
    let event : RateLimitEvent = record {
      algorithm = algorithm;
      allowed = result.allowed;
      remaining = result.remaining;
      retry_after = result.retry_after;
      backend_type = backend_type;
      latency_ms = latency_ms;
    } in
    deliver event policy (hook event)
