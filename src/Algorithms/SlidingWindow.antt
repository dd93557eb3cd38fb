-- ===== src/Algorithms/SlidingWindow.antt =====
-- src/rate_limit_patterns/algorithms/sliding_window.py
pub mod Branches
pub mod Cutoff
pub mod Run
pub mod History
pub mod Limit
pub mod Ideal
pub mod Retry
use rate_limit_patterns.Prelude.{
  ℕ, max, true, false, none, some, List, [], ◌∷◌, ◌++◌, ltb, if◌then◌else◌,
}
use rate_limit_patterns.Prelude.Int.{ℤ, pos, ◌+ℤ◌, ◌-ℤ◌, ltb_ℤ, gap}
use rate_limit_patterns.Prelude.Lists.{length, head_or, keep}
use rate_limit_patterns.Prelude.Quotient.{ceil_div}
use rate_limit_patterns.Models.{RateLimitConfig, Scale, seconds, Result, ok, raise, index_error}
use rate_limit_patterns.Algorithms.Base.{Decision}

pub record State : Type 0 where
  pub requests : List ℤ
  pub count : ℕ

unfoldable pub initial_state : RateLimitConfig → State
initial_state config = record { requests = []; count = 0 }

module _ (s : Scale) where
  -- `[t for t in requests if t > cutoff]`
  unfoldable pub in_window : RateLimitConfig → ℤ → List ℤ → List ℤ
  in_window config current_time requests =
      let cutoff = current_time -ℤ pos (seconds s config.period) in
      keep (λ t. ltb_ℤ cutoff t) requests

  -- The branch that allows the request: `valid_requests` already holds it.
  unfoldable pub allow : RateLimitConfig → ℤ → List ℤ → Decision State
  allow config current_time valid_requests = (
    true,
    record { requests = valid_requests; count = length valid_requests },
    record {
      remaining = pos config.limit -ℤ pos (length valid_requests);
      reset_at = head_or valid_requests current_time +ℤ pos (seconds s config.period);
      request_count = pos (length valid_requests);
      retry_after = none;
    },
  )

  -- The branch that denies it; `valid_requests[0]` raises on an empty list.
  unfoldable pub deny : RateLimitConfig → ℤ → List ℤ → Result (Decision State)
  deny config current_time [] = raise index_error
  deny config current_time (oldest_request ∷ rest) =
      let valid_requests = oldest_request ∷ rest in
      let reset_at = oldest_request +ℤ pos (seconds s config.period) in
      let retry_after = max 1 (ceil_div (gap reset_at current_time) s.ticks) in
      ok (
        false,
        record { requests = valid_requests; count = length valid_requests },
        record {
          remaining = pos 0;
          reset_at = reset_at;
          request_count = pos (length valid_requests);
          retry_after = some (pos retry_after);
        },
      )

  unfoldable pub compute : State → RateLimitConfig → ℤ → Result (Decision State)
  compute state config current_time =
      let valid_requests = in_window config current_time state.requests in
      if ltb (length valid_requests) config.limit
      then ok (allow config current_time (valid_requests ++ current_time ∷ []))
      else deny config current_time valid_requests
