-- ===== src/Algorithms/TokenBucket.antt =====
-- src/rate_limit_patterns/algorithms/token_bucket.py
pub mod Bounds
pub mod Report
pub mod Run
pub mod Pace
pub mod Admission
use rate_limit_patterns.Prelude.{
  ℕ, ◌+◌, ◌-◌, ◌*◌, ◌/◌, min, Bool, true, false, Option, none, some, leb, if◌then◌else◌,
}
use rate_limit_patterns.Prelude.Int.{ℤ, pos, ◌+ℤ◌, gap}
use rate_limit_patterns.Prelude.Quotient.{ceil_div}
use rate_limit_patterns.Models.{RateLimitConfig, Scale, one, tokens_per_second, capacity}
use rate_limit_patterns.Algorithms.Base.{Metadata, Decision}

pub record State : Type 0 where
  pub tokens : ℕ
  pub last_refill : ℤ

module _ (s : Scale) where
  unfoldable pub initial_state : RateLimitConfig → State
  initial_state config = record { tokens = capacity config * one s; last_refill = pos 0 }

  -- The balance after the refill, with its cap.
  unfoldable pub refilled : State → RateLimitConfig → ℤ → ℕ
  refilled state config current_time =
      let elapsed = gap current_time state.last_refill in
      let refill_amount = elapsed * tokens_per_second s config in
      min (capacity config * one s) (state.tokens + refill_amount)

  -- The state and the metadata from the balance that is left.
  unfoldable pub settle : RateLimitConfig → ℤ → Bool → ℕ → Option ℤ → Decision State
  settle config current_time allowed tokens_after retry_after = (
    allowed,
    record { tokens = tokens_after; last_refill = current_time },
    record {
      remaining = pos (tokens_after / one s);
      reset_at =
          current_time
          +ℤ pos (ceil_div (capacity config * one s - tokens_after) (tokens_per_second s config));
      request_count = pos ((capacity config * one s - tokens_after) / one s);
      retry_after = retry_after;
    },
  )

  unfoldable pub compute : State → RateLimitConfig → ℤ → Decision State
  compute state config current_time =
      let new_tokens = refilled state config current_time in
      if leb (one s) new_tokens
      then settle config current_time true (new_tokens - one s) none
      else (let tokens_needed = one s - new_tokens in
          let retry_after = ceil_div tokens_needed (tokens_per_second s config * s.ticks) in
          settle config current_time false new_tokens (some (pos retry_after)))
