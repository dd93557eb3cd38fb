-- ===== src/Algorithms/LeakyBucket.antt =====
-- src/rate_limit_patterns/algorithms/leaky_bucket.py
pub mod Duality
pub mod Run
pub mod Equivalence
use rate_limit_patterns.Prelude.{
  ℕ, ◌+◌, ◌-◌, ◌*◌, ◌/◌, max, Bool, true, false, Option, none, some, ltb, leb, if◌then◌else◌,
}
use rate_limit_patterns.Prelude.Int.{ℤ, pos, ◌+ℤ◌, gap}
use rate_limit_patterns.Prelude.Quotient.{ceil_div}
use rate_limit_patterns.Models.{RateLimitConfig, Scale, one, tokens_per_second, capacity}
use rate_limit_patterns.Algorithms.Base.{Decision}

pub record State : Type 0 where
  pub queue_size : ℕ
  pub last_leak : ℤ

module _ (s : Scale) where
  unfoldable pub initial_state : RateLimitConfig → State
  initial_state config = record { queue_size = 0; last_leak = pos 0 }

  -- The queue after the leak; `-` stops at 0, as `max(0.0, queue_size - drained)` does.
  unfoldable pub leaked : State → RateLimitConfig → ℤ → ℕ
  leaked state config current_time =
      let elapsed = gap current_time state.last_leak in
      let drained = elapsed * tokens_per_second s config in state.queue_size - drained

  -- Seconds until the excess of one more request has drained.
  unfoldable pub wait_for : RateLimitConfig → ℕ → ℕ
  wait_for config queue_after_leak =
      let rate = tokens_per_second s config in
      if ltb 0 rate
      then max 1 (ceil_div (queue_after_leak + one s - capacity config * one s) (rate * s.ticks))
      else 1

  -- The state and the metadata from the new size of the queue. The subtraction that stops at 0 is
  -- the `max(0, …)` around `remaining`.
  unfoldable pub settle : RateLimitConfig → ℤ → Bool → ℕ → Option ℤ → Decision State
  settle config current_time allowed new_queue_size retry_after =
      let rate = tokens_per_second s config in
      (
        allowed,
        record { queue_size = new_queue_size; last_leak = current_time },
        record {
          remaining = pos ((capacity config * one s - new_queue_size) / one s);
          reset_at =
              if leb rate 0
              then current_time
              else current_time +ℤ pos (ceil_div new_queue_size rate);
          request_count = pos (new_queue_size / one s);
          retry_after = retry_after;
        },
      )

  unfoldable pub compute : State → RateLimitConfig → ℤ → Decision State
  compute state config current_time =
      let queue_after_leak = leaked state config current_time in
      if leb (queue_after_leak + one s) (capacity config * one s)
      then settle config current_time true (queue_after_leak + one s) none
      else settle config current_time false queue_after_leak
          (some (pos (wait_for config queue_after_leak)))
