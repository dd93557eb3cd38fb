-- ===== src/Algorithms/LeakyBucket/Duality.antt =====
-- The leaky bucket read as a token bucket: a token for each free place in the queue.
use rate_limit_patterns.Prelude.{
  ℕ, ◌+◌, ◌-◌, ◌*◌, ◌≤◌, ◌<◌, ◌≡◌, Bool, true, false, Option, none, inl, inr, leb, Bool-cases,
  arith,
}
use rate_limit_patterns.Prelude.Int.{ℤ}
use rate_limit_patterns.Prelude.Quotient.{ceil_div, ceil_div_pos, mul_pos}
use rate_limit_patterns.Models.{
  RateLimitConfig, Scale, one, tokens_per_second, capacity, IsResolved,
}
use rate_limit_patterns.Algorithms.Base.{Decision}
use rate_limit_patterns.Algorithms.TokenBucket
use rate_limit_patterns.Algorithms.LeakyBucket.{State, leaked, wait_for, settle, compute}

module _ (s : Scale) (config : RateLimitConfig) where
  -- The free places of a queue, as the tokens of a bucket.
  unfoldable pub free_places : State → TokenBucket.State
  free_places state = record {
    tokens = capacity config * one s - state.queue_size;
    last_refill = state.last_leak;
  }

  -- The queue is within its capacity.
  abbrev pub Fits : State → Type 0
  Fits state = state.queue_size ≤ capacity config * one s

  -- What a leaky bucket decides, with its queue read as a token bucket.
  abbrev pub as_tokens : Decision State → Decision TokenBucket.State
  as_tokens (allowed, state, m) = (allowed, free_places state, m)

  leaked-refilled :
      (state : State) (now : ℤ)
      → Fits state
      → leaked s state config now + TokenBucket.refilled s (free_places state) config now
        ≡ capacity config * one s
  unfolding leaked TokenBucket.refilled free_places
  leaked-refilled state now h = omega arith

  settle-dual :
      (now : ℤ) (allowed : Bool) (queue tokens : ℕ) (retry_after : Option ℤ)
      → 0 < tokens_per_second s config
      → queue + tokens ≡ capacity config * one s
      → as_tokens (settle s config now allowed queue retry_after)
        ≡ TokenBucket.settle s config now allowed tokens retry_after
  unfolding settle TokenBucket.settle free_places
  settle-dual now allowed queue tokens retry_after h e =
      let c = capacity config * one s in
      let free : c - queue ≡ tokens = omega arith in
      let used : c - tokens ≡ queue = omega arith in rw (free, used) (ground arith)

  wait_for-dual :
      (queue tokens : ℕ)
      → IsResolved s config
      → queue + tokens ≡ capacity config * one s
      → tokens < one s
      → wait_for s config queue ≡ ceil_div (one s - tokens) (tokens_per_second s config * s.ticks)
  unfolding wait_for
  wait_for-dual queue tokens r e h =
      let excess : queue + one s - capacity config * one s ≡ one s - tokens = omega arith in
      let rate = tokens_per_second s config * s.ticks in
      rw excess (
        ground (
          arith,
          ceil_div_pos (one s - tokens) rate
              (mul_pos (tokens_per_second s config) s.ticks r.rate_pos r.ticks_pos) (omega arith),
        ))

  -- One call: the decision, the metadata and the new state agree.
  pub compute-dual :
      (state : State) (now : ℤ)
      → IsResolved s config
      → Fits state
      → as_tokens (compute s state config now)
        ≡ TokenBucket.compute s (free_places state) config now
  unfolding compute TokenBucket.compute
  compute-dual state now r h =
      let queue = leaked s state config now in
      let tokens = TokenBucket.refilled s (free_places state) config now in
      let e = leaked-refilled state now h in
      elim (Bool-cases (leb (one s) tokens)) [
        | inl enough ↦
            let room : leb (queue + one s) (capacity config * one s) ≡ true = ground arith in
            rw (enough, room)
              (settle-dual now true (queue + one s) (tokens - one s) none r.rate_pos (ground arith))
        | inr short ↦
            let full : leb (queue + one s) (capacity config * one s) ≡ false = ground arith in
            rw (short, full, wait_for-dual queue tokens r e (ground arith))
              (settle-dual now false queue tokens _ r.rate_pos e)
      ]

  pub compute-Fits : (state : State) (now : ℤ) → Fits state → Fits (compute s state config now).1
  unfolding compute settle leaked
  compute-Fits state now h = ground arith
