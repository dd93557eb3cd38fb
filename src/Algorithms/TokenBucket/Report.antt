-- ===== src/Algorithms/TokenBucket/Report.antt =====
-- What a token bucket reports: `remaining`, `request_count`, `reset_at` and `retry_after`.
use rate_limit_patterns.Prelude.{ℕ, ◌+◌, ◌-◌, ◌*◌, ◌≤◌, ◌<◌, ◌≡◌, true, false, some, arith, ap}
use rate_limit_patterns.Prelude.Int.{ℤ, pos, ◌+ℤ◌, pos_part, ◌≤ℤ◌, gap, le-gap, gap-+ℤ}
use rate_limit_patterns.Prelude.Quotient.{
  ceil_div, floor_bounds, floor_split, ceil_div_covers, lt-ceil_div, mul_pos, mul_le_mul,
}
use rate_limit_patterns.Models.{
  RateLimitConfig, Scale, one, seconds, tokens_per_second, capacity, IsResolved,
}
use rate_limit_patterns.Algorithms.TokenBucket.{State, refilled, settle, compute}
use rate_limit_patterns.Algorithms.TokenBucket.Bounds.{
  compute_rule, compute_denied, compute-admits, compute-denies, refilled-compute,
}

module _ (s : Scale) (state : State) (config : RateLimitConfig) (now : ℤ) where
  -- `remaining` is the number of whole tokens left, and with `request_count` makes up the capacity
  -- but for the one token that is in part refilled.
  pub metadata_counts :
      0 < one s
      → (let (_, state', m) = compute s state config now in
          (pos_part m.remaining * one s ≤ state'.tokens)
          × (state'.tokens < (pos_part m.remaining + 1) * one s)
          × (pos_part m.remaining + pos_part m.request_count ≤ capacity config)
          × (capacity config ≤ pos_part m.remaining + pos_part m.request_count + 1))
  unfolding settle
  metadata_counts h =
      compute_rule s state config now
        (λ (_, state', m).
          (pos_part m.remaining * one s ≤ state'.tokens)
          × (state'.tokens < (pos_part m.remaining + 1) * one s)
          × (pos_part m.remaining + pos_part m.request_count ≤ capacity config)
          × (capacity config ≤ pos_part m.remaining + pos_part m.request_count + 1))
        (λ _ tokens _ le. omega (
          arith,
          floor_bounds tokens (one s) h,
          floor_split tokens (one s) (capacity config) (capacity config * one s - tokens) h,
        ))

  -- At `reset_at`, and later, the bucket is full again.
  pub refilled-reset_at :
      0 < tokens_per_second s config
      → (later : ℤ) → (compute s state config now).2.reset_at ≤ℤ later
      → refilled s (compute s state config now).1 config later ≡ capacity config * one s
  unfolding settle refilled
  refilled-reset_at h later =
      compute_rule s state config now
        (λ (_, state', m).
          m.reset_at ≤ℤ later → refilled s state' config later ≡ capacity config * one s)
        (λ _ tokens _ le reached.
          let rate = tokens_per_second s config in
          let missing = capacity config * one s - tokens in
          omega (
            arith,
            mul_le_mul (ceil_div missing rate) (gap later now) rate (le-gap now later _ reached),
            ceil_div_covers missing rate h,
          ))

module _ (s : Scale) (state : State) (config : RateLimitConfig) (now : ℤ)
    (denied : (compute s state config now).0 ≡ false) where
  -- The seconds that a denied call is told to wait.
  wait : ℕ
  wait =
      ceil_div (one s - (compute s state config now).1.tokens)
        (tokens_per_second s config * s.ticks)

  missing_le_wait :
      IsResolved s config
      → one s ≤ (compute s state config now).1.tokens + wait * s.ticks * tokens_per_second s config
  unfolding wait
  missing_le_wait resolved =
      let after = (compute s state config now).1 in
      let rate = tokens_per_second s config in
      omega (
        arith,
        ceil_div_covers (one s - after.tokens) (rate * s.ticks)
            (mul_pos rate s.ticks resolved.rate_pos resolved.ticks_pos),
      )

  admitted_after_wait :
      0 < capacity config
      → IsResolved s config
      → (later : ℤ) → now +ℤ pos (seconds s wait) ≤ℤ later
      → (compute s (compute s state config now).1 config later).0 ≡ true
  unfolding seconds
  admitted_after_wait pos_cap resolved later le =
      let after = (compute s state config now).1 in
      compute-admits s after config later (
        omega (
          arith,
          refilled-compute s state config now later,
          missing_le_wait resolved,
          mul_le_mul 1 (capacity config) (one s) pos_cap,
          mul_le_mul (wait * s.ticks) (gap later now) (tokens_per_second s config)
              (le-gap now later _ le),
        ))

  denied_before_wait :
      IsResolved s config
      → (k : ℕ) → k < wait
      → (compute s (compute s state config now).1 config (now +ℤ pos (seconds s k))).0 ≡ false
  unfolding seconds wait
  denied_before_wait resolved k lt =
      let after = (compute s state config now).1 in
      let rate = tokens_per_second s config in
      let later = now +ℤ pos (k * s.ticks) in
      compute-denies s after config later (
        omega (
          arith,
          refilled-compute s state config now later,
          lt-ceil_div (one s - after.tokens) (rate * s.ticks) k
              (mul_pos rate s.ticks resolved.rate_pos resolved.ticks_pos) lt,
          ap (λ (x : ℕ). x * rate) (gap-+ℤ now (k * s.ticks)),
        ))

  -- With a capacity of at least one token and a resolved rate, a denied call is told the least number
  -- of whole seconds after which a call is admitted, if no other call comes in between; after any
  -- longer time it is admitted too.
  pub retry_after-suffices :
      0 < capacity config
      → IsResolved s config
      → (n : ℕ) × ((compute s state config now).2.retry_after ≡ some (pos n))
        × ((later : ℤ)
            → now +ℤ pos (seconds s n) ≤ℤ later
            → (compute s (compute s state config now).1 config later).0 ≡ true)
        × ((k : ℕ)
            → k < n
            → (compute s (compute s state config now).1 config (now +ℤ pos (seconds s k))).0
              ≡ false)
  unfolding wait
  retry_after-suffices pos_cap resolved = (
    wait,
    (compute_denied s state config now denied).1,
    admitted_after_wait pos_cap resolved,
    denied_before_wait resolved,
  )
