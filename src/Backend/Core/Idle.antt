-- ===== src/Backend/Core/Idle.antt =====
-- Expiry in `LocalStateCore`: by the time that an entry expires, its state is as good as new.
use rate_limit_patterns.Prelude.{
  true, false, ℕ, ◌-◌, ◌*◌, ◌≤◌, ◌<◌, ◌≡◌, refl, List, [], ◌∷◌, arith,
}
use rate_limit_patterns.Prelude.Int.{ℤ, pos, ◌+ℤ◌, ◌≤ℤ◌, gap, le-gap, int_laws, -ℤ_parts, +ℤ_parts}
use rate_limit_patterns.Prelude.Lists.{All, keep}
use rate_limit_patterns.Prelude.Quotient.{ceil_div, ceil_div_covers, mul_le_mul}
use rate_limit_patterns.Models.{
  AlgorithmType, token_bucket, sliding_window, leaky_bucket, unsupported, is_sliding_window,
  RateLimitConfig, Scale, one, seconds, tokens_per_second, capacity, IsResolved, ok, ok-injective,
}
use rate_limit_patterns.Algorithms.TokenBucket
use rate_limit_patterns.Algorithms.SlidingWindow
use rate_limit_patterns.Algorithms.LeakyBucket
use rate_limit_patterns.Algorithms.Protocol.{
  AlgorithmState, bucket, window, queue, RateLimitAlgorithm, compute_token_bucket,
  compute_sliding_window, compute_leaky_bucket,
}
use rate_limit_patterns.Backend.Core.{algorithm_for, ttl_for}

module _ (s : Scale) (config : RateLimitConfig) where
  -- A state that a call of the algorithm has left at the time `last`.
  abbrev pub LeftAt : AlgorithmType → ℤ → AlgorithmState → Type 0
  LeftAt token_bucket last (bucket state) = state.last_refill ≡ last
  LeftAt sliding_window last (window state) = All (λ t. t ≤ℤ last) state.requests
  LeftAt leaky_bucket last (queue state) =
      (state.last_leak ≡ last) × LeakyBucket.Duality.Fits s config state
  LeftAt _ last _ = ⊥

  pub ttl_refills :
      0 < tokens_per_second s config
      → (d : ℕ) → ceil_div (capacity config * one s) (tokens_per_second s config) ≤ d
      → capacity config * one s ≤ d * tokens_per_second s config
  ttl_refills h d le =
      let c = capacity config * one s in
      let rate = tokens_per_second s config in
      omega (arith, ceil_div_covers c rate h, mul_le_mul (ceil_div c rate) d rate le)

  window_empties :
      (last now : ℤ) (xs : List ℤ)
      → last +ℤ pos (seconds s config.period) ≤ℤ now
      → All (λ t. t ≤ℤ last) xs
      → SlidingWindow.in_window s config now xs ≡ []
  unfolding SlidingWindow.in_window keep
  window_empties last now [] le h = refl
  window_empties last now (x ∷ xs) le h =
      let period = pos (seconds s config.period) in
      ground (arith, +ℤ_parts last period, -ℤ_parts now period, window_empties last now xs le h.1)

  ttl_covers_refill :
      is_sliding_window config.algorithm ≡ false
      → 0 < tokens_per_second s config
      → ceil_div (capacity config * one s) (tokens_per_second s config) ≤ ttl_for s config
  unfolding ttl_for
  ttl_covers_refill e h = ground arith

  ttl_covers_window :
      is_sliding_window config.algorithm ≡ true → seconds s config.period ≤ ttl_for s config
  unfolding ttl_for
  ttl_covers_window e = ground arith

  window_empty_compute :
      (state : SlidingWindow.State) (now : ℤ)
      → SlidingWindow.in_window s config now state.requests ≡ []
      → SlidingWindow.compute s state config now
        ≡ SlidingWindow.compute s (SlidingWindow.initial_state config) config now
  unfolding SlidingWindow.compute SlidingWindow.initial_state SlidingWindow.in_window keep
  window_empty_compute state now e = rw e refl

  queue_drains :
      (state : LeakyBucket.State) (now : ℤ)
      → LeakyBucket.Duality.Fits s config state
      → capacity config * one s ≤ gap now state.last_leak * tokens_per_second s config
      → LeakyBucket.compute s state config now
        ≡ LeakyBucket.compute s (LeakyBucket.initial_state s config) config now
  unfolding LeakyBucket.compute LeakyBucket.leaked LeakyBucket.initial_state
  queue_drains state now fits le =
      let empty : state.queue_size - gap now state.last_leak * tokens_per_second s config
          ≡ 0 - gap now (pos 0) * tokens_per_second s config =
        omega arith in
      rw empty refl

  refill_over :
      (t last now : ℤ)
      → t ≡ last
      → is_sliding_window config.algorithm ≡ false
      → 0 < tokens_per_second s config
      → last +ℤ pos (ttl_for s config) ≤ℤ now
      → capacity config * one s ≤ gap now t * tokens_per_second s config
  refill_over t last now e kind h le = rw e (
      ttl_refills h (gap now last)
        (omega (arith, ttl_covers_refill kind h, le-gap last now (ttl_for s config) le)))

  -- A state that was left at `last` and has outlived its TTL is treated like a new one.
  pub compute_expired :
      IsResolved s config
      → (a : AlgorithmType) (algorithm : RateLimitAlgorithm) (last now : ℤ) (state : AlgorithmState)
      → config.algorithm ≡ a
      → algorithm_for s a ≡ ok algorithm
      → LeftAt a last state
      → last +ℤ pos (ttl_for s config) ≤ℤ now
      → algorithm.compute state config now
        ≡ algorithm.compute (algorithm.initial_state config) config now
  unfolding algorithm_for compute_token_bucket compute_sliding_window compute_leaky_bucket
  compute_expired r token_bucket algorithm last now (bucket state) ea e left le =
      rw (← ok-injective e) (
        rw
          (TokenBucket.Pace.compute_idle s config state now
            (refill_over state.last_refill last now left (rw ea refl) r.rate_pos le))
          refl)
  compute_expired r sliding_window algorithm last now (window state) ea e left le =
      rw (← ok-injective e) (
        rw
          (window_empty_compute state now (
            window_empties last now state.requests
              (omega (int_laws, ttl_covers_window (rw ea refl))) left))
          refl)
  compute_expired r leaky_bucket algorithm last now (queue state) ea e left le =
      rw (← ok-injective e) (
        rw
          (queue_drains state now left.1
            (refill_over state.last_leak last now left.0 (rw ea refl) r.rate_pos le))
          refl)
  compute_expired r token_bucket algorithm last now (window state) ea e left le = absurd left
  compute_expired r token_bucket algorithm last now (queue state) ea e left le = absurd left
  compute_expired r sliding_window algorithm last now (bucket state) ea e left le = absurd left
  compute_expired r sliding_window algorithm last now (queue state) ea e left le = absurd left
  compute_expired r leaky_bucket algorithm last now (bucket state) ea e left le = absurd left
  compute_expired r leaky_bucket algorithm last now (window state) ea e left le = absurd left
  compute_expired r (unsupported name) algorithm last now state ea e left le = cc
