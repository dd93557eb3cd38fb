-- ===== src/Backend/Core/Total.antt =====
-- On the states that it leaves itself, an algorithm raises nothing.
use native.Mathlib.Decide.{dec_lt}
use rate_limit_patterns.Prelude.{◌≡◌, refl, List, [], ◌∷◌, ◌++◌, arith}
use rate_limit_patterns.Prelude.Int.{ℤ, ◌≤ℤ◌}
use rate_limit_patterns.Prelude.Lists.{All, All-keep, All-append, length}
use rate_limit_patterns.Models.{
  AlgorithmType, token_bucket, sliding_window, leaky_bucket, unsupported, RateLimitConfig, Scale,
  IsValid, ok, ok-injective,
}
use rate_limit_patterns.Algorithms.Base.{Decision}
use rate_limit_patterns.Algorithms.TokenBucket
use rate_limit_patterns.Algorithms.SlidingWindow
use rate_limit_patterns.Algorithms.LeakyBucket
use rate_limit_patterns.Algorithms.Protocol.{
  AlgorithmState, bucket, window, queue, RateLimitAlgorithm, relabel, compute_token_bucket,
  compute_sliding_window, compute_leaky_bucket,
}
use rate_limit_patterns.Backend.Core.{algorithm_for}
use rate_limit_patterns.Backend.Core.Idle.{LeftAt}

All-mono : (s t : ℤ) (xs : List ℤ) → s ≤ℤ t → All (λ x. x ≤ℤ s) xs → All (λ x. x ≤ℤ t) xs
All-mono s t [] le h = tt
All-mono s t (x ∷ xs) le h = (omega arith, All-mono s t xs le h.1)

module _ (s : Scale) (config : RateLimitConfig) where
  -- A state that a call at `now` may find: new, or left by an earlier call.
  abbrev pub ReadyAt : AlgorithmType → ℤ → AlgorithmState → Type 0
  ReadyAt token_bucket now (bucket state) = Unit
  ReadyAt sliding_window now (window state) = All (λ t. t ≤ℤ now) state.requests
  ReadyAt leaky_bucket now (queue state) = LeakyBucket.Duality.Fits s config state
  ReadyAt _ now _ = ⊥

  pub LeftAt-ReadyAt :
      (a : AlgorithmType) (last now : ℤ) (state : AlgorithmState)
      → last ≤ℤ now
      → LeftAt s config a last state
      → ReadyAt a now state
  LeftAt-ReadyAt token_bucket last now (bucket state) le h = tt
  LeftAt-ReadyAt sliding_window last now (window state) le h = All-mono last now state.requests le h
  LeftAt-ReadyAt leaky_bucket last now (queue state) le h = h.1
  LeftAt-ReadyAt _ last now _ le h = absurd h

  pub initial_state-ReadyAt :
      (a : AlgorithmType) (algorithm : RateLimitAlgorithm) (now : ℤ)
      → algorithm_for s a ≡ ok algorithm
      → ReadyAt a now (algorithm.initial_state config)
  unfolding algorithm_for SlidingWindow.initial_state LeakyBucket.initial_state
  initial_state-ReadyAt token_bucket algorithm now e = rw (← ok-injective e) tt
  initial_state-ReadyAt sliding_window algorithm now e = rw (← ok-injective e) tt
  initial_state-ReadyAt leaky_bucket algorithm now e = rw (← ok-injective e) (omega arith)
  initial_state-ReadyAt (unsupported name) algorithm now e = cc

  window_total :
      IsValid config
      → (now : ℤ) (state : SlidingWindow.State) → All (λ t. t ≤ℤ now) state.requests
      → (d : Decision SlidingWindow.State) × (SlidingWindow.compute s state config now ≡ ok d)
        × All (λ t. t ≤ℤ now) d.1.requests
  unfolding SlidingWindow.allow SlidingWindow.in_window
  window_total v now state h =
      let kept = SlidingWindow.in_window s config now state.requests in
      let kept_le = All-keep _ (λ t. t ≤ℤ now) state.requests h in
      elim (dec_lt (length kept) config.limit) [
        | yes room ↦ (
          SlidingWindow.allow s config now (kept ++ now ∷ []),
          SlidingWindow.Branches.compute_allows s config now state room,
          All-append (λ t. t ≤ℤ now) kept (now ∷ []) kept_le (omega arith, tt),
        )
        | no full ↦ (
          SlidingWindow.Branches.denial s config now kept,
          SlidingWindow.Branches.compute_denies s config now state v (omega arith),
          kept_le,
        )
      ]

  last_leak-compute :
      (state : LeakyBucket.State) (now : ℤ)
      → (LeakyBucket.compute s state config now).1.last_leak ≡ now
  unfolding LeakyBucket.compute LeakyBucket.settle
  last_leak-compute state now = ground arith

  -- A call on such a state raises nothing, and leaves such a state.
  pub compute_total :
      IsValid config
      → (a : AlgorithmType) (algorithm : RateLimitAlgorithm) (now : ℤ) (state : AlgorithmState)
      → algorithm_for s a ≡ ok algorithm
      → ReadyAt a now state
      → (d : Decision AlgorithmState) × (algorithm.compute state config now ≡ ok d)
        × LeftAt s config a now d.1
  unfolding algorithm_for compute_token_bucket compute_sliding_window compute_leaky_bucket
  compute_total v token_bucket algorithm now (bucket state) e h =
      let d = TokenBucket.compute s state config now in
      (
        relabel bucket d,
        rw (← ok-injective e) refl,
        TokenBucket.Bounds.last_refill-compute s state config now,
      )
  compute_total v sliding_window algorithm now (window state) e h =
      let (d, done, left) = window_total v now state h in
      (relabel window d, rw (← ok-injective e) (rw done refl), left)
  compute_total v leaky_bucket algorithm now (queue state) e h =
      let d = LeakyBucket.compute s state config now in
      (
        relabel queue d,
        rw (← ok-injective e) refl,
        (last_leak-compute state now, LeakyBucket.Duality.compute-Fits s config state now h),
      )
  compute_total v token_bucket algorithm now (window state) e h = absurd h
  compute_total v token_bucket algorithm now (queue state) e h = absurd h
  compute_total v sliding_window algorithm now (bucket state) e h = absurd h
  compute_total v sliding_window algorithm now (queue state) e h = absurd h
  compute_total v leaky_bucket algorithm now (bucket state) e h = absurd h
  compute_total v leaky_bucket algorithm now (window state) e h = absurd h
  compute_total v (unsupported name) algorithm now state e h = cc
