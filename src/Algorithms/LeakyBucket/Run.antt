-- ===== src/Algorithms/LeakyBucket/Run.antt =====
-- A sequence of calls of `LeakyBucketAlgorithm.compute` on one key, and how many it admits.
use rate_limit_patterns.Prelude.{ℕ, ◌+◌, Bool, List, [], ◌∷◌, if◌then◌else◌}
use rate_limit_patterns.Prelude.Int.{ℤ}
use rate_limit_patterns.Models.{RateLimitConfig, Scale}
use rate_limit_patterns.Algorithms.Base.{Metadata}
use rate_limit_patterns.Algorithms.LeakyBucket.{State, compute}

module _ (s : Scale) (config : RateLimitConfig) where
  -- The number of admitted calls, and the state after the last one.
  unfoldable pub run : State → List ℤ → ℕ × State
  run state [] = (0, state)
  run state (t ∷ ts) =
      let (allowed, state', _) = compute s state config t in
      let (n, end) = run state' ts in ((if allowed then 1 else 0) + n, end)

  -- What the callers are told, call by call.
  unfoldable pub responses : State → List ℤ → List (Bool × Metadata)
  responses state [] = []
  responses state (t ∷ ts) =
      let (allowed, state', m) = compute s state config t in (allowed, m) ∷ responses state' ts
