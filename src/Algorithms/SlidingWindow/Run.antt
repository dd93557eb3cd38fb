-- ===== src/Algorithms/SlidingWindow/Run.antt =====
-- A sequence of calls of `SlidingWindowAlgorithm.compute` on one key, and the calls it admits.
use rate_limit_patterns.Prelude.{Bool, List, [], ◌∷◌, if◌then◌else◌}
use rate_limit_patterns.Prelude.Int.{ℤ}
use rate_limit_patterns.Models.{RateLimitConfig, Scale, Result, ok, ◌>>=◌}
use rate_limit_patterns.Algorithms.Base.{Metadata}
use rate_limit_patterns.Algorithms.SlidingWindow.{State, compute}

module _ (s : Scale) (config : RateLimitConfig) where
  -- The times of the admitted calls, in order.
  unfoldable pub admissions : State → List ℤ → Result (List ℤ)
  admissions state [] = ok []
  admissions state (t ∷ ts) = do
    (allowed, state', _) ← compute s state config t
    rest ← admissions state' ts
    ok (if allowed then t ∷ rest else rest)

  -- What the callers are told, call by call.
  unfoldable pub responses : State → List ℤ → Result (List (Bool × Metadata))
  responses state [] = ok []
  responses state (t ∷ ts) = do
    (allowed, state', m) ← compute s state config t
    rest ← responses state' ts
    ok ((allowed, m) ∷ rest)
