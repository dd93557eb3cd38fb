-- ===== src/Algorithms/Protocol.antt =====
-- src/rate_limit_patterns/algorithms/base.py: the protocol `RateLimitAlgorithm`, and the three
-- algorithms as values of it. All read and write one kind of dictionary; an algorithm that is
-- handed the dictionary of another raises a KeyError on the first key it misses.
use rate_limit_patterns.Prelude.Int.{ℤ}
use rate_limit_patterns.Models.{RateLimitConfig, Scale, Result, ok, raise, key_error, ◌>>=◌}
use rate_limit_patterns.Algorithms.Base.{Decision}
use rate_limit_patterns.Algorithms.TokenBucket
use rate_limit_patterns.Algorithms.SlidingWindow
use rate_limit_patterns.Algorithms.LeakyBucket

-- The state dictionaries, by the keys that they hold.
pub data AlgorithmState : Type 0 where
  bucket : TokenBucket.State → AlgorithmState
  window : SlidingWindow.State → AlgorithmState
  queue : LeakyBucket.State → AlgorithmState

pub record RateLimitAlgorithm : Type 0 where
  pub compute : AlgorithmState → RateLimitConfig → ℤ → Result (Decision AlgorithmState)
  pub initial_state : RateLimitConfig → AlgorithmState

-- The same decision over the common kind of state.
abbrev pub relabel : {S : Type 0} → (S → AlgorithmState) → Decision S → Decision AlgorithmState
relabel f (allowed, state, m) = (allowed, f state, m)

module _ (s : Scale) where
  unfoldable pub compute_token_bucket :
      AlgorithmState → RateLimitConfig → ℤ → Result (Decision AlgorithmState)
  compute_token_bucket (bucket state) config now =
      ok (relabel bucket (TokenBucket.compute s state config now))
  compute_token_bucket (window state) config now = raise key_error
  compute_token_bucket (queue state) config now = raise key_error

  unfoldable pub compute_sliding_window :
      AlgorithmState → RateLimitConfig → ℤ → Result (Decision AlgorithmState)
  compute_sliding_window (bucket state) config now = raise key_error
  compute_sliding_window (window state) config now = do
    d ← SlidingWindow.compute s state config now
    ok (relabel window d)
  compute_sliding_window (queue state) config now = raise key_error

  unfoldable pub compute_leaky_bucket :
      AlgorithmState → RateLimitConfig → ℤ → Result (Decision AlgorithmState)
  compute_leaky_bucket (bucket state) config now = raise key_error
  compute_leaky_bucket (window state) config now = raise key_error
  compute_leaky_bucket (queue state) config now =
      ok (relabel queue (LeakyBucket.compute s state config now))

  abbrev pub token_bucket_algorithm : RateLimitAlgorithm
  token_bucket_algorithm = record {
    compute = compute_token_bucket;
    initial_state = λ config. bucket (TokenBucket.initial_state s config);
  }

  abbrev pub sliding_window_algorithm : RateLimitAlgorithm
  sliding_window_algorithm = record {
    compute = compute_sliding_window;
    initial_state = λ config. window (SlidingWindow.initial_state config);
  }

  abbrev pub leaky_bucket_algorithm : RateLimitAlgorithm
  leaky_bucket_algorithm = record {
    compute = compute_leaky_bucket;
    initial_state = λ config. queue (LeakyBucket.initial_state s config);
  }
