-- ===== src/Tests/Samples.antt =====
-- The configurations and states that the tests and examples run on.
use rate_limit_patterns.Prelude.{false, none, some, List, [], ◌∷◌, arith}
use rate_limit_patterns.Prelude.Int.{ℤ, pos}
use rate_limit_patterns.Models.{
  token_bucket, sliding_window, leaky_bucket, RateLimitConfig, Scale, IsValid, IsResolved,
  tokens_per_second,
}
use rate_limit_patterns.Algorithms.TokenBucket
use rate_limit_patterns.Algorithms.SlidingWindow
use rate_limit_patterns.Algorithms.LeakyBucket

-- Ten ticks to a second, and 600 units to a token.
abbrev pub scale : Scale
scale = record { ticks = 10; parts = 60 }

-- Six calls a minute, two at once; a token takes ten seconds.
abbrev pub config : RateLimitConfig
config = record {
  algorithm = token_bucket;
  limit = 6;
  period = 60;
  burst_size = some 2;
  cleanup_interval = pos 3000;
  suppress_warnings = false;
}

abbrev pub leaky_config : RateLimitConfig
leaky_config = record config { algorithm = leaky_bucket }

-- Two calls in five seconds.
abbrev pub window_config : RateLimitConfig
window_config = record config {
  algorithm = sliding_window;
  limit = 2;
  period = 5;
  burst_size = none;
}

pub config-IsValid : IsValid config
config-IsValid = omega arith

pub window_config-IsValid : IsValid window_config
window_config-IsValid = omega arith

pub config-IsResolved : IsResolved scale config
unfolding tokens_per_second
config-IsResolved = omega arith

pub leaky_config-IsResolved : IsResolved scale leaky_config
unfolding tokens_per_second
leaky_config-IsResolved = omega arith

pub window_config-IsResolved : IsResolved scale window_config
unfolding tokens_per_second
window_config-IsResolved = omega arith

-- An empty bucket at second 100.
abbrev pub empty_bucket : TokenBucket.State
empty_bucket = record { tokens = 0; last_refill = pos 1000 }

abbrev pub full_queue : LeakyBucket.State
full_queue = record { queue_size = 1200; last_leak = pos 1000 }

abbrev pub full_window : SlidingWindow.State
full_window = record { requests = pos 990 ∷ pos 1000 ∷ []; count = 2 }

-- Three calls at second 100, and one a minute later.
abbrev pub burst : List ℤ
burst = pos 1000 ∷ pos 1000 ∷ pos 1001 ∷ pos 1600 ∷ []
