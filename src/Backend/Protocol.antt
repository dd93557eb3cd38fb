-- ===== src/Backend/Protocol.antt =====
-- src/rate_limit_patterns/backend/base.py: the protocols that the limiters, the decorator and the
-- middleware call. A value is any backend, with its state `B`. None of them calls `get_metrics`, which
-- the records leave out. `getattr` finds `initialize` and `close` on some backends only.
use rate_limit_patterns.Prelude.{Option}
use rate_limit_patterns.Prelude.Int.{ℤ}
use rate_limit_patterns.Prelude.Text.{Text}
use rate_limit_patterns.Models.{RateLimitConfig, RateLimitResult, Result}

pub record RateLimitBackend (B : Type 0) : Type 0 where
  pub check_and_increment : B → Text → RateLimitConfig → Option ℤ → Result RateLimitResult × B
  pub reset : B → Text → Result (Unit {0}) × B

pub record SyncRateLimitBackend (B : Type 0) : Type 0 where
  pub check_and_increment : B → Text → RateLimitConfig → Option ℤ → Result RateLimitResult × B
  pub reset : B → Text → Result (Unit {0}) × B

-- What `initialize()` or `close()` gives back: an ordinary value, or something to be awaited.
pub data Returned : Type 0 where
  plain awaitable : Returned

-- The optional methods, and the optional attribute `key_prefix` where it is a text.
pub record Extras (B : Type 0) : Type 0 where
  pub key_prefix : Option Text
  pub initialize : Option (B → Result Returned × B)
  pub close : Option (B → Result Returned × B)
