-- ===== src/Algorithms/Base.antt =====
-- src/rate_limit_patterns/algorithms/base.py: what the algorithms share, and the metadata
-- dictionary that `compute` returns.
use rate_limit_patterns.Prelude.{Bool, Option}
use rate_limit_patterns.Prelude.Int.{ℤ}

-- `retry_after` is absent where the request is allowed; the other three keys are always there.
pub record Metadata : Type 0 where
  pub remaining : ℤ
  pub reset_at : ℤ
  pub request_count : ℤ
  pub retry_after : Option ℤ

-- `(allowed, new_state, metadata)`
abbrev pub Decision : Type 0 → Type 0
Decision State = Bool × State × Metadata
