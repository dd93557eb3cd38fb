-- ===== src/Decorators.antt =====
-- src/rate_limit_patterns/decorators.py: `rate_limit`.
use rate_limit_patterns.Prelude.{false, Option, none, some, if◌then◌else◌}
use rate_limit_patterns.Prelude.Int.{ℤ, pos, pos_part}
use rate_limit_patterns.Prelude.Text.{Text}
use rate_limit_patterns.Prelude.Dict.{Dict, get}
use rate_limit_patterns.Models.{
  AlgorithmType, RateLimitConfig, RateLimitResult, make_config, Result, ok, raise,
  rate_limit_exceeded, ◌>>=◌,
}
use rate_limit_patterns.Backend.Protocol.{RateLimitBackend}

-- The configuration that `rate_limit` builds when the function is decorated; the cleanup interval is
-- the default of the configuration.
unfoldable pub decorator_config : AlgorithmType → ℤ → ℤ → ℤ → Result RateLimitConfig
decorator_config algorithm limit period default_interval = do
  (config, warns) ←
      make_config algorithm limit period (some (pos_part limit)) default_interval false
  ok config

module _ {Value : Type 0} (str : Value → Text) where
  -- A call of the decorated function: its keyword arguments, by name.
  -- `str(kwargs[key]) if key in kwargs else key`
  unfoldable pub keyword_key : Text → Dict Value → Text
  keyword_key key kwargs = elim (get key kwargs) [ none ↦ key | some value ↦ str value ]

  unfoldable pub effective_key :
      {Args : Type 0} → Option (Args → Dict Value → Text) → Text → Args → Dict Value → Text
  effective_key none key args kwargs = keyword_key key kwargs
  effective_key (some key_func) key args kwargs = key_func args kwargs

-- `result.retry_after if result.retry_after is not None else 1`
abbrev pub retry_or_one : Option ℤ → ℤ
retry_or_one none = pos 1
retry_or_one (some retry_after) = retry_after

module _ {B T : Type 0} (backend : RateLimitBackend B) where
  -- What the wrapper does with the outcome of the check; `func` is the wrapped call.
  unfoldable pub call_through : (B → Result T × B) → Result RateLimitResult × B → Result T × B
  call_through func (raise e, b) = (raise e, b)
  call_through func (ok result, b) =
      if result.allowed
      then func b
      else (raise (rate_limit_exceeded (retry_or_one result.retry_after) result), b)

  unfoldable pub wrapper : RateLimitConfig → Text → (B → Result T × B) → B → Result T × B
  wrapper config key func b = call_through func (backend.check_and_increment b key config none)

  -- `rate_limit`, applied to a function and called: the configuration is made once, when the function
  -- is decorated, and may be refused there; each call has its own key. `func` is the wrapped call of
  -- the given arguments.
  unfoldable pub rate_limit :
      {Args Value : Type 0}
      → (Value → Text)
      → ℤ
      → ℤ
      → Text
      → Option (Args → Dict Value → Text)
      → AlgorithmType
      → ℤ
      → (Args → Dict Value → B → Result T × B)
      → Result (Args → Dict Value → B → Result T × B)
  rate_limit str limit period key key_func algorithm default_interval func = do
    config ← decorator_config algorithm limit period default_interval
    ok (λ args kwargs b.
        wrapper config (effective_key str key_func key args kwargs) (func args kwargs) b)
