-- ===== src/Models.antt =====
-- src/rate_limit_patterns/models.py and exceptions.py: configuration, result and event of a check,
-- and the exceptions that the library raises.
-- Amounts are scaled integers: an instant is a ℤ of ticks, an amount of tokens is a ℕ of units.
use rate_limit_patterns.Prelude.{
  ◌≡◌, ap, ℕ, ◌*◌, ◌/◌, ◌<◌, Bool, true, false, ◌&&◌, not, Option, none, some, ◌++◌,
}
use rate_limit_patterns.Prelude.Int.{ℤ, pos, pos_part, ltb_ℤ, leb_ℤ}
use rate_limit_patterns.Prelude.Text.{Text, codes}

-- `Literal["token_bucket", "sliding_window", "leaky_bucket"]`; nothing enforces the literal when
-- the program runs, so any other text can arrive too.
pub data AlgorithmType : Type 0 where
  token_bucket sliding_window leaky_bucket : AlgorithmType
  unsupported : Text → AlgorithmType

pub record RateLimitConfig : Type 0 where
  pub algorithm : AlgorithmType
  pub limit : ℕ
  pub period : ℕ
  pub burst_size : Option ℕ
  pub cleanup_interval : ℤ
  pub suppress_warnings : Bool

pub record RateLimitResult : Type 0 where
  pub allowed : Bool
  pub remaining : ℤ
  pub limit : ℕ
  pub retry_after : Option ℤ
  pub reset_at : Option ℤ
  pub request_count : ℤ

pub record RateLimitEvent : Type 0 where
  pub algorithm : AlgorithmType
  pub allowed : Bool
  pub remaining : ℤ
  pub retry_after : Option ℤ
  pub backend_type : Text
  pub latency_ms : ℕ

-- The exceptions of the Redis client: NoScriptError, and any other RedisError.
pub data RedisError : Type 0 where
  no_script other_failure : RedisError

-- The exceptions that cross the library's functions.
pub data Error : Type 0 where
  value_error key_error index_error runtime_error : Error
  rate_limit_exceeded : ℤ → RateLimitResult → Error
  backend_unavailable backend_configuration : Error
  redis_error : RedisError → Error

-- The message of a RateLimitExceeded.
unfoldable pub exceeded_message : (ℤ → Text) → ℤ → Option Text → Text
exceeded_message str retry_after (some message) = message
exceeded_message str retry_after none =
    codes "Rate limit exceeded. Retry after " ++ str retry_after ++ codes " seconds."

pub data Result {ℓ} (A : Type ℓ) : Type ℓ where
  ok : A → Result A
  raise : Error → Result A

pub ok-injective {ℓ} : {A : Type ℓ} {a b : A} → ok a ≡ ok b → a ≡ b
ok-injective {a} e = ap (λ r. elim r [ ok x ↦ x | raise _ ↦ a ]) e

pub raise-injective {ℓ} :
    {A : Type ℓ} {e f : Error} → (let x : Result A = raise e in x ≡ raise f) → e ≡ f
raise-injective {e} h = ap (λ r. elim r [ ok _ ↦ e | raise x ↦ x ]) h

infixl 5 ◌>>=◌ ◌>>◌
abbrev pub ◌>>=◌ {ℓ κ} : {A : Type ℓ} {B : Type κ} → Result A → (A → Result B) → Result B
ok a >>= f = f a
raise e >>= f = raise e

abbrev pub ◌>>◌ {ℓ} : {B : Type ℓ} → Result (Unit {0}) → Result B → Result B
m >> k = m >>= λ _. k

abbrev pub raise_if : Bool → Error → Result (Unit {0})
raise_if true e = raise e
raise_if false e = ok tt

-- `SLIDING_WINDOW_LIMIT_WARNING_THRESHOLD`
abbrev pub sliding_window_limit_warning_threshold : ℕ
sliding_window_limit_warning_threshold = 1000

abbrev pub is_sliding_window : AlgorithmType → Bool
is_sliding_window sliding_window = true
is_sliding_window token_bucket = false
is_sliding_window leaky_bucket = false
is_sliding_window (unsupported name) = false

-- The constructor of `RateLimitConfig` with its `__post_init__`: the configuration, and whether the
-- memory warning is issued.
unfoldable pub make_config :
    AlgorithmType → ℤ → ℤ → Option ℕ → ℤ → Bool → Result (RateLimitConfig × Bool)
make_config algorithm limit period burst_size cleanup_interval suppress_warnings = do
  raise_if (leb_ℤ limit (pos 0)) value_error
  raise_if (leb_ℤ period (pos 0)) value_error
  let warns =
      not suppress_warnings
      && is_sliding_window algorithm
      && ltb_ℤ (pos sliding_window_limit_warning_threshold) limit
  ok (
    record {
      algorithm = algorithm;
      limit = pos_part limit;
      period = pos_part period;
      burst_size = burst_size;
      cleanup_interval = cleanup_interval;
      suppress_warnings = suppress_warnings;
    },
    warns,
  )

-- The constructor of `RateLimitResult` with its `__post_init__`.
unfoldable pub make_result : Bool → ℤ → ℕ → Option ℤ → Option ℤ → ℤ → Result RateLimitResult
make_result allowed remaining limit retry_after reset_at request_count = do
  raise_if (ltb_ℤ remaining (pos 0)) value_error
  raise_if (ltb_ℤ request_count (pos 0)) value_error
  ok (record {
    allowed = allowed;
    remaining = remaining;
    limit = limit;
    retry_after = retry_after;
    reset_at = reset_at;
    request_count = request_count;
  })

-- The resolution of the scaled numbers: `ticks` to a second, and `ticks * parts` units to a token.
pub record Scale : Type 0 where
  pub ticks : ℕ
  pub parts : ℕ

-- One token, in units.
unfoldable pub one : Scale → ℕ
one s = s.ticks * s.parts

-- A number of seconds, in ticks.
unfoldable pub seconds : Scale → ℕ → ℕ
seconds s n = n * s.ticks

-- `RateLimitConfig.tokens_per_second`, in tokens / `parts`; so it is also the number of units that
-- one tick brings.
unfoldable pub tokens_per_second : Scale → RateLimitConfig → ℕ
tokens_per_second s config = config.limit * s.parts / config.period

-- `config.burst_size if config.burst_size is not None else config.limit`
unfoldable pub capacity : RateLimitConfig → ℕ
capacity config = elim config.burst_size [ none ↦ config.limit | some burst ↦ burst ]

-- What `__post_init__` guarantees of a configuration.
pub record IsValid (config : RateLimitConfig) : Type 0 where
  pub limit_pos : 0 < config.limit
  pub period_pos : 0 < config.period

-- The scale resolves the rate of the configuration: no rate is rounded down to nothing.
pub record IsResolved (s : Scale) (config : RateLimitConfig) : Type 0 where
  pub ticks_pos : 0 < s.ticks
  pub rate_pos : 0 < tokens_per_second s config
