-- ===== src/Limiter.antt =====
-- src/rate_limit_patterns/limiter.py: the facades `RateLimiter` and `SyncRateLimiter`.
pub mod Keys
use rate_limit_patterns.Prelude.{
  Bool, true, false, Option, none, some, ◌++◌, ◌&&◌, not, if◌then◌else◌,
}
use rate_limit_patterns.Prelude.Text.{Text, is_empty}
use rate_limit_patterns.Models.{
  RateLimitConfig, RateLimitResult, Result, ok, raise, raise_if, value_error, runtime_error, ◌>>◌,
}
use rate_limit_patterns.Backend.Protocol.{
  RateLimitBackend, SyncRateLimitBackend, Extras, Returned, plain, awaitable,
}

pub record RateLimiter : Type 0 where
  pub config : RateLimitConfig
  pub key_prefix : Text

-- A backend with a non-empty prefix.
abbrev pub has_prefix : Option Text → Bool
has_prefix none = false
has_prefix (some prefix) = not (is_empty prefix)

unfoldable pub validate_key_prefix : Option Text → Text → Result (Unit {0})
validate_key_prefix backend_prefix key_prefix =
    raise_if (has_prefix backend_prefix && not (is_empty key_prefix)) value_error

-- The constructors; the backend itself is kept by the caller.
unfoldable pub make_limiter : Option Text → RateLimitConfig → Text → Result RateLimiter
make_limiter backend_prefix config key_prefix =
    validate_key_prefix backend_prefix key_prefix
    >> ok (record { config = config; key_prefix = key_prefix })

unfoldable pub make_sync_limiter : Option Text → RateLimitConfig → Text → Result RateLimiter
make_sync_limiter backend_prefix config key_prefix =
    validate_key_prefix backend_prefix key_prefix
    >> ok (record { config = config; key_prefix = key_prefix })

unfoldable pub build_key : RateLimiter → Text → Text
build_key limiter key = if is_empty limiter.key_prefix then key else limiter.key_prefix ++ key

unfoldable pub sync_build_key : RateLimiter → Text → Text
sync_build_key limiter key = if is_empty limiter.key_prefix then key else limiter.key_prefix ++ key

-- `result.allowed`, of a check that did not raise.
abbrev pub allowed_of : Result RateLimitResult → Result Bool
allowed_of (ok result) = ok result.allowed
allowed_of (raise e) = raise e

module _ {B : Type 0} (backend : RateLimitBackend B) (limiter : RateLimiter) where
  unfoldable pub check : B → Text → Result RateLimitResult × B
  check b key = backend.check_and_increment b (build_key limiter key) limiter.config none

  unfoldable pub allow : B → Text → Result Bool × B
  allow b key = let (result, b') = check b key in (allowed_of result, b')

  unfoldable pub reset : B → Text → Result (Unit {0}) × B
  reset b key = backend.reset b (build_key limiter key)

module _ {B : Type 0} (backend : SyncRateLimitBackend B) (limiter : RateLimiter) where
  unfoldable pub sync_check : B → Text → Result RateLimitResult × B
  sync_check b key = backend.check_and_increment b (sync_build_key limiter key) limiter.config none

  unfoldable pub sync_allow : B → Text → Result Bool × B
  sync_allow b key = let (result, b') = sync_check b key in (allowed_of result, b')

  unfoldable pub sync_reset : B → Text → Result (Unit {0}) × B
  sync_reset b key = backend.reset b (sync_build_key limiter key)

-- The awaited outcome of an optional method: either kind of value will do.
abbrev pub settle_async : {B : Type 0} → Result Returned × B → Result (Unit {0}) × B
settle_async (ok returned, b) = (ok tt, b)
settle_async (raise e, b) = (raise e, b)

-- The sync facade refuses an awaitable, after the call has been made.
abbrev pub settle_sync : {B : Type 0} → Result Returned × B → Result (Unit {0}) × B
settle_sync (ok plain, b) = (ok tt, b)
settle_sync (ok awaitable, b) = (raise runtime_error, b)
settle_sync (raise e, b) = (raise e, b)

module _ {B : Type 0} (extras : Extras B) where
  unfoldable pub aenter : B → Result (Unit {0}) × B
  aenter b = elim extras.initialize [ none ↦ (ok tt, b) | some init ↦ settle_async (init b) ]

  unfoldable pub aexit : B → Result (Unit {0}) × B
  aexit b = elim extras.close [ none ↦ (ok tt, b) | some closer ↦ settle_async (closer b) ]

  unfoldable pub enter : B → Result (Unit {0}) × B
  enter b = elim extras.initialize [ none ↦ (ok tt, b) | some init ↦ settle_sync (init b) ]

  unfoldable pub exit : B → Result (Unit {0}) × B
  exit b = elim extras.close [ none ↦ (ok tt, b) | some closer ↦ settle_sync (closer b) ]
