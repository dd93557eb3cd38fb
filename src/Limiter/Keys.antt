-- ===== src/Limiter/Keys.antt =====
-- src/rate_limit_patterns/limiter.py with a Redis backend: which prefix a key is sent with.
use rate_limit_patterns.Prelude.{◌≡◌, ◌≢◌, refl, some, [], ◌∷◌, ◌++◌}
use rate_limit_patterns.Prelude.Text.{Text}
use rate_limit_patterns.Models.{RateLimitConfig, Result, ok, raise, value_error}
use rate_limit_patterns.Backend.Redis.{apply_prefix}
use rate_limit_patterns.Limiter.{RateLimiter, build_key, make_limiter, validate_key_prefix}

module _ (backend_prefix : Text) (config : RateLimitConfig) (key_prefix : Text) where
  -- The key that the backend sends for a key that the limiter is given.
  abbrev pub sent : RateLimiter → Text → Text
  sent limiter key = apply_prefix backend_prefix (build_key limiter key)

  -- What becomes of a limiter of this prefix over a backend of that one.
  pub data PrefixedOnce : Result RateLimiter → Type 0 where
    refused : backend_prefix ≢ [] → key_prefix ≢ [] → PrefixedOnce (raise value_error)
    by_limiter :
        {limiter : RateLimiter}
        → limiter.config ≡ config
        → backend_prefix ≡ []
        → ((key : Text) → sent limiter key ≡ key_prefix ++ key)
        → PrefixedOnce (ok limiter)
    by_backend :
        {limiter : RateLimiter}
        → limiter.config ≡ config
        → key_prefix ≡ []
        → ((key : Text) → sent limiter key ≡ backend_prefix ++ key)
        → PrefixedOnce (ok limiter)

-- A limiter over a Redis backend is refused with a ValueError where both have a prefix; where one of
-- the two has none, it is made, with its configuration, and the key that the backend sends is the
-- given key behind the prefix of the other, once.
pub make_limiter-PrefixedOnce :
    (backend_prefix : Text) (config : RateLimitConfig) (key_prefix : Text)
    → PrefixedOnce backend_prefix config key_prefix
        (make_limiter (some backend_prefix) config key_prefix)
unfolding make_limiter validate_key_prefix build_key apply_prefix
make_limiter-PrefixedOnce [] config [] = by_limiter refl refl (λ key. refl)
make_limiter-PrefixedOnce [] config (c ∷ cs) = by_limiter refl refl (λ key. refl)
make_limiter-PrefixedOnce (c ∷ cs) config [] = by_backend refl refl (λ key. refl)
make_limiter-PrefixedOnce (c ∷ cs) config (d ∷ ds) = refused (λ e. cc) (λ e. cc)
