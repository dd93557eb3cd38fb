-- ===== src/Backend/RedisShared/Contract.antt =====
-- The wire format of the Redis backends against the local backends.
use rate_limit_patterns.Prelude.{
  ◌≡◌, ◌≢◌, refl, Bool, true, false, Option, none, some, List, [], ◌∷◌, arith, if◌then◌else◌,
}
use rate_limit_patterns.Prelude.Int.{ℤ, pos}
use rate_limit_patterns.Models.{RateLimitConfig, Scale, capacity, make_result}
use mathlib.Core.Option
use rate_limit_patterns.Algorithms.Base.{Metadata}
use rate_limit_patterns.Backend.RedisShared.{
  burst_or_limit, truthy, parse_script_result, instant_of_seconds,
}

-- A configuration whose burst is not zero has the same capacity in Redis and in memory.
pub burst_or_limit-capacity :
    (config : RateLimitConfig)
    → config.burst_size ≢ some 0
    → burst_or_limit config ≡ capacity config
unfolding burst_or_limit capacity
burst_or_limit-capacity config h = ground arith

-- The reply of a script that has come to this decision: `retry_after` is 0 where there is none.
unfoldable pub reply_of : Bool → Metadata → ℤ → List ℤ
reply_of allowed m reset_seconds =
    (if allowed then pos 1 else pos 0)
    ∷ m.remaining
    ∷ Option.get_or m.retry_after (pos 0)
    ∷ reset_seconds
    ∷ m.request_count
    ∷ []

-- A wait is told exactly to a denied call, and is at least a second.
abbrev pub Waits : Bool → Option ℤ → Type 0
Waits true none = Unit
Waits true (some wait) = ⊥
Waits false none = ⊥
Waits false (some wait) = truthy wait ≡ true

-- Reading a reply gives back the decision that it was made from.
pub parse_script_result-reply_of :
    (s : Scale) (config : RateLimitConfig) (allowed : Bool) (m : Metadata) (reset_seconds : ℤ)
    → Waits allowed m.retry_after
    → parse_script_result s (reply_of allowed m reset_seconds) config
      ≡ make_result allowed m.remaining config.limit m.retry_after
          (some (instant_of_seconds s reset_seconds))
          m.request_count
unfolding parse_script_result reply_of truthy
parse_script_result-reply_of s config allowed m reset_seconds h = go allowed m.retry_after h
  where
    go :
        (allowed : Bool) (retry_after : Option ℤ)
        → Waits allowed retry_after
        → parse_script_result s
            ((if allowed then pos 1 else pos 0)
              ∷ m.remaining
              ∷ Option.get_or retry_after (pos 0)
              ∷ reset_seconds
              ∷ m.request_count
              ∷ [])
            config
          ≡ make_result allowed m.remaining config.limit retry_after
              (some (instant_of_seconds s reset_seconds))
              m.request_count
    go true none h = refl
    go true (some wait) h = absurd h
    go false none h = absurd h
    go false (some wait) h = rw h refl
