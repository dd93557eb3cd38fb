-- ===== src/Backend/Lua/TokenBucket.antt =====
-- src/rate_limit_patterns/backend/lua/token_bucket.lua
pub mod Step
pub mod Contract
use mathlib.Core.Option
use rate_limit_patterns.Prelude.{
  ℕ, ◌+◌, ◌-◌, ◌*◌, ◌/◌, min, max, leb, if◌then◌else◌, Bool, Option, none, some, List, [], ◌∷◌,
}
use rate_limit_patterns.Prelude.Int.{ℤ, pos}
use rate_limit_patterns.Prelude.Quotient.{ceil_div}
use rate_limit_patterns.Prelude.Text.{Text, codes}
use rate_limit_patterns.Models.{Scale, one}
use rate_limit_patterns.Backend.RedisShared.{Arg, int, rate}
use rate_limit_patterns.Backend.Lua.{Commands, script_time}

module _ (s : Scale) where
  -- The balance after the decision.
  abbrev pub tokens_after : ℕ → ℕ
  tokens_after tokens = if leb (one s) tokens then tokens - one s else tokens

  abbrev pub retry_after : ℕ → ℕ → ℕ
  retry_after tokens_per_second tokens =
      if leb (one s) tokens then 0 else ceil_div (one s - tokens) (tokens_per_second * s.ticks)

  -- The reply, from the refilled balance; Redis cuts its numbers to ints.
  unfoldable pub reply : ℕ → ℕ → ℕ → ℕ → List ℤ
  reply burst_size tokens_per_second now refilled =
      let tokens = tokens_after refilled in
      let missing = burst_size * one s - tokens in
      (if leb (one s) refilled then pos 1 else pos 0)
      ∷ pos (tokens / one s)
      ∷ pos (retry_after tokens_per_second refilled)
      ∷ pos ((now * tokens_per_second + missing) / (tokens_per_second * s.ticks))
      ∷ pos (missing / one s)
      ∷ []

  -- `EXPIRE`, in seconds.
  unfoldable pub ttl : ℕ → ℕ → ℕ
  ttl burst_size tokens_per_second =
      max 1 (ceil_div (burst_size * one s) (tokens_per_second * s.ticks))

  module _ {W : Type 0} (c : Commands W) where
    -- The refilled balance of the stored state.
    unfoldable pub refilled : W → Text → ℕ → ℕ → ℕ → ℕ
    refilled w key burst_size tokens_per_second now =
        let tokens = Option.get_or (c.hget w key (codes "tokens")) (burst_size * one s) in
        let last_refill = Option.get_or (c.hget w key (codes "last_refill")) now in
        let elapsed = now - last_refill in
        min (tokens + elapsed * tokens_per_second) (burst_size * one s)

    -- The reply and the server after the script.
    unfoldable pub script : W → Text → ℕ → ℕ → ℕ → List ℤ × W
    script w key burst_size tokens_per_second now =
        let tokens = refilled w key burst_size tokens_per_second now in
        let written =
          c.hmset w key (codes "tokens", tokens_after tokens) (codes "last_refill", now) in
        (
          reply burst_size tokens_per_second now tokens,
          c.expire written key (ttl burst_size tokens_per_second),
        )

    -- The script, for the KEYS and ARGV that `build_script_call` makes for it; anything else is an
    -- error of the script.
    unfoldable pub eval : W → List Text → List Arg → Option (List ℤ × W)
    eval w (key ∷ []) (int (pos burst_size) ∷ rate tokens_per_second ∷ time ∷ []) =
        some (script w key burst_size tokens_per_second (script_time s c w time))
    eval w _ _ = none
