-- ===== src/Backend/Lua/LeakyBucket.antt =====
-- src/rate_limit_patterns/backend/lua/leaky_bucket.lua
pub mod Step
pub mod Contract
use mathlib.Core.Option
use rate_limit_patterns.Prelude.{
  ℕ, ◌+◌, ◌-◌, ◌*◌, ◌/◌, max, ltb, leb, if◌then◌else◌, Bool, Option, none, some, List, [], ◌∷◌,
}
use rate_limit_patterns.Prelude.Int.{ℤ, pos}
use rate_limit_patterns.Prelude.Quotient.{ceil_div}
use rate_limit_patterns.Prelude.Text.{Text, codes}
use rate_limit_patterns.Models.{Scale, one}
use rate_limit_patterns.Backend.RedisShared.{Arg, int, rate}
use rate_limit_patterns.Backend.Lua.{Commands, script_time}

module _ (s : Scale) where
  abbrev pub has_room : ℕ → ℕ → Bool
  has_room capacity queue_after_leak = leb (queue_after_leak + one s) (capacity * one s)

  abbrev pub new_queue_size : ℕ → ℕ → ℕ
  new_queue_size capacity queue_after_leak =
      if has_room capacity queue_after_leak then queue_after_leak + one s else queue_after_leak

  abbrev pub retry_after : ℕ → ℕ → ℕ → ℕ
  retry_after capacity leak_rate queue_after_leak =
      if has_room capacity queue_after_leak
      then 0
      else if ltb 0 leak_rate
      then max 1 (ceil_div (queue_after_leak + one s - capacity * one s) (leak_rate * s.ticks))
      else 1

  -- The reply, from the drained queue; Redis cuts its numbers to ints. The subtraction that stops at
  -- 0 is the test `remaining < 0`.
  unfoldable pub reply : ℕ → ℕ → ℕ → ℕ → List ℤ
  reply capacity leak_rate now queue_after_leak =
      let queue_size = new_queue_size capacity queue_after_leak in
      (if has_room capacity queue_after_leak then pos 1 else pos 0)
      ∷ pos ((capacity * one s - queue_size) / one s)
      ∷ pos (retry_after capacity leak_rate queue_after_leak)
      ∷ pos (
          if ltb 0 leak_rate
          then (now * leak_rate + queue_size) / (leak_rate * s.ticks)
          else now / s.ticks)
      ∷ pos (queue_size / one s)
      ∷ []

  -- `EXPIRE`, in seconds.
  unfoldable pub ttl : ℕ → ℕ → ℕ
  ttl capacity leak_rate =
      if ltb 0 leak_rate then max 1 (ceil_div (capacity * one s) (leak_rate * s.ticks)) else 1

  module _ {W : Type 0} (c : Commands W) where
    -- The stored queue after the leak.
    unfoldable pub drained : W → Text → ℕ → ℕ → ℕ
    drained w key leak_rate now =
        let queue_size = Option.get_or (c.hget w key (codes "queue_size")) 0 in
        let last_leak = Option.get_or (c.hget w key (codes "last_leak")) now in
        let elapsed = now - last_leak in queue_size - elapsed * leak_rate

    -- The reply and the server after the script.
    unfoldable pub script : W → Text → ℕ → ℕ → ℕ → List ℤ × W
    script w key capacity leak_rate now =
        let queue_after_leak = drained w key leak_rate now in
        let written =
          c.hmset w key (codes "queue_size", new_queue_size capacity queue_after_leak)
            (codes "last_leak", now) in
        (
          reply capacity leak_rate now queue_after_leak,
          c.expire written key (ttl capacity leak_rate),
        )

    -- The script, for the KEYS and ARGV that `build_script_call` makes for it; anything else is an
    -- error of the script.
    unfoldable pub eval : W → List Text → List Arg → Option (List ℤ × W)
    eval w (key ∷ []) (int (pos capacity) ∷ rate leak_rate ∷ time ∷ []) =
        some (script w key capacity leak_rate (script_time s c w time))
    eval w _ _ = none
