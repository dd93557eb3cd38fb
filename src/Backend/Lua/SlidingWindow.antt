-- ===== src/Backend/Lua/SlidingWindow.antt =====
-- src/rate_limit_patterns/backend/lua/sliding_window.lua. Its milliseconds are ticks here: a time of
-- the caller stays as it is, and the time of the server is cut to milliseconds first.
pub mod Sets
pub mod Step
pub mod Contract
use rate_limit_patterns.Prelude.{
  ℕ, ◌+◌, ◌-◌, ◌*◌, ◌/◌, max, ltb, if◌then◌else◌, Bool, true, false, Option, none, some, List, [],
  ◌∷◌,
}
use rate_limit_patterns.Prelude.Int.{ℤ, pos, negsuc, ◌-ℤ◌}
use rate_limit_patterns.Prelude.Quotient.{ceil_div}
use rate_limit_patterns.Prelude.Text.{Text}
use rate_limit_patterns.Models.{Scale}
use rate_limit_patterns.Backend.RedisShared.{Arg, int, rate, instant}
use rate_limit_patterns.Backend.Lua.{Commands}

-- The text `now_ms:seq`, as its two numbers.
abbrev pub Member : Type 0
Member = ℕ × ℕ

-- The commands on sorted sets and counters.
pub record SetCommands (W : Type 0) : Type 0 where
  -- `ZREMRANGEBYSCORE`, from the score 0.
  pub zremrangebyscore : W → Text → ℤ → W
  pub zcard : W → Text → ℕ
  pub incr : W → Text → ℕ × W
  pub zadd : W → Text → ℕ → Member → W
  -- `ZRANGE` from 0 to 0, `WITHSCORES`: the score.
  pub oldest : W → Text → Option ℕ

module _ (s : Scale) {W : Type 0} (c : Commands W) (z : SetCommands W) where
  abbrev pub server_time : W → ℕ
  server_time w = let (secs, micros) = c.time w in secs * s.ticks + micros / 1000 * s.ticks / 1000

  -- `if supplied_time and supplied_time >= 0 then … else … end`
  unfoldable pub script_time : W → Arg → ℕ
  script_time w (instant (pos t)) = t
  script_time w (instant (negsuc t)) = server_time w
  script_time w (int (pos n)) = n * s.ticks
  script_time w (int (negsuc n)) = server_time w
  script_time w (rate r) = r * s.ticks / s.parts

  -- `reset_at` and `retry_after`. The subtraction that stops at 0 is the test `wait_ms < 0`.
  abbrev pub reset_and_wait : Option ℕ → Bool → ℕ → ℕ → ℕ × ℕ
  reset_and_wait (some oldest) allowed window now =
      ((oldest + window) / s.ticks, if allowed then 0 else ceil_div (oldest + window - now) s.ticks)
  reset_and_wait none allowed window now = ((now + window) / s.ticks, 0)

  -- The script after its test of the count; Redis cuts the numbers of the reply to ints.
  unfoldable pub finish : W → Text → Text → ℕ → ℕ → Bool → ℤ → ℕ → List ℤ × W
  finish w key seq_key period_seconds now allowed remaining count =
      let ttl = max 1 period_seconds in
      let w' = c.expire (c.expire w key ttl) seq_key ttl in
      let (reset_at, retry_after) =
        reset_and_wait (z.oldest w' key) allowed (period_seconds * s.ticks) now in
      (
        (if allowed then pos 1 else pos 0)
            ∷ remaining
            ∷ pos retry_after
            ∷ pos reset_at
            ∷ pos count
            ∷ [],
        w',
      )

  -- The branch that allows the call: its member goes into the set.
  abbrev pub admit : W → Text → Text → ℕ → W
  admit w key seq_key now = let (seq, w') = z.incr w seq_key in z.zadd w' key now (now, seq)

  -- The reply and the server after the script.
  unfoldable pub script : W → Text → Text → ℕ → ℕ → ℕ → List ℤ × W
  script w key seq_key limit period_seconds now =
      let window_start = pos now -ℤ pos (period_seconds * s.ticks) in
      let trimmed = z.zremrangebyscore w key window_start in
      let count = z.zcard trimmed key in
      if ltb count limit
      then finish (admit trimmed key seq_key now) key seq_key period_seconds now true
          (pos limit -ℤ pos (count + 1)) (count + 1)
      else finish trimmed key seq_key period_seconds now false (pos 0) count

  -- The script, for the KEYS and ARGV that `build_script_call` makes for it; anything else is an
  -- error of the script.
  unfoldable pub eval : W → List Text → List Arg → Option (List ℤ × W)
  eval w (key ∷ seq_key ∷ []) (int (pos limit) ∷ int (pos period_seconds) ∷ time ∷ []) =
      some (script w key seq_key limit period_seconds (script_time w time))
  eval w _ _ = none
