-- ===== src/Backend/Lua.antt =====
-- src/rate_limit_patterns/backend/lua: what the scripts share. The Redis commands that they call are
-- an argument, over the state `W` of the server. Numbers are scaled as in Models; an instant is a
-- natural number of ticks, as no script goes on with a negative time. `HMSET` stores a number as a
-- text of 14 digits, which is not modelled.
pub mod Trace
pub mod TokenBucket
pub mod SlidingWindow
pub mod LeakyBucket
use rate_limit_patterns.Prelude.{ℕ, ◌+◌, ◌*◌, ◌/◌, Option, List}
use rate_limit_patterns.Prelude.Int.{ℤ, pos, negsuc}
use rate_limit_patterns.Prelude.Text.{Text}
use rate_limit_patterns.Models.{Scale}
use rate_limit_patterns.Backend.RedisShared.{Arg, int, rate, instant}

pub record Commands (W : Type 0) : Type 0 where
  -- `TIME`: seconds and microseconds.
  pub time : W → ℕ × ℕ
  -- One field of `HMGET`, through `tonumber`.
  pub hget : W → Text → Text → Option ℕ
  -- `HMSET` of two fields.
  pub hmset : W → Text → Text × ℕ → Text × ℕ → W
  pub expire : W → Text → ℕ → W

module _ (s : Scale) {W : Type 0} (c : Commands W) where
  -- The time of the server, in ticks.
  abbrev pub server_time : W → ℕ
  server_time w = let (secs, micros) = c.time w in secs * s.ticks + micros * s.ticks / 1000000

  -- `if supplied_time and supplied_time >= 0 then … else … end`
  unfoldable pub script_time : W → Arg → ℕ
  script_time w (instant (pos t)) = t
  script_time w (instant (negsuc t)) = server_time w
  script_time w (int (pos n)) = n * s.ticks
  script_time w (int (negsuc n)) = server_time w
  script_time w (rate r) = r * s.ticks / s.parts
