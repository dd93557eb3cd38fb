-- ===== src/Lib.antt =====
-- A model of the rate limiting library in src/rate_limit_patterns (paths in this file are from the
-- repository's root), with proofs that its parts do what they promise.
--
-- The program. A RateLimitConfig names one of three algorithms with its limit, period and burst. An
-- algorithm is a pure function: from a state and a time it computes a decision, a new state and
-- metadata. A backend keeps one state for each key and runs the algorithm in one atomic step: in
-- memory (an async and a sync backend over one shared store whose entries expire), or in Redis. The
-- limiter facades, the decorator, the ASGI middleware and the FastAPI dependency call a backend and
-- act on its result.
--
-- The files.
--   Models                    models.py, exceptions.py, and the scale of the numbers
--   Algorithms/TokenBucket    algorithms/token_bucket.py: `initial_state`, `compute` (its steps are
--                             `refilled` and `settle`)
--   Algorithms/SlidingWindow  algorithms/sliding_window.py: `compute` (`in_window`, `allow`, `deny`)
--   Algorithms/LeakyBucket    algorithms/leaky_bucket.py: `compute` (`leaked`, `wait_for`, `settle`)
--   Algorithms/Base, Protocol algorithms/base.py: the protocol, and the algorithms as its values
--   Backend/Core              backend/_local_shared.py: LocalStateCore
--   Backend/Core/Cleanup      the sweep of backend/local.py and backend/sync.py
--   Backend/Local, SyncLocal  backend/local.py, and SyncLocalBackend of backend/sync.py
--   Backend/RedisShared       backend/_redis_shared.py: the wire format
--   Backend/Scripts           the Lua scripts in backend/redis.py and backend/sync.py: loading, running,
--                             retrying
--   Backend/Redis             backend/redis.py: RedisBackend
--   Backend/SyncRedis         SyncRedisBackend of backend/sync.py
--   Backend/Lua               the scripts in backend/lua: token_bucket.lua, leaky_bucket.lua and
--                             sliding_window.lua, over the Redis commands that they call
--   Backend/Keying            backend/keying.py: hash tags
--   Backend/Protocol          backend/base.py
--   Limiter                   limiter.py: RateLimiter and SyncRateLimiter
--   Decorators                decorators.py: rate_limit
--   Middleware/Headers        middleware/headers.py
--   Middleware/Shared         middleware/_shared.py: the event hook
--   Middleware/Asgi, Fastapi  middleware/asgi.py and middleware/fastapi.py
--   Prelude                   shared helpers: integers, texts, lists, dictionaries, quotients
--   Tests                     runs at concrete inputs, and theorems applied to them
-- A child of a component holds proofs about it and is named for what it proves.
--
-- Numbers. The code has floats. Here a time is an integer number of ticks and an amount of tokens a
-- natural number of units; a Scale says how many ticks make a second and how many units a token
-- (`ticks * parts`). `tokens_per_second` is the rate in units to a tick, rounded down; IsResolved
-- says that it is not rounded down to nothing. A time that the code obtains by a division is
-- rounded up to a tick, and in the reply of a script down to a second. Rounding errors of floats
-- are not modelled. Limit and period are positive as __post_init__ demands (IsValid); a negative
-- burst is not modelled. A burst of 0 is, and a theorem that needs a capacity of at least one token
-- says so, as does one that needs times that never decrease: the clock may be set back, and two
-- threads may apply their checks in another order than they read the clock.
--
-- State. Methods take the state of their object and return the new one. An exception is a `raise`
-- of the Result type, and the state beside it is what the object is left with. What a lock guards
-- is one step. A step of the async local backend runs up to an `await` at which others may run:
-- `close` is `begin_close` and `end_close`, with anything in between. The `join` in `close` of the
-- sync local backend is part of one step. The wrapped `send` of the ASGI middleware is a function on
-- the messages of a response. Readings of the clock, `hash`, `str`, the contents of the Lua files, the Redis
-- client with its server and its commands, the application, hooks and key functions are arguments.
-- Backend/Lua says what the Lua files do on a server; the Redis backends take any server, and the
-- two are not joined. There is no fuel: every loop runs over a list.
--
-- Not modelled: the Redis server (what it documents of its commands is a hypothesis), sockets and
-- the response classes of the web frameworks, logging, and the benchmarks.
pub mod Prelude
pub mod Models
pub mod Algorithms
pub mod Backend
pub mod Limiter
pub mod Decorators
pub mod Middleware
mod Tests
