-- ===== src/Backend.antt =====
-- src/rate_limit_patterns/backend: the stores behind the limiter.
pub mod Core
pub mod Keying
pub mod RedisShared
pub mod SyncLocal
pub mod Local
pub mod Protocol
pub mod Scripts
pub mod Redis
pub mod SyncRedis
pub mod Lua
