-- ===== src/Algorithms.antt =====
-- src/rate_limit_patterns/algorithms: the three algorithms behind the protocol of base.py.
pub mod Base
pub mod TokenBucket
pub mod SlidingWindow
pub mod LeakyBucket
pub mod Protocol
