-- ===== src/Cache.antt =====
-- The caches of the service: the process-local one (core/local_cache.py), the user snapshots over
-- it and Redis (core/user_cache.py), and the filter of user ids (core/bloom.py).
pub mod Local
pub mod Users
pub mod Bloom
