-- ===== src/Cache.antt =====
-- app/cache: the entries of the cache protocol and the in-process cache.
pub mod Memory
pub mod Tests
