-- ===== src/Cache.antt =====
-- pkg/cache: the caches that hold compiled queries, scan plans and prepared statements.
pub mod Lru
pub mod Calls
pub mod Sharded
pub mod CopyOnWrite
