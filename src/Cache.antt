-- ===== src/Cache.antt =====
-- wangle/client/persistence: the cache that is kept in memory.
pub mod Interface
pub mod InMemory
pub mod Persistent
mod Examples
