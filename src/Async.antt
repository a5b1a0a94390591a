-- ===== src/Async.antt =====
-- lib/async/: the pool of resources and the locks of keys.
pub mod ResourcePool
pub mod Mutex
