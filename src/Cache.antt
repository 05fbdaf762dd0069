-- ===== src/Cache.antt =====
-- The cache, include/kungfu/yijinjing/cache.
pub mod RingQueue
