-- ===== src/Thread.antt =====
-- include/minirpc/thread, src/thread.
pub mod ThreadPool
