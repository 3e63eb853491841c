-- ===== src/Sync.antt =====
-- kernel/src/sync: the mutex and the spinlocks.
pub mod Mutex
pub mod Spinlock
