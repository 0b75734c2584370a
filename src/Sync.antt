-- ===== src/Sync.antt =====
-- kangaroos/src/sync: the primitives that tasks block on.
pub mod Handover
pub mod Mutex
pub mod EventGroup
pub mod Condvar
pub mod Once
pub mod Drain
pub mod Semaphore
mod Tests
