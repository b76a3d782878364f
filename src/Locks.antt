-- ===== src/Locks.antt =====
-- src/core/locks/locks.ts: locks that exclude other processes by a file, and other work of the same
-- process by a chain of promises.
pub mod LockFile
pub mod Ownership
pub mod Places
pub mod Exclusion
pub mod Acquire
pub mod Mutex
mod Tests
