-- ===== src/Archive.antt =====
-- src/core/archive/archive.ts: what a profile's ZIP archive may hold.
pub mod Names
pub mod Limits
pub mod Bytes
pub mod Directory
mod Tests
