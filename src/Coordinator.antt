-- ===== src/Coordinator.antt =====
-- src/core/coordinator/coordinator.ts: the lifecycle of a profile's session.
pub mod World
pub mod Exec
pub mod Spec
pub mod Store
pub mod Guard
pub mod Fields
pub mod Cleanup
pub mod Stop
pub mod Reconcile
pub mod Restore
pub mod Start
pub mod Operations
pub mod Recover
pub mod WriteAhead
pub mod Outcomes
pub mod Tests
