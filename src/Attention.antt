-- ===== src/Attention.antt =====
-- src/core/attention/service.ts: requests for the user's attention, by a sound and a notification.
pub mod Channels
pub mod Service
mod Tests
