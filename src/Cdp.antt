-- ===== src/Cdp.antt =====
-- src/core/cdp/relay.ts: the relay between one client of the browser's protocol and the browser.
pub mod Message
pub mod State
pub mod Client
pub mod Relay
mod Tests
