-- ===== src/Socks.antt =====
-- src/core/proxy/socks-relay.ts: the local SOCKS5 relay that logs in at the upstream proxy.
pub mod Stream
pub mod Conn
pub mod Login
pub mod Tunnel
pub mod Server
mod Tests
pub mod Relay
