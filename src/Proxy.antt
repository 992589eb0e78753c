-- ===== src/Proxy.antt =====
-- src/lib.rs: the proxy itself.
pub mod Credentials
pub mod Handshake
pub mod Tunnel
pub mod Listen
pub mod Chain
mod Tests
