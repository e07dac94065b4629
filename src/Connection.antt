-- ===== src/Connection.antt =====
-- src/connection.rs: dialling a server over TCP, TLS or mTLS.
pub mod Errors
pub mod Connect
pub mod Verified
pub mod Stream
pub mod Timeouts
mod Tests
