-- ===== src/Config.antt =====
-- src/config.rs: the configuration, what its texts mean, and the helpers the other parts call.
pub mod Enums
pub mod Types
pub mod Defaults
pub mod Parse
pub mod Text
pub mod Host
pub mod Ip
pub mod Tls
pub mod Overflow
pub mod Durations
pub mod RoundTrip
mod Tests
