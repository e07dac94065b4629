-- ===== src/Protocol.antt =====
-- src/protocol.rs: CoT events as XML text, and the framing of a byte stream into events.
pub mod Lossy
pub mod Xml
pub mod Event
pub mod Escape
pub mod Decoder
pub mod Drained
pub mod Fragments
pub mod Failures
pub mod Streams
pub mod Reads
pub mod Frames
pub mod Emitted
pub mod Samples
mod Tests
pub mod Sent
pub mod Delivered
