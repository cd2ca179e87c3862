-- ===== src/Protocol.antt =====
-- src/protocol.rs: the frames of the pipe protocol. `Bytes` has the integers' byte order and the
-- interface of the bytes crate, `Frame` the frame with `encode` and `decode`, `Tags` the type
-- bytes; the others prove.
pub mod Bytes
pub mod Frame
pub mod Tags
pub mod RoundTrip
pub mod Canonical
