-- ===== src/Pipe.antt =====
-- The framing of src/pipe_server.rs: `Io` is the reads and writes of whole buffers and frames over
-- a pipe handle, `Delivery` what they do to the bytes on the pipe, `Transport` how a frame crosses
-- it, `Directions` that its two directions are apart.
pub mod Io
pub mod Delivery
pub mod Transport
pub mod Directions
