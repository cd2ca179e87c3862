-- ===== src/FileIpc.antt =====
-- src/file_ipc.rs: requests and responses as files. `Files` is the file system, `Request` the
-- handling of one request, `Server` the polling, `Tasks` the spawned tasks one effect at a time;
-- `Write`, `Reply`, `Permits`, `Parallel`, `SideBySide` and `Twice` prove.
pub mod Files
pub mod Request
pub mod Tasks
pub mod Parallel
pub mod SideBySide
pub mod Twice
pub mod Server
pub mod Write
pub mod Reply
pub mod Permits
