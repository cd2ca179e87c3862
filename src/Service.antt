-- ===== src/Service.antt =====
-- src/service_host.rs and src/main.rs: the service around the job manager. `Host` is
-- `ServiceHost::run` with its cleanup task, `Control` the contact with the service manager of
-- Windows, `Entry` the ways into the program; `Life` and `Drain` prove.
pub mod Host
pub mod Control
pub mod Entry
pub mod Life
pub mod Drain
