-- ===== src/Pump.antt =====
-- src/io_pump.rs: output of a child process as frames, under a send window. `Window` is the
-- `StreamPump`, `Output` the read and the loop of `start_output_pump`, `Shared` the
-- two pumps of a job on one window; the others prove.
pub mod Window
pub mod Output
pub mod Frames
pub mod Stall
pub mod Completion
pub mod Shared
pub mod Race
