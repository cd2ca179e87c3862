-- ===== src/Launch.antt =====
-- src/process_launcher.rs. `EnvBlock` is the environment block, `Pipes` the pipes and the job
-- object, `Process` the launch; `Handles` and `Leaks` prove what is open after it, `Variables`
-- what Windows reads in the block.
pub mod Pipes
pub mod EnvBlock
pub mod Process
pub mod Handles
pub mod Failures
pub mod Leaks
pub mod Variables
