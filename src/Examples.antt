-- ===== src/Examples.antt =====
-- Concrete libraries, pipes, managers and frames, and the theorems applied to them.
mod Models
mod Queues
mod Jobs
mod Wire
mod Sessions
mod Launches
mod Files
mod Services
mod Monitors
mod Connections
