-- ===== src/Job.antt =====
-- src/job_manager.rs: the jobs of the service. `State` is the state machine of one job, `Handle`
-- the record of a job, `Manager` the operations of the job manager; the other modules prove.
pub mod State
pub mod Handle
pub mod Manager
pub mod Diagram
pub mod Calls
pub mod Effects
pub mod Invariant
pub mod Cleanup
pub mod Idle
pub mod History
pub mod Race
