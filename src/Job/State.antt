-- ===== src/Job/State.antt =====
-- The `JobState` of src/job_manager.rs: the states of a job and the test for a permitted change.
use Prim.Native.String.{String}
use windows_command_runner.Base.{Bool, true, false}

pub data JobState : Type 0 where
  created starting running exiting completed failed canceled timed_out : JobState

-- The pairs of the `matches!` table.
unfoldable pub can_transition_to : JobState → JobState → Bool
can_transition_to created starting = true
can_transition_to starting running = true
can_transition_to starting failed = true
can_transition_to running exiting = true
can_transition_to running canceled = true
can_transition_to running timed_out = true
can_transition_to running failed = true
can_transition_to exiting completed = true
can_transition_to exiting failed = true
can_transition_to created canceled = true
can_transition_to starting canceled = true
can_transition_to exiting canceled = true
can_transition_to _ _ = false

unfoldable pub is_terminal : JobState → Bool
is_terminal completed = true
is_terminal failed = true
is_terminal canceled = true
is_terminal timed_out = true
is_terminal _ = false

-- `Display` of `JobState`.
unfoldable pub state_text : JobState → String
state_text created = "Created"
state_text starting = "Starting"
state_text running = "Running"
state_text exiting = "Exiting"
state_text completed = "Completed"
state_text failed = "Failed"
state_text canceled = "Canceled"
state_text timed_out = "TimedOut"
