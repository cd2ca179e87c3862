-- ===== src/Service/Host.antt =====
-- `ServiceHost` of src/service_host.rs. The tasks of the service take turns: an event is one turn
-- of one of them. The clients' sessions and the timeout monitors come in as their calls of the job
-- manager, each of which is one turn: that clients on several threads can pass the test of the
-- limit at once is left to Job.Race. The watch channel is the flag that `stop` sets.
use windows_command_runner.Base.{
  ℕ, Bool, true, false, List, [], ◌∷◌, Option, none, some, if◌then◌else◌,
}
use windows_command_runner.Error.{Result, ok}
use windows_command_runner.Job.Manager.{
  JobManager, new_manager, cleanup_idle_jobs, force_cleanup_all,
}
use windows_command_runner.Job.History.{Call, step}

abbrev pub max_concurrent_jobs : ℕ
max_concurrent_jobs = 50

abbrev pub max_connections : ℕ
max_connections = 100

-- 30 minutes and 2 minutes, in nanoseconds.
abbrev pub idle_cleanup_threshold : ℕ
idle_cleanup_threshold = 1_800_000_000_000

abbrev pub quiet_cleanup_threshold : ℕ
quiet_cleanup_threshold = 120_000_000_000

-- `run` waits for the shutdown signal, then for two seconds, then it has returned.
pub data Phase : Type 0 where
  serving draining stopped : Phase

pub record ServiceHost : Type 0 where
  pub manager : JobManager
  pub shutdown : Bool
  pub cleaning : Bool  -- the cleanup task runs
  pub phase : Phase

unfoldable pub new_host : ℕ → ServiceHost
new_host now = record {
  manager = new_manager max_concurrent_jobs now;
  shutdown = false;
  cleaning = true;
  phase = serving;
}

pub data Turn : Type 0 where
  calls : ℕ → Call → Turn  -- a call of the job manager, at a time
  ticks : ℕ → Turn  -- the interval of the cleanup task
  cleanup_notices : Turn  -- the cleanup task looks at the flag
  stops : Turn  -- `stop`
  run_notices : Turn  -- `run` looks at the flag
  interrupts : Turn  -- Ctrl+C
  sleep_ends : Turn  -- the two seconds are over

-- `stop`
abbrev pub stop : ServiceHost → ServiceHost
stop s = record s { shutdown = true }

-- The cleanup at the start of the shutdown; it cannot fail.
unfoldable pub begin_shutdown : ServiceHost → ServiceHost
begin_shutdown s = record s { manager = (force_cleanup_all s.manager).0; phase = draining }

-- The arm of the cleanup task for a tick.
abbrev pub cleanup_tick : ServiceHost → ℕ → ServiceHost
cleanup_tick s now = record s {
  manager = (cleanup_idle_jobs s.manager now idle_cleanup_threshold quiet_cleanup_threshold).0;
}

-- What `run` makes of a turn in a phase. The cleanup task is aborted when `run` returns.
unfoldable pub turn_in : Phase → ServiceHost → Turn → ServiceHost
unfolding begin_shutdown
turn_in stopped s t = s
turn_in p s (calls now c) = record s { manager = step s.manager (now, c) }
turn_in p s (ticks now) = if s.cleaning then cleanup_tick s now else s
turn_in p s cleanup_notices = if s.shutdown then record s { cleaning = false } else s
turn_in p s stops = stop s
turn_in serving s run_notices = if s.shutdown then begin_shutdown s else s
turn_in draining s run_notices = s
turn_in serving s interrupts = begin_shutdown s
turn_in draining s interrupts = s
turn_in serving s sleep_ends = s
turn_in draining s sleep_ends = record s { cleaning = false; phase = stopped }

unfoldable pub turn : ServiceHost → Turn → ServiceHost
unfolding turn_in
turn s t = turn_in s.phase s t

-- What `run` has returned in a phase, if it has.
unfoldable pub run_result : Phase → Option (Result (Unit {0}))
run_result stopped = some (ok tt)
run_result serving = none
run_result draining = none

-- The service over a schedule of turns.
unfoldable pub run_turns : ServiceHost → List Turn → ServiceHost
run_turns s [] = s
run_turns s (t ∷ ts) = run_turns (turn s t) ts

-- `ServiceHost::run` on a new host, from its start at a time to the end of a schedule.
unfoldable pub run : ℕ → List Turn → Option (Result (Unit {0}))
unfolding run_turns run_result new_host
run now ts = run_result (run_turns (new_host now) ts).phase
