-- ===== src/Server/Session.antt =====
-- `handle_run`, its task for the exit of the process, and `process_requests` of src/pipe_server.rs.
-- The manager and the sender are passed from step to step. The JSON of a payload (serde_json) and
-- the launch of a process are parameters; the i-th reading of the clock is `clock i`. Log lines are
-- left out. The pumps, the timeout monitor and the exit task start when `handle_run` returns a
-- `Spawned`: they run beside the loop.
use Prim.Native.String.{String}
use windows_command_runner.Base.{
  ℕ, ◌*◌, not, Option, none, some, List, [], ◌∷◌, ◌==◌, if◌then◌else◌,
}
use mathlib.Core.Option
use windows_command_runner.Base.Assoc.{update}
use windows_command_runner.Error.{
  Error, Result, ok, err, io, raw_os_error, protocol, invalid_run_payload, send_ack_failed,
}
use windows_command_runner.Windows.{error_broken_pipe}
use windows_command_runner.Channel.{ChannelApi}
use windows_command_runner.Protocol.Frame.{
  Frame, FrameType, control, new_frame, with_job_id, with_payload,
}
use windows_command_runner.Job.State.{starting, running, exiting, completed, failed}
use windows_command_runner.Job.Handle.{JobHandle, set_handle}
use windows_command_runner.Job.Manager.{
  JobManager, create_job, transition_state, cancel_job, cleanup_job, update_activity,
}

pub record RunPayload : Type 0 where
  pub command : String
  pub working_directory : Option String
  pub environment : Option (List (String × String))
  pub timeout_ms : Option ℕ

-- The handles of a launched process that the session uses.
pub record Launched : Type 0 where
  pub process_handle : ℕ
  pub job_object : ℕ
  pub stdout_read : ℕ
  pub stderr_read : ℕ

-- What the tasks that a launch starts are given: the id of the job and the handles of its process.
abbrev pub Spawned : Type 0
Spawned = ℕ × Launched

-- A payload as serde_json reads it, or the text of its error.
pub data Parsed : Type 0 where
  good : RunPayload → Parsed
  bad : String → Parsed

-- What the session uses of serde_json and of the process launcher: reading a RUN payload, writing
-- an EXIT payload, launching, and the payload that reports a failed launch.
pub record SessionApi : Type 0 where
  pub parse_run : List ℕ → Parsed
  pub exit_payload : ℕ → List ℕ
  pub launch : RunPayload → Result Launched
  pub launch_failed : Error → List ℕ

-- Milliseconds as nanoseconds.
abbrev pub from_millis : ℕ → ℕ
from_millis ms = ms * 1_000_000

unfoldable pub run_ack : ℕ → Frame
unfolding new_frame with_job_id
run_ack job_id = with_job_id (new_frame FrameType.run_ack control) job_id

unfoldable pub error_frame : ℕ → List ℕ → Frame
unfolding new_frame with_job_id with_payload
error_frame job_id payload =
    with_payload (with_job_id (new_frame FrameType.error control) job_id) payload

unfoldable pub exit_frame : ℕ → List ℕ → Frame
unfolding new_frame with_job_id with_payload
exit_frame job_id payload =
    with_payload (with_job_id (new_frame FrameType.exit control) job_id) payload

-- `process_handle.set` and `job_object.set` through the shared handle.
abbrev pub set_handles : Launched → JobHandle → JobHandle
set_handles proc job = record job {
  process_handle = set_handle job.process_handle proc.process_handle;
  job_object = set_handle job.job_object proc.job_object;
}

-- How the loop goes on after a frame: with the tasks of a job started, if one was, or not at all.
pub data Next : Type 0 where
  continue : Option Spawned → Next
  stop : Result (Unit {0}) → Next

module _ (channel : ChannelApi) where
  open channel use {Sender, send}

  -- `frame_tx.send(..).await.ok()`: a failure is ignored.
  abbrev pub send_or_ignore : Sender → Frame → Sender
  send_or_ignore s f = elim (send s f) [ some s' ↦ s' | none ↦ s ]

module _ (channel : ChannelApi) (api : SessionApi) (clock : ℕ → ℕ) where
  open channel use {Sender, send}
  open api use {parse_run, exit_payload, launch, launch_failed}

  -- The arm `Ok(proc)` of the launch, up to the tasks that it spawns.
  unfoldable pub start_process :
      JobManager → Sender → ℕ → Launched → JobManager × Sender × Result (Option Spawned)
  start_process m s job_id proc =
      let handles = record m { jobs = update job_id (set_handles proc) m.jobs } in
      let (m', r) = transition_state handles job_id running (clock 2) in
      elim r [
        | err e ↦ (m', s, err e)
        | ok _ ↦ (update_activity m' job_id (clock 3), s, ok (some (job_id, proc)))
      ]

  -- The arm `Err(e)`.
  unfoldable pub report_failure :
      JobManager → Sender → ℕ → Error → JobManager × Sender × Result (Option Spawned)
  report_failure m s job_id e =
      let m1 = (transition_state m job_id failed (clock 2)).0 in
      let s1 = send_or_ignore channel s (error_frame job_id (launch_failed e)) in
      ((cleanup_job m1 job_id).0, s1, ok none)

  unfoldable pub launch_job :
      JobManager → Sender → ℕ → RunPayload → JobManager × Sender × Result (Option Spawned)
  launch_job m s job_id payload =
      let (m', r) = transition_state m job_id starting (clock 1) in
      elim r [
        | err e ↦ (m', s, err e)
        | ok _ ↦ elim (launch payload) [
          | ok proc ↦ start_process m' s job_id proc
          | err e ↦ report_failure m' s job_id e
        ]
      ]

  unfoldable pub acknowledge_run :
      JobManager → Sender → ℕ → RunPayload → JobManager × Sender × Result (Option Spawned)
  acknowledge_run m s job_id payload = elim (send s (run_ack job_id)) [
    | none ↦ (m, s, err (protocol send_ack_failed))
    | some s' ↦ launch_job m s' job_id payload
  ]

  unfoldable pub run_job :
      JobManager → Sender → RunPayload → JobManager × Sender × Result (Option Spawned)
  run_job m s payload =
      let (m', r) = create_job m (Option.map from_millis payload.timeout_ms) (clock 0) in
      elim r [ err e ↦ (m', s, err e) | ok job ↦ acknowledge_run m' s job.job_id payload ]

  unfoldable pub handle_run :
      JobManager → Sender → Frame → JobManager × Sender × Result (Option Spawned)
  handle_run m s frame = elim (parse_run frame.payload) [
    | bad text ↦ (m, s, err (protocol (invalid_run_payload text)))
    | good payload ↦ run_job m s payload
  ]

  -- The task that waits for the process, once it has the exit code (-1 if the wait failed).
  unfoldable pub exit_task : JobManager → Sender → ℕ → ℕ → JobManager × Sender
  exit_task m s job_id exit_code =
      let m1 = (transition_state m job_id exiting (clock 4)).0 in
      let m2 = update_activity m1 job_id (clock 5) in
      let s1 = send_or_ignore channel s (exit_frame job_id (exit_payload exit_code)) in
      ((transition_state m2 job_id completed (clock 6)).0, s1)

  -- `self.handle_run(..).await?`
  abbrev pub after_run : JobManager × Sender × Result (Option Spawned) → JobManager × Sender × Next
  after_run (m, s, ok spawned) = (m, s, continue spawned)
  after_run (m, s, err e) = (m, s, stop (err e))

  -- The `match` on the frame type.
  unfoldable pub handle_frame : FrameType → JobManager → Sender → Frame → JobManager × Sender × Next
  handle_frame FrameType.run m s frame = after_run (handle_run m s frame)
  handle_frame FrameType.cancel m s frame =
      let m' = update_activity m frame.job_id (clock 0) in
      ((cancel_job m' frame.job_id (clock 1)).0, s, continue none)
  handle_frame FrameType.window_update m s frame =
      (update_activity m frame.job_id (clock 0), s, continue none)
  handle_frame FrameType.goodbye m s frame = (m, s, stop (ok tt))
  handle_frame _ m s frame = (
    if not (frame.job_id == 0) then update_activity m frame.job_id (clock 0) else m,
    s,
    continue none,
  )

-- The arms for a failed read: a broken pipe ends the session, any other error is returned.
unfoldable pub end_of_reads : Error → Result (Unit {0})
end_of_reads (io (raw_os_error code)) =
    if code == error_broken_pipe then ok tt else err (io (raw_os_error code))
end_of_reads e = err e

-- What the loop has come to when the reads are used up: it returned, or it waits for a frame.
pub data Session (S : Type 0) : Type 0 where
  ended : JobManager → S → Result (Unit {0}) → Session S
  listening : JobManager → S → Session S

-- A read of the loop: what `read_frame` returned, and the clock while its frame is handled.
pub record Incoming : Type 0 where
  pub frame : Result Frame
  pub clock : ℕ → ℕ

module _ (channel : ChannelApi) (api : SessionApi) where
  open channel use {Sender}

  unfoldable pub process_requests : JobManager → Sender → List Incoming → Session Sender
  unfolding handle_frame end_of_reads
  process_requests m s [] = listening m s
  process_requests m s (i ∷ rest) = elim i.frame [
    | err e ↦ ended m s (end_of_reads e)
    | ok frame ↦
        let r = handle_frame channel api i.clock frame.frame_type m s frame in
        elim r.2 [ continue _ ↦ process_requests r.0 r.1 rest | stop result ↦ ended r.0 r.1 result ]
  ]
