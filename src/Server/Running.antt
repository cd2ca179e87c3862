-- ===== src/Server/Running.antt =====
-- What `handle_run` of src/pipe_server.rs does, from the frame to the running process or back.
use windows_command_runner.Base.{
  ℕ, ◌<◌, ◌≡◌, refl, ◌∙◌, false, none, some, Option, List, ◌∷◌, length,
}
use mathlib.Core.Option
use windows_command_runner.Base.Assoc.{
  get, contains_key, insert, update, Sets, Sets-get, update-Sets, remove, remove-Sets, get-insert,
  contains_key-eq-false,
}
use windows_command_runner.Error.{Error, Result, ok, err}
use windows_command_runner.Channel.{ChannelApi}
use windows_command_runner.Protocol.Frame.{Frame}
use windows_command_runner.Job.State.{JobState, running, starting, failed, can_transition_to}
use windows_command_runner.Job.Handle.{JobHandle}
use windows_command_runner.Job.Calls.{
  create_job-eq, transition_state-eq, update_activity-eq, cleanup_job-eq,
}
use windows_command_runner.Job.Manager.{
  JobManager, next_id, fresh_job, enter_state, transition_state, cancel_token,
}
use windows_command_runner.Server.Session.{
  RunPayload, Launched, Spawned, good, SessionApi, from_millis, run_ack, error_frame, set_handles,
  send_or_ignore, start_process, report_failure, launch_job, acknowledge_run, run_job, handle_run,
}

-- A request that the manager has room and an id for.
pub record CanRun (api : SessionApi) (m : JobManager) (frame : Frame) (payload : RunPayload)
    : Type 0 where
  pub parsed : api.parse_run frame.payload ≡ good payload
  pub room : length m.jobs < m.max_concurrent_jobs
  pub unused : contains_key (next_id m.next_job_id).0 m.jobs ≡ false

module _ (channel : ChannelApi) (api : SessionApi) (clock : ℕ → ℕ) where
  open channel use {Sender, send}

  start_process-eq :
      (m : JobManager) (s : Sender) (id : ℕ) (proc : Launched) (job : JobHandle)
      (ys : List (ℕ × JobHandle))
      → Sets id job m.jobs ys
      → job.state ≡ starting
      → (m' : JobManager) × (start_process channel api clock m s id proc
          ≡ (m', s, ok (some (id, proc))))
        × Sets id
            (record (enter_state running (clock 2) (set_handles proc job)) {
              last_activity = clock 3;
            })
            m'.jobs
            ys
  unfolding start_process can_transition_to
  start_process-eq m s id proc job ys h st =
      let xs = update id (set_handles proc) m.jobs in
      let h1 = update-Sets id job m.jobs ys (set_handles proc) h in
      let job1 = set_handles proc job in
      let eq1 =
        transition_state-eq (record m { jobs = xs }) id running (clock 2) job1
          (Sets-get id job1 xs ys h1) (rw st) in
      let h2 = update-Sets id job1 xs ys (enter_state running (clock 2)) h1 in
      let job2 = enter_state running (clock 2) job1 in
      let xs2 = update id (enter_state running (clock 2)) xs in
      let eq2 =
        update_activity-eq (record m { jobs = xs2 }) id (clock 3) job2
          (Sets-get id job2 xs2 ys h2) in
      let touch = λ (job : JobHandle). record job { last_activity = clock 3 } in
      (
        record m { jobs = update id touch xs2 },
        rw (eq1, start_process) (rw eq1 (rw eq2)),
        update-Sets id job2 xs2 ys touch h2,
      )

  report_failure-eq :
      (m : JobManager) (s : Sender) (id : ℕ) (e : Error) (job : JobHandle)
      (ys : List (ℕ × JobHandle))
      → Sets id job m.jobs ys
      → job.state ≡ starting
      → get id ys ≡ none
      → (m' : JobManager) × (report_failure channel api clock m s id e
          ≡ (m', send_or_ignore channel s (error_frame id (api.launch_failed e)), ok none))
        × ((j : ℕ) → get j m'.jobs ≡ get j ys)
  unfolding report_failure can_transition_to
  report_failure-eq m s id e job ys h st absent =
      let eq1 =
        transition_state-eq m id failed (clock 2) job (Sets-get id job m.jobs ys h) (rw st) in
      let xs = update id (enter_state failed (clock 2)) m.jobs in
      let job1 = enter_state failed (clock 2) job in
      let h1 = update-Sets id job m.jobs ys (enter_state failed (clock 2)) h in
      let eq2 = cleanup_job-eq (record m { jobs = xs }) id job1 (Sets-get id job1 xs ys h1) in
      (
        record m { jobs = remove id xs; detached = cancel_token job1 ∷ m.detached },
        rw (eq1, report_failure) (rw eq2),
        remove-Sets id job1 xs ys absent h1,
      )

-- The job that `handle_run` makes of a request, up to the transition to `Starting`.
abbrev pub starting_job : (clock : ℕ → ℕ) → ℕ → RunPayload → JobHandle
starting_job clock id payload =
    enter_state starting (clock 1)
      (fresh_job id (Option.map from_millis payload.timeout_ms) (clock 0))

-- The manager at that point.
abbrev pub starting_manager : (clock : ℕ → ℕ) → JobManager → RunPayload → JobManager
starting_manager clock m payload =
    let id = (next_id m.next_job_id).0 in
    record m {
      jobs =
          update id (enter_state starting (clock 1))
            (insert id (fresh_job id (Option.map from_millis payload.timeout_ms) (clock 0)) m.jobs);
      next_job_id = (next_id m.next_job_id).1;
      last_job_created = clock 0;
    }

module _ (channel : ChannelApi) (api : SessionApi) (clock : ℕ → ℕ) where
  open channel use {Sender, send}

  starting-Sets :
      (m : JobManager) (payload : RunPayload)
      → let id = (next_id m.next_job_id).0 in
        Sets id (starting_job clock id payload) (starting_manager clock m payload).jobs m.jobs
  starting-Sets m payload =
      let id = (next_id m.next_job_id).0 in
      let job = fresh_job id (Option.map from_millis payload.timeout_ms) (clock 0) in
      update-Sets id job (insert id job m.jobs) m.jobs (enter_state starting (clock 1))
        (λ j. get-insert j id job m.jobs)

  -- An acknowledged request comes to the launch with its job in `Starting`.
  after_launch :
      ℕ → JobManager → Sender → Result Launched → JobManager × Sender × Result (Option Spawned)
  after_launch id m s (ok proc) = start_process channel api clock m s id proc
  after_launch id m s (err e) = report_failure channel api clock m s id e

  launch_job-eq :
      (m m' : JobManager) (s : Sender) (id : ℕ) (payload : RunPayload) (st : JobState)
      (r : Result Launched)
      → transition_state m id starting (clock 1) ≡ (m', ok st)
      → api.launch payload ≡ r
      → launch_job channel api clock m s id payload ≡ after_launch id m' s r
  unfolding launch_job after_launch
  launch_job-eq m m' s id payload st (ok proc) moved launched =
      rw (moved, launch_job) (rw launched (rw moved))
  launch_job-eq m m' s id payload st (err e) moved launched =
      rw (moved, launch_job) (rw launched (rw moved))

  handle_run-launch :
      (m : JobManager) (s t : Sender) (frame : Frame) (payload : RunPayload) (r : Result Launched)
      → CanRun api m frame payload
      → send s (run_ack (next_id m.next_job_id).0) ≡ some t
      → api.launch payload ≡ r
      → handle_run channel api clock m s frame
        ≡ after_launch (next_id m.next_job_id).0 (starting_manager clock m payload) t r
  unfolding handle_run run_job acknowledge_run can_transition_to
  handle_run-launch m s t frame payload r can sent launched =
      let id = (next_id m.next_job_id).0 in
      let job = fresh_job id (Option.map from_millis payload.timeout_ms) (clock 0) in
      let made =
        create_job-eq m (Option.map from_millis payload.timeout_ms) (clock 0) can.room can.unused in
      let m1 : JobManager = record m {
        next_job_id = (next_id m.next_job_id).1;
        jobs = insert id job m.jobs;
        last_job_created = clock 0;
      } in
      let moved =
        transition_state-eq m1 id starting (clock 1) job
          (Sets-get id job m1.jobs m.jobs (λ j. get-insert j id job m.jobs)) refl in
      rw (can.parsed, handle_run)
        (rw (made, run_job)
          (rw made (
            rw (sent, acknowledge_run)
              (launch_job-eq m1 _ t id payload job.state r moved launched))))

  -- A request that can run, whose acknowledgement goes out and whose process is launched, ends with
  -- its job in `Running`, holding the handles of the process, under a new id; every other job is as
  -- it was, and the acknowledgement is all that was sent, so no STATUS frame is.
  pub handle_run-launched :
      (m : JobManager) (s t : Sender) (frame : Frame) (payload : RunPayload) (proc : Launched)
      → CanRun api m frame payload
      → send s (run_ack (next_id m.next_job_id).0) ≡ some t
      → api.launch payload ≡ ok proc
      → (m' : JobManager) × (handle_run channel api clock m s frame
          ≡ (m', t, ok (some ((next_id m.next_job_id).0, proc))))
        × Sets
            (next_id m.next_job_id).0
            (record (enter_state running
              (clock 2)
              (set_handles proc (starting_job clock (next_id m.next_job_id).0 payload))) {
                last_activity = clock 3;
              })
            m'.jobs
            m.jobs
  unfolding after_launch
  handle_run-launched m s t frame payload proc can sent launched =
      let id = (next_id m.next_job_id).0 in
      let (m', e, sets) =
        start_process-eq channel api clock (starting_manager clock m payload) t id proc
          (starting_job clock id payload) m.jobs (starting-Sets m payload) refl in
      (m', handle_run-launch m s t frame payload (ok proc) can sent launched ∙ e, sets)

  -- A request that can run, whose acknowledgement goes out but whose launch fails, leaves the
  -- session going: an ERROR frame is sent after the acknowledgement, a failure of that send being
  -- ignored, and the map of jobs is as it was.
  pub handle_run-failed :
      (m : JobManager) (s t : Sender) (frame : Frame) (payload : RunPayload) (x : Error)
      → CanRun api m frame payload
      → send s (run_ack (next_id m.next_job_id).0) ≡ some t
      → api.launch payload ≡ err x
      → (m' : JobManager) × (handle_run channel api clock m s frame ≡ (
        m',
        send_or_ignore channel t (error_frame (next_id m.next_job_id).0 (api.launch_failed x)),
        ok none,
      ))
        × ((j : ℕ) → get j m'.jobs ≡ get j m.jobs)
  unfolding after_launch
  handle_run-failed m s t frame payload x can sent launched =
      let id = (next_id m.next_job_id).0 in
      let (m', e, same) =
        report_failure-eq channel api clock (starting_manager clock m payload) t id x
          (starting_job clock id payload) m.jobs (starting-Sets m payload) refl
          (contains_key-eq-false id m.jobs can.unused) in
      (m', handle_run-launch m s t frame payload (err x) can sent launched ∙ e, same)
