-- ===== src/Server/Requests.antt =====
-- What holds of the request loop of src/pipe_server.rs over all sessions: the invariant of the job
-- manager, and how a session ends.
use Prim.Native.String.{String}
use windows_command_runner.Base.Assoc.{update}
use windows_command_runner.Base.{
  ℕ, ◌≡◌, refl, ◌⊎◌, inl, inr, List, [], ◌∷◌, arith, Option-cases, ◌==◌, ==_iff, Bool-cases,
  if◌then◌else◌, not, Bool, true, false, Option, ◌<◌,
}
use mathlib.Core.Option
use windows_command_runner.Error.{Error, Result, ok, err, io, raw_os_error, Result-cases}
use windows_command_runner.Windows.{Hresults, error_broken_pipe}
use windows_command_runner.Channel.{ChannelApi}
use windows_command_runner.Protocol.Frame.{Frame, FrameType}
use windows_command_runner.Job.State.{running, starting, exiting, completed, failed}
use windows_command_runner.Job.Invariant.{
  Inv, update-Inv, create_job-Inv, transition_state-Inv, cancel_job-Inv, cleanup_job-Inv,
  update_activity-Inv,
}
use windows_command_runner.Job.Manager.{JobManager, create_job, transition_state, update_activity}
use windows_command_runner.Server.Session.{
  RunPayload, Launched, Spawned, Parsed, good, bad, SessionApi, from_millis, run_ack, set_handles,
  start_process, report_failure, launch_job, acknowledge_run, run_job, handle_run, exit_task,
  handle_frame, Incoming, Session, ended, listening, Next, continue, stop, end_of_reads,
  process_requests, after_run,
}

Next-cases :
    (n : Next)
    → ((spawned : Option Spawned) × (n ≡ continue spawned))
      ⊎ ((r : Result (Unit {0})) × (n ≡ stop r))
Next-cases (continue spawned) = inl (spawned, refl)
Next-cases (stop r) = inr (r, refl)

pub Parsed-cases :
    (o : Parsed)
    → ((payload : RunPayload) × (o ≡ good payload)) ⊎ ((text : String) × (o ≡ bad text))
Parsed-cases (good payload) = inl (payload, refl)
Parsed-cases (bad text) = inr (text, refl)

touch-Inv :
    (b : Bool) (m : JobManager) (id now : ℕ)
    → Inv m
    → Inv (if b then update_activity m id now else m)
touch-Inv true m id now v = update_activity-Inv m v id now
touch-Inv false m id now v = v

module _ (channel : ChannelApi) (api : SessionApi) (clock : ℕ → ℕ) where
  open channel use {Sender, send}

  start_process-Inv :
      (m : JobManager) (s : Sender) (id : ℕ) (proc : Launched)
      → Inv m
      → Inv (start_process channel api clock m s id proc).0
  unfolding start_process
  start_process-Inv m s id proc v =
      let handles =
        update-Inv m id (set_handles proc)
          (λ job _ e. record {
            keyed = e.keyed;
            nonzero = e.nonzero;
            range = e.range;
            stamped = e.stamped;
          })
          v in
      let moved = transition_state-Inv _ handles id running (clock 2) in
      elim (Result-cases
        (transition_state (record m { jobs = update id (set_handles proc) m.jobs }) id running
          (clock 2)).1) [
            | inl (st, e) ↦ rw (e, start_process) (update_activity-Inv _ moved id (clock 3))
            | inr (x, e) ↦ rw (e, start_process) moved
          ]

  report_failure-Inv :
      (m : JobManager) (s : Sender) (id : ℕ) (x : Error)
      → Inv m
      → Inv (report_failure channel api clock m s id x).0
  unfolding report_failure
  report_failure-Inv m s id x v =
      cleanup_job-Inv _ (transition_state-Inv m v id failed (clock 2)) id

  launch_job-Inv :
      (m : JobManager) (s : Sender) (id : ℕ) (payload : RunPayload)
      → Inv m
      → Inv (launch_job channel api clock m s id payload).0
  unfolding launch_job
  launch_job-Inv m s id payload v =
      let moved = transition_state-Inv m v id starting (clock 1) in
      elim (Result-cases (transition_state m id starting (clock 1)).1) [
        | inr (x, e) ↦ rw (e, launch_job) moved
        | inl (st, e) ↦ elim (Result-cases (api.launch payload)) [
          | inl (proc, l) ↦ rw (e, launch_job) (rw l (start_process-Inv _ s id proc moved))
          | inr (x, l) ↦ rw (e, launch_job) (rw l (report_failure-Inv _ s id x moved))
        ]
      ]

  acknowledge_run-Inv :
      (m : JobManager) (s : Sender) (id : ℕ) (payload : RunPayload)
      → Inv m
      → Inv (acknowledge_run channel api clock m s id payload).0
  unfolding acknowledge_run
  acknowledge_run-Inv m s id payload v = elim (Option-cases (send s (run_ack id))) [
    | inl e ↦ rw (e, acknowledge_run) v
    | inr (t, e) ↦ rw (e, acknowledge_run) (launch_job-Inv m t id payload v)
  ]

  run_job-Inv :
      (m : JobManager) (s : Sender) (payload : RunPayload)
      → Inv m
      → Inv (run_job channel api clock m s payload).0
  unfolding run_job
  run_job-Inv m s payload v =
      let timeout = Option.map from_millis payload.timeout_ms in
      let made = create_job-Inv m v timeout (clock 0) in
      elim (Result-cases (create_job m timeout (clock 0)).1) [
        | inl (job, e) ↦ rw (e, run_job) (acknowledge_run-Inv _ s job.job_id payload made)
        | inr (x, e) ↦ rw (e, run_job) made
      ]

  handle_run-Inv :
      (m : JobManager) (s : Sender) (frame : Frame)
      → Inv m
      → Inv (handle_run channel api clock m s frame).0
  unfolding handle_run
  handle_run-Inv m s frame v = elim (Parsed-cases (api.parse_run frame.payload)) [
    | inl (payload, e) ↦ rw (e, handle_run) (run_job-Inv m s payload v)
    | inr (text, e) ↦ rw (e, handle_run) v
  ]

  -- The task for the exit of a process keeps the invariant of the manager.
  exit_task-Inv :
      (m : JobManager) (s : Sender) (id code : ℕ)
      → Inv m
      → Inv (exit_task channel api clock m s id code).0
  unfolding exit_task
  exit_task-Inv m s id code v =
      transition_state-Inv _
        (update_activity-Inv _ (transition_state-Inv m v id exiting (clock 4)) id (clock 5)) id
        completed (clock 6)

  after_run-Inv :
      (r : JobManager × Sender × Result (Option Spawned))
      → Inv r.0
      → Inv (after_run channel api clock r).0
  after_run-Inv (m, s, ok _) v = v
  after_run-Inv (m, s, err _) v = v

  pub handle_frame-Inv :
      (t : FrameType) (m : JobManager) (s : Sender) (frame : Frame)
      → Inv m
      → Inv (handle_frame channel api clock t m s frame).0
  unfolding handle_frame
  handle_frame-Inv FrameType.run m s frame v = after_run-Inv _ (handle_run-Inv m s frame v)
  handle_frame-Inv FrameType.cancel m s frame v =
      cancel_job-Inv _ (update_activity-Inv m v frame.job_id (clock 0)) frame.job_id (clock 1)
  handle_frame-Inv FrameType.window_update m s frame v =
      update_activity-Inv m v frame.job_id (clock 0)
  handle_frame-Inv FrameType.goodbye m s frame v = v
  handle_frame-Inv _ m s frame v = touch-Inv (not (frame.job_id == 0)) m frame.job_id (clock 0) v

end_of_reads-other :
    (windows : Hresults) (code : ℕ)
    → 0 < code
    → code < 65_536
    → end_of_reads (io (raw_os_error (windows.hresult code)))
      ≡ err (io (raw_os_error (windows.hresult code)))
unfolding end_of_reads
end_of_reads-other windows code lo hi =
    let e = windows.hresult-eq code lo hi in
    elim (Bool-cases (windows.hresult code == error_broken_pipe)) [
      | inl t ↦ let q = (==_iff (windows.hresult code) error_broken_pipe).0 t in ground arith
      | inr f ↦ rw f refl
    ]

-- The manager at the end of a run of the loop satisfies its invariant.
abbrev pub Keeps : {S : Type 0} → Session S → Type 0
Keeps (ended m s r) = Inv m
Keeps (listening m s) = Inv m

module _ (channel : ChannelApi) (api : SessionApi) where
  open channel use {Sender}

  -- From a manager that satisfies the invariant, the request loop keeps it whatever the client
  -- sends and however the sends, the launches and the clocks turn out.
  process_requests-Inv :
      (m : JobManager) (s : Sender) (reads : List Incoming)
      → Inv m
      → Keeps (process_requests channel api m s reads)
  unfolding process_requests
  process_requests-Inv m s [] v = v
  process_requests-Inv m s (i ∷ rest) v = elim (Result-cases i.frame) [
    | inr (x, e) ↦ rw (e, process_requests) v
    | inl (frame, e) ↦
        let r = handle_frame channel api i.clock frame.frame_type m s frame in
        let kept = handle_frame-Inv channel api i.clock frame.frame_type m s frame v in
        elim (Next-cases (handle_frame channel api i.clock frame.frame_type m s frame).2) [
          | inl (spawned, n) ↦
              rw (e, process_requests) (rw n (process_requests-Inv r.0 r.1 rest kept))
          | inr (result, n) ↦ rw (e, process_requests) (rw n kept)
        ]
  ]

  -- A failed read of the pipe ends the loop. Its code is the HRESULT of a Windows error, and no
  -- such HRESULT equals the code 109 that the loop compares it with: so the loop returns the error,
  -- also when the client has just closed the pipe (the Windows error 109).
  pub process_requests-read_failed :
      (windows : Hresults) (code : ℕ) (m : JobManager) (s : Sender) (i : Incoming)
      (rest : List Incoming)
      → 0 < code
      → code < 65_536
      → i.frame ≡ err (io (raw_os_error (windows.hresult code)))
      → process_requests channel api m s (i ∷ rest)
        ≡ ended m s (err (io (raw_os_error (windows.hresult code))))
  unfolding process_requests
  process_requests-read_failed windows code m s i rest lo hi e =
      rw (e, end_of_reads-other windows code lo hi) refl
