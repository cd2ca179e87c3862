-- ===== src/Server/Senders.antt =====
-- What `handle_run` of src/pipe_server.rs puts on the frame channel, whatever the client asks:
-- frames whose fields are in range, and for each job its RUN_ACK first.
use mathlib.Core.List.{append_assoc, append-nil}
use windows_command_runner.Base.{
  ℕ, ◌≡◌, refl, sym, ◌∙◌, inl, inr, true, false, Option, none, some, List, [], ◌∷◌, ◌++◌, arith,
  All, Option-cases,
}
use mathlib.Core.Option
use windows_command_runner.Error.{Error, Result, ok, err, Result-cases}
use windows_command_runner.Channel.{ChannelApi, ReceiverApi}
use windows_command_runner.Protocol.Bytes.{IsByte, IsU32}
use windows_command_runner.Protocol.Frame.{Frame, IsFrame}
use windows_command_runner.Job.State.{starting, running}
use windows_command_runner.Job.Effects.{create_job-ok}
use windows_command_runner.Job.Invariant.{Inv}
use windows_command_runner.Job.Manager.{JobManager, create_job, transition_state}
use windows_command_runner.Base.Assoc.{update}
use windows_command_runner.Server.Session.{
  RunPayload, Launched, Spawned, SessionApi, from_millis, run_ack, error_frame, set_handles,
  send_or_ignore, start_process, report_failure, launch_job, acknowledge_run, run_job, handle_run,
}
use windows_command_runner.Server.Requests.{Parsed-cases}
use windows_command_runner.Server.Negotiation.{error_frame-IsFrame}
use windows_command_runner.Server.Announced.{
  is_run_ack, acked, Announced, acked-append_right, Announced-append, All-append,
}

run_ack-IsFrame : (id : ℕ) → IsU32 id → IsFrame (run_ack id)
unfolding run_ack
run_ack-IsFrame id range = record {
  flags_range = omega arith;
  job_id_range = range;
  sequence_range = omega arith;
  payload_bytes = tt;
}

run_ack-acked : (id : ℕ) → acked id (run_ack id ∷ []) ≡ true
unfolding acked run_ack
run_ack-acked id = ground arith

run_ack-is_run_ack : (id : ℕ) → is_run_ack (run_ack id).frame_type ≡ true
unfolding run_ack
run_ack-is_run_ack id = refl

error_frame-job_id : (id : ℕ) (payload : List ℕ) → (error_frame id payload).job_id ≡ id
unfolding error_frame
error_frame-job_id id payload = refl

-- The message about a failed launch is made of bytes.
abbrev pub HasBytes : SessionApi → Type 0
HasBytes api = (x : Error) → All IsByte (api.launch_failed x)

module _ (channel : ChannelApi) (receiver : ReceiverApi channel) where
  open channel use {Sender, send, delivered, delivered-send}
  open receiver use {received, received-send}

  -- What was handed over between two states of the channel, in which nothing is received: frames
  -- whose fields are in range, each that is not a RUN_ACK after the RUN_ACK of its job.
  pub record Grows (s t : Sender) : Type 0 where
    pub added : List Frame
    pub appended : delivered t ≡ delivered s ++ added
    pub kept : received t ≡ received s
    pub valid : All IsFrame added
    pub announced : Announced (delivered s) added

  pub Grows-refl : (s : Sender) → Grows s s
  Grows-refl s = record {
    added = [];
    appended = sym (append-nil (delivered s));
    kept = refl;
    valid = tt;
    announced = tt;
  }

  Grows-trans : (s t u : Sender) → Grows s t → Grows t u → Grows s u
  Grows-trans s t u a b = record {
    added = a.added ++ b.added;
    appended = b.appended ∙ rw (a.appended, append_assoc);
    kept = b.kept ∙ a.kept;
    valid = All-append IsFrame a.added b.added a.valid b.valid;
    announced =
        Announced-append (delivered s) a.added b.added a.announced (rw a.appended at b.announced);
  }

  send-Grows :
      (s t : Sender) (f : Frame)
      → send s f ≡ some t
      → IsFrame f
      → (is_run_ack f.frame_type ≡ false → acked f.job_id (delivered s) ≡ true)
      → Grows s t
  send-Grows s t f e valid after = record {
    added = f ∷ [];
    appended = delivered-send s t f e;
    kept = received-send s t f e;
    valid = (valid, tt);
    announced = (after, tt);
  }

  pub send_or_ignore-Grows :
      (s : Sender) (f : Frame)
      → IsFrame f
      → (is_run_ack f.frame_type ≡ false → acked f.job_id (delivered s) ≡ true)
      → Grows s (send_or_ignore channel s f)
  send_or_ignore-Grows s f valid after = elim (Option-cases (send s f)) [
    | inl e ↦ rw (e, send_or_ignore) (Grows-refl s)
    | inr (t, e) ↦ rw (e, send_or_ignore) (send-Grows s t f e valid after)
  ]

  -- The tasks that were started are of a job whose RUN_ACK was handed over.
  abbrev pub AckedTasks : Sender → Result (Option Spawned) → Type 0
  AckedTasks s (ok (some (id, proc))) = acked id (delivered s) ≡ true
  AckedTasks s (ok none) = Unit {0}
  AckedTasks s (err x) = Unit {0}

  abbrev pub Answers : Sender → JobManager × Sender × Result (Option Spawned) → Type 0
  Answers s (m, t, r) = Grows s t × AckedTasks t r

  module _ (api : SessionApi) (clock : ℕ → ℕ) where
    start_process-Answers :
        (m : JobManager) (s : Sender) (id : ℕ) (proc : Launched)
        → acked id (delivered s) ≡ true
        → Answers s (start_process channel api clock m s id proc)
    unfolding start_process
    start_process-Answers m s id proc acknowledged =
        elim (Result-cases
          (transition_state (record m { jobs = update id (set_handles proc) m.jobs }) id running
            (clock 2)).1) [
              | inl (st, e) ↦ rw (e, start_process) (Grows-refl s, acknowledged)
              | inr (x, e) ↦ rw (e, start_process) (Grows-refl s, tt)
            ]

    module _ (texts : HasBytes api) where
      launch_job-Answers :
          (m : JobManager) (s : Sender) (id : ℕ) (payload : RunPayload)
          → IsU32 id
          → acked id (delivered s) ≡ true
          → Answers s (launch_job channel api clock m s id payload)
      unfolding launch_job report_failure
      launch_job-Answers m s id payload range acknowledged =
          elim (Result-cases (transition_state m id starting (clock 1)).1) [
            | inr (x, e) ↦ rw (e, launch_job) (Grows-refl s, tt)
            | inl (st, e) ↦ elim (Result-cases (api.launch payload)) [
              | inl (proc, l) ↦
                  rw (e, launch_job) (rw l (start_process-Answers _ s id proc acknowledged))
              | inr (x, l) ↦
                  rw (e, launch_job)
                    (rw l (
                      send_or_ignore-Grows s (error_frame id (api.launch_failed x))
                          (error_frame-IsFrame id (api.launch_failed x) range (texts x))
                          (λ _. rw (error_frame-job_id id (api.launch_failed x)) acknowledged),
                      tt,
                    ))
            ]
          ]

      acknowledge_run-Answers :
          (m : JobManager) (s : Sender) (id : ℕ) (payload : RunPayload)
          → IsU32 id
          → Answers s (acknowledge_run channel api clock m s id payload)
      unfolding acknowledge_run
      acknowledge_run-Answers m s id payload range = elim (Option-cases (send s (run_ack id))) [
        | inl e ↦ rw (e, acknowledge_run) (Grows-refl s, tt)
        | inr (t, e) ↦
            let first =
              send-Grows s t (run_ack id) e (run_ack-IsFrame id range)
                (λ other. absurd (cc (other, run_ack-is_run_ack id))) in
            let (grows, tasks) = launch_job-Answers m t id payload range (
              rw (delivered-send s t (run_ack id) e)
                (acked-append_right id (delivered s) (run_ack id ∷ []) (run_ack-acked id))) in
            rw (e, acknowledge_run) (Grows-trans s t _ first grows, tasks)
      ]

      run_job-Answers :
          (m : JobManager) (s : Sender) (payload : RunPayload)
          → Inv m
          → Answers s (run_job channel api clock m s payload)
      unfolding run_job
      run_job-Answers m s payload v =
          let timeout = Option.map from_millis payload.timeout_ms in
          elim (Result-cases (create_job m timeout (clock 0)).1) [
            | inl (job, e) ↦
                let made = create_job-ok m timeout (clock 0) job v.counter e in
                rw (e, run_job) (acknowledge_run-Answers _ s job.job_id payload made.2)
            | inr (x, e) ↦ rw (e, run_job) (Grows-refl s, tt)
          ]

      -- Whatever a RUN frame asks, what is handed over are frames whose fields are in range, with
      -- the RUN_ACK of the job first, and tasks are started only for a job whose RUN_ACK was handed
      -- over.
      pub handle_run-Answers :
          (m : JobManager) (s : Sender) (frame : Frame)
          → Inv m
          → Answers s (handle_run channel api clock m s frame)
      unfolding handle_run
      handle_run-Answers m s frame v = elim (Parsed-cases (api.parse_run frame.payload)) [
        | inl (payload, e) ↦ rw (e, handle_run) (run_job-Answers m s payload v)
        | inr (text, e) ↦ rw (e, handle_run) (Grows-refl s, tt)
      ]
