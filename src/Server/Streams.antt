-- ===== src/Server/Streams.antt =====
-- The output of one stream of one job among the frames of a session of src/pipe_server.rs: the
-- request loop sends no output, and what the pump of the stream sends stays in its order.
use mathlib.Core.List.{append-nil}
use windows_command_runner.Base.{
  ℕ, ◌≡◌, refl, ◌∙◌, inl, inr, Bool, true, false, ◌&&◌, Option, some, List, [], ◌∷◌, ◌++◌, ◌==◌,
  if◌then◌else◌, Bool-cases, Option-cases,
}
use mathlib.Core.Option
use windows_command_runner.Base.Assoc.{update}
use windows_command_runner.Error.{Result, ok, err, Result-cases}
use windows_command_runner.Channel.{ChannelApi}
use windows_command_runner.Protocol.Frame.{Frame, FrameType, StreamId, stream_id_code}
use windows_command_runner.Job.State.{starting, running}
use windows_command_runner.Job.Manager.{JobManager, create_job, transition_state}
use windows_command_runner.Server.Session.{
  RunPayload, Launched, Spawned, SessionApi, from_millis, run_ack, error_frame, set_handles,
  send_or_ignore, start_process, report_failure, launch_job, acknowledge_run, run_job, handle_run,
  after_run, handle_frame,
}
use windows_command_runner.Server.Requests.{Parsed-cases}

abbrev pub is_output : FrameType → Bool
is_output FrameType.output = true
is_output _ = false

-- An OUTPUT frame of a stream of a job.
abbrev pub on_stream : ℕ → StreamId → Frame → Bool
on_stream id stream f =
    is_output f.frame_type && f.job_id == id && stream_id_code f.stream_id == stream_id_code stream

unfoldable pub of_stream : ℕ → StreamId → List Frame → List Frame
of_stream id stream [] = []
of_stream id stream (f ∷ fs) =
    let rest = of_stream id stream fs in if on_stream id stream f then f ∷ rest else rest

of_stream-append :
    (id : ℕ) (stream : StreamId) (xs ys : List Frame)
    → of_stream id stream (xs ++ ys) ≡ of_stream id stream xs ++ of_stream id stream ys
unfolding of_stream
of_stream-append id stream [] ys = refl
of_stream-append id stream (f ∷ fs) ys = elim (Bool-cases (on_stream id stream f)) [
  | inl on ↦ rw on (rw (of_stream-append id stream fs ys) refl)
  | inr off ↦ rw off (of_stream-append id stream fs ys)
]

module _ (channel : ChannelApi) (id : ℕ) (stream : StreamId) where
  open channel use {Sender, send, delivered, delivered-send}

  -- No output of the stream was handed over between two states of the channel.
  abbrev pub IsQuiet : Sender → Sender → Type 0
  IsQuiet s t = of_stream id stream (delivered t) ≡ of_stream id stream (delivered s)

  pub send-of_stream :
      (s t : Sender) (f : Frame)
      → send s f ≡ some t
      → of_stream id stream (delivered t)
        ≡ of_stream id stream (delivered s) ++ of_stream id stream (f ∷ [])
  send-of_stream s t f e =
      rw (delivered-send s t f e) (of_stream-append id stream (delivered s) (f ∷ []))

  send-IsQuiet :
      (s t : Sender) (f : Frame) → send s f ≡ some t → on_stream id stream f ≡ false → IsQuiet s t
  unfolding of_stream
  send-IsQuiet s t f e off =
      send-of_stream s t f e ∙ rw off (append-nil (of_stream id stream (delivered s)))

  pub send_or_ignore-IsQuiet :
      (s : Sender) (f : Frame)
      → on_stream id stream f ≡ false
      → IsQuiet s (send_or_ignore channel s f)
  send_or_ignore-IsQuiet s f off = elim (Option-cases (send s f)) [
    | inl e ↦ rw (e, send_or_ignore) refl
    | inr (t, e) ↦ rw (e, send_or_ignore) (send-IsQuiet s t f e off)
  ]

  run_ack-off : (job : ℕ) → on_stream id stream (run_ack job) ≡ false
  unfolding run_ack
  run_ack-off job = refl

  error_frame-off :
      (job : ℕ) (payload : List ℕ) → on_stream id stream (error_frame job payload) ≡ false
  unfolding error_frame
  error_frame-off job payload = refl

  module _ (api : SessionApi) (clock : ℕ → ℕ) where
    start_process-IsQuiet :
        (m : JobManager) (s : Sender) (job : ℕ) (proc : Launched)
        → IsQuiet s (start_process channel api clock m s job proc).1
    unfolding start_process
    start_process-IsQuiet m s job proc =
        elim (Result-cases
          (transition_state (record m { jobs = update job (set_handles proc) m.jobs }) job running
            (clock 2)).1) [
              | inl (st, e) ↦ rw (e, start_process) refl
              | inr (x, e) ↦ rw (e, start_process) refl
            ]

    launch_job-IsQuiet :
        (m : JobManager) (s : Sender) (job : ℕ) (payload : RunPayload)
        → IsQuiet s (launch_job channel api clock m s job payload).1
    unfolding launch_job report_failure
    launch_job-IsQuiet m s job payload =
        elim (Result-cases (transition_state m job starting (clock 1)).1) [
          | inr (x, e) ↦ rw (e, launch_job) refl
          | inl (st, e) ↦ elim (Result-cases (api.launch payload)) [
            | inl (proc, l) ↦ rw (e, launch_job) (rw l (start_process-IsQuiet _ s job proc))
            | inr (x, l) ↦
                rw (e, launch_job)
                  (rw l (
                    send_or_ignore-IsQuiet s (error_frame job (api.launch_failed x))
                      (error_frame-off job (api.launch_failed x))))
          ]
        ]

    acknowledge_run-IsQuiet :
        (m : JobManager) (s : Sender) (job : ℕ) (payload : RunPayload)
        → IsQuiet s (acknowledge_run channel api clock m s job payload).1
    unfolding acknowledge_run
    acknowledge_run-IsQuiet m s job payload = elim (Option-cases (send s (run_ack job))) [
      | inl e ↦ rw (e, acknowledge_run) refl
      | inr (t, e) ↦
          rw (e, acknowledge_run)
            (launch_job-IsQuiet m t job payload
              ∙ send-IsQuiet s t (run_ack job) e (run_ack-off job))
    ]

    handle_run-IsQuiet :
        (m : JobManager) (s : Sender) (frame : Frame)
        → IsQuiet s (handle_run channel api clock m s frame).1
    unfolding handle_run run_job
    handle_run-IsQuiet m s frame = elim (Parsed-cases (api.parse_run frame.payload)) [
      | inr (text, e) ↦ rw (e, handle_run) refl
      | inl (payload, e) ↦
          elim (Result-cases
            (create_job m (Option.map from_millis payload.timeout_ms) (clock 0)).1) [
              | inl (job, f) ↦
                  rw (e, handle_run)
                    (rw (f, run_job) (acknowledge_run-IsQuiet _ s job.job_id payload))
              | inr (x, f) ↦ rw (e, handle_run) (rw (f, run_job) refl)
            ]
    ]

    after_run-IsQuiet :
        (s : Sender) (r : JobManager × Sender × Result (Option Spawned))
        → IsQuiet s r.1
        → IsQuiet s (after_run channel api clock r).1
    after_run-IsQuiet s (m, t, ok spawned) h = h
    after_run-IsQuiet s (m, t, err x) h = h

    -- Handling a frame hands over no output.
    pub handle_frame-IsQuiet :
        (t : FrameType) (m : JobManager) (s : Sender) (frame : Frame)
        → IsQuiet s (handle_frame channel api clock t m s frame).1
    unfolding handle_frame
    handle_frame-IsQuiet FrameType.run m s frame =
        after_run-IsQuiet s _ (handle_run-IsQuiet m s frame)
    handle_frame-IsQuiet _ m s frame = refl
