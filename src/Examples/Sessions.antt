-- ===== src/Examples/Sessions.antt =====
-- The theorems on the output pump and on the request loop, applied to short runs.
use windows_command_runner.Base.{
  ℕ, inl, inr, ◌≤◌, ◌≡◌, ◌≢◌, refl, false, none, some, List, [], ◌∷◌, ◌++◌, arith, length, All,
}
use windows_command_runner.Base.Assoc.{get, contains_key, Sets}
use windows_command_runner.Error.{Error, Result, ok, err, io, raw_os_error}
use windows_command_runner.Windows.{read_done}
use windows_command_runner.Protocol.Frame.{
  Frame, FrameType, StreamId, new_frame, with_payload, control, max_payload_size,
}
use windows_command_runner.Job.Manager.{JobManager, new_manager, next_id, enter_state}
use windows_command_runner.Job.State.{running}
use windows_command_runner.Pump.Window.{StreamPump, new_pump, try_send_frame, transmit}
use windows_command_runner.Pump.Output.{
  Round, returned, read_pipe_blocking, start_output_pump, output_frame, eos_frame, pump_loop,
  send_eos, after_send,
}
use windows_command_runner.Pump.Frames.{reads, frames_from, start_output_pump-delivered}
use windows_command_runner.Pump.Stall.{total, start_output_pump_stalls}
use windows_command_runner.Pump.Completion.{IsDrained, IsOpen, start_output_pump-completes}
use windows_command_runner.Server.Session.{
  Launched, handle_run, run_ack, error_frame, set_handles, Incoming, ended, process_requests,
}
use windows_command_runner.Server.Running.{
  CanRun, starting_job, handle_run-launched, handle_run-failed,
}
use windows_command_runner.Server.Requests.{process_requests-read_failed}
use windows_command_runner.Examples.Models.{
  list_channel, windows, session, child, dir_payload, ticks,
}

-- Two chunks, and the end of the pipe.
abbrev rounds : List Round
rounds =
    record { cancelled = false; read = some (read_done (65 ∷ 66 ∷ [])); updates = [] }
    ∷ record { cancelled = false; read = some (read_done (67 ∷ [])); updates = [] }
    ∷ record { cancelled = false; read = some (read_done []); updates = [] }
    ∷ []

abbrev wide : StreamPump
wide = new_pump 65536 false

-- A window of two bytes.
abbrev narrow : StreamPump
narrow = new_pump 2 false

rounds-reads : reads windows rounds ≡ (65 ∷ 66 ∷ []) ∷ (67 ∷ []) ∷ []
unfolding reads read_pipe_blocking
rounds-reads = refl

rounds-total : total (reads windows rounds) ≡ 3
unfolding total
rounds-total = rw rounds-reads refl

rounds-small : All (λ (c : List ℕ). length c ≤ max_payload_size) (reads windows rounds)
rounds-small = rw rounds-reads (omega arith, (omega arith, tt))

rounds-IsDrained : IsDrained windows rounds
unfolding read_pipe_blocking
rounds-IsDrained =
    inr (_, _, refl, refl, inr (inr (_, _, refl, refl, inr (inr (_, _, refl, refl, inl refl)))))

always_open : IsOpen list_channel
always_open s f = (s ++ f ∷ [], refl)

start_output_pump-completes_example :
    (q : StreamPump) × (t : List Frame) × (start_output_pump list_channel windows 7 StreamId.stdout
        wide [] rounds
      ≡ returned q t (ok tt))
    × (t ≡ frames_from 7 StreamId.stdout 0 (reads windows rounds))
start_output_pump-completes_example =
    start_output_pump-completes list_channel always_open windows 7 StreamId.stdout wide [] rounds
      refl (omega (arith, rounds-total)) (omega arith) rounds-IsDrained

start_output_pump_stalls_example :
    start_output_pump list_channel windows 7 StreamId.stdout narrow [] rounds
    ≢ returned narrow [] (ok tt)
start_output_pump_stalls_example =
    start_output_pump_stalls list_channel windows 7 StreamId.stdout narrow [] rounds narrow [] refl
      (omega arith) (omega arith) (refl, (refl, (refl, tt))) rounds-small
      (omega (arith, rounds-total))

-- What the wide pump has sent when it returns.
abbrev sent_frames : List Frame
sent_frames =
    output_frame 7 StreamId.stdout 0 (65 ∷ 66 ∷ [])
    ∷ output_frame 7 StreamId.stdout 1 (67 ∷ [])
    ∷ eos_frame 7 StreamId.stdout 2
    ∷ []

wide_run :
    start_output_pump list_channel windows 7 StreamId.stdout wide [] rounds
    ≡ returned (record wide { bytes_in_flight = 3 }) sent_frames (ok tt)
unfolding start_output_pump pump_loop send_eos after_send read_pipe_blocking try_send_frame transmit
    output_frame eos_frame
wide_run = refl

start_output_pump-delivered_example :
    sent_frames ≡ frames_from 7 StreamId.stdout 0 (reads windows rounds)
start_output_pump-delivered_example =
    start_output_pump-delivered list_channel windows 7 StreamId.stdout wide [] rounds
      (record wide { bytes_in_flight = 3 }) sent_frames refl wide_run

abbrev request : Frame
request = with_payload (new_frame FrameType.run control) (1 ∷ [])

abbrev idle : JobManager
idle = new_manager 4 0

-- Whatever the launch gives, the request can run.
idle-CanRun : (r : Result Launched) → CanRun (session r) idle request dir_payload
unfolding new_manager contains_key next_id with_payload new_frame
idle-CanRun r = record { parsed = refl; room = omega arith; unused = refl }

handle_run-launched_example :
    (m : JobManager) × (handle_run list_channel (session (ok child)) ticks idle [] request ≡ (
      m,
      run_ack (next_id idle.next_job_id).0 ∷ [],
      ok (some ((next_id idle.next_job_id).0, child)),
    ))
    × Sets
        (next_id idle.next_job_id).0
        (record (enter_state running
          (ticks 2)
          (set_handles child (starting_job ticks (next_id idle.next_job_id).0 dir_payload))) {
            last_activity = ticks 3;
          })
        m.jobs
        idle.jobs
handle_run-launched_example =
    handle_run-launched list_channel (session (ok child)) ticks idle []
      (run_ack (next_id idle.next_job_id).0 ∷ []) request dir_payload child (idle-CanRun (ok child))
      refl refl

handle_run-failed_example :
    (m : JobManager) × (handle_run list_channel
        (session (err (Error.windows 2)))
        ticks
        idle
        []
        request
      ≡ (
        m,
        run_ack (next_id idle.next_job_id).0
            ∷ error_frame (next_id idle.next_job_id).0 (1 ∷ [])
            ∷ [],
        ok none,
      ))
    × ((j : ℕ) → get j m.jobs ≡ get j idle.jobs)
handle_run-failed_example =
    handle_run-failed list_channel (session (err (Error.windows 2))) ticks idle []
      (run_ack (next_id idle.next_job_id).0 ∷ []) request dir_payload (Error.windows 2)
      (idle-CanRun (err (Error.windows 2))) refl refl

-- The read that fails when the client has closed the pipe.
abbrev hang_up : Incoming
hang_up = record { frame = err (io (raw_os_error (windows.hresult 109))); clock = ticks }

process_requests-read_failed_example :
    process_requests list_channel (session (ok child)) idle [] (hang_up ∷ [])
    ≡ ended idle [] (err (io (raw_os_error (windows.hresult 109))))
process_requests-read_failed_example =
    process_requests-read_failed list_channel (session (ok child)) windows 109 idle [] hang_up []
      (omega arith) (omega arith) refl
