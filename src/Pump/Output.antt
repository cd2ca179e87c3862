-- ===== src/Pump/Output.antt =====
-- `read_pipe_blocking` and `start_output_pump` of src/io_pump.rs.
use windows_command_runner.Base.{
  ℕ, ◌+◌, ◌%◌, Bool, true, false, List, [], ◌∷◌, ◌==◌, if◌then◌else◌, length, Option, none, some,
}
use windows_command_runner.Windows.{
  Hresults, ReadOutcome, read_done, read_failed, error_broken_pipe, error_more_data,
}
use windows_command_runner.Error.{
  Result, ok, err, io, raw_os_error, process_launch_failed, spawn_blocking_failed,
}
use windows_command_runner.Protocol.Frame.{
  Frame, StreamId, output, new_frame, with_job_id, with_sequence, with_payload, with_flag, flag_eos,
}
use windows_command_runner.Channel.{ChannelApi}
use windows_command_runner.Pump.Window.{
  StreamPump, Sending, sent, dropped, failed, waiting, try_send_frame,
}

pub record PipeReadResult : Type 0 where
  pub contents : List ℕ
  pub bytes_read : ℕ
  pub is_eof : Bool

abbrev end_of_file : PipeReadResult
end_of_file = record { contents = []; bytes_read = 0; is_eof = true }

-- The buffer, cut to what was read.
abbrev chunk : List ℕ → PipeReadResult
chunk bytes = record { contents = bytes; bytes_read = length bytes; is_eof = false }

unfoldable pub read_pipe_blocking : Hresults → ReadOutcome → Result PipeReadResult
read_pipe_blocking w (read_done bytes) =
    if length bytes == 0 then ok end_of_file else ok (chunk bytes)
read_pipe_blocking w (read_failed code bytes) =
    if code == w.hresult error_broken_pipe
    then ok end_of_file
    else if code == w.hresult error_more_data
    then ok (chunk bytes)
    else err (io (raw_os_error code))

-- What one round of the loop meets: whether the token is cancelled, what the blocking read does
-- (`none` if its task could not be joined), and the window updates that arrive while it sends.
pub record Round : Type 0 where
  pub cancelled : Bool
  pub read : Option ReadOutcome
  pub updates : List ℕ

unfoldable pub output_frame : ℕ → StreamId → ℕ → List ℕ → Frame
unfolding new_frame with_job_id with_sequence with_payload
output_frame job_id stream_id sequence payload =
    with_payload (with_sequence (with_job_id (new_frame output stream_id) job_id) sequence) payload

unfoldable pub eos_frame : ℕ → StreamId → ℕ → Frame
unfolding new_frame with_job_id with_sequence with_flag
eos_frame job_id stream_id sequence =
    with_flag (with_sequence (with_job_id (new_frame output stream_id) job_id) sequence) flag_eos

-- How far the pump has come: it returned, or it waits for the window, or the rounds are used up
-- and it goes on reading.
pub data Progress (S : Type 0) : Type 0 where
  returned : StreamPump → S → Result (Unit {0}) → Progress S
  stalled : StreamPump → S → Progress S
  reading : StreamPump → S → ℕ → Progress S

abbrev pub wrapping_add_one : ℕ → ℕ
wrapping_add_one n = (n + 1) % 4294967296

-- What follows a `try_send_frame(..).await?` that was given the sender: the rest of the function if
-- it returned, its error, or more waiting.
unfoldable pub after_send :
    {S : Type 0} → (StreamPump → S → Progress S) → S → Sending S → Progress S
after_send next s (sent p' s') = next p' s'
after_send next s (dropped p') = next p' s
after_send next s (failed p' e) = returned p' s (err e)
after_send next s (waiting p') = stalled p' s

module _ (api : ChannelApi) (w : Hresults) (job_id : ℕ) (stream_id : StreamId) where
  open api use {Sender}

  -- After the loop: the end-of-stream frame.
  unfoldable pub send_eos : StreamPump → Sender → ℕ → List ℕ → Progress Sender
  unfolding after_send
  send_eos p s sequence updates =
      after_send (λ p' s'. returned p' s' (ok tt)) s
        (try_send_frame api p s (eos_frame job_id stream_id sequence) updates)

  unfoldable pub pump_loop : StreamPump → Sender → ℕ → List Round → Progress Sender
  unfolding after_send
  pump_loop p s sequence [] = reading p s sequence
  pump_loop p s sequence (r ∷ rs) =
      let skip = pump_loop p s sequence rs in
      let frame_sent =
        λ (p' : StreamPump) (s' : Sender). pump_loop p' s' (wrapping_add_one sequence) rs in
      if r.cancelled then send_eos p s sequence r.updates else elim r.read [
        | none ↦ returned p s (err (process_launch_failed spawn_blocking_failed))
        | some outcome ↦ elim (read_pipe_blocking w outcome) [
          | err e ↦ returned p s (err e)
          | ok result ↦
              if result.is_eof
              then send_eos p s sequence r.updates
              else if result.bytes_read == 0
              then skip
              else after_send frame_sent s (
                  try_send_frame api p s (output_frame job_id stream_id sequence result.contents)
                    r.updates)
        ]
      ]

  unfoldable pub start_output_pump : StreamPump → Sender → List Round → Progress Sender
  start_output_pump p s rounds = pump_loop p s 0 rounds
