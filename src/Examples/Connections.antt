-- ===== src/Examples/Connections.antt =====
-- The theorems on the sessions of clients, applied to a session in which one command is run.
use windows_command_runner.Base.{
  inl, inr, ℕ, ◌+◌, ◌<◌, ◌≡◌, ◌≢◌, refl, sym, false, some, List, [], ◌∷◌, ◌++◌, arith, All, length,
}
use windows_command_runner.Pipe.Io.{read_frame, read_exact, write_frame, write_all}
use windows_command_runner.Protocol.RoundTrip.{wire}
use windows_command_runner.Base.Assoc.{get, contains_key, insert, update}
use windows_command_runner.Job.State.{can_transition_to, is_terminal}
use windows_command_runner.Error.{ok}
use windows_command_runner.Protocol.Bytes.{
  little, to_be_bytes_u16, to_be_bytes_u32, from_be_bytes_u16, from_be_bytes_u32, swap_bytes_u16,
  swap_bytes_u32, to_be_u16, to_be_u32,
}
use windows_command_runner.Protocol.Frame.{
  IsFrame, Frame, FrameType, StreamId, new_frame, with_payload, control, decode, encode,
  frame_type_try_from, frame_type_code, stream_id_try_from, stream_id_code,
}
use windows_command_runner.Pipe.Transport.{framed}
use windows_command_runner.Windows.{read_done}
use windows_command_runner.Pump.Window.{StreamPump, new_pump, try_send_frame, transmit}
use windows_command_runner.Pump.Output.{
  Round, returned as returned_pump, output_frame, eos_frame, read_pipe_blocking, start_output_pump,
  pump_loop, send_eos, after_send,
}
use windows_command_runner.Job.Manager.{
  new_manager, next_id, create_job, transition_state, update_activity,
}
use windows_command_runner.Job.Invariant.{new_manager-Inv}
use windows_command_runner.Server.Session.{
  exit_frame, handle_frame, handle_run, run_job, acknowledge_run, launch_job, start_process,
  run_ack,
}
use windows_command_runner.Server.Writer.{read_frames, all_received, all_framed}
use windows_command_runner.Server.Senders.{HasBytes}
use windows_command_runner.Server.Connection.{
  Turn, reads, sends, ends, writes, Connection, new_connection, run_turns, returned, broken, served,
  WriterTask, handle_client, has_task, without_task, drained,
}
use windows_command_runner.Server.Sound.Turns.{Fits}
use windows_command_runner.Server.Delivered.{run_turns-returned}
use windows_command_runner.Server.Returns.{count_writes, run_turns-returns}
use windows_command_runner.Server.HandleClient.{HasHelloBytes, Serves, handle_client-Serves}
use windows_command_runner.Server.EndToEnd.{run_turns-read_frames}
use windows_command_runner.Pump.Frames.{reads as pump_reads, frames_from}
use windows_command_runner.Server.Streams.{of_stream}
use windows_command_runner.Server.Output.{Accepted, sent_on, payloads, joined, run_turns-output}
use windows_command_runner.Examples.Wire.{greeting, hello_texts}
use windows_command_runner.Examples.Models.{
  list_bytes, byte_pipe, byte_pipe_laws, byte_pipe_progress, session, child, ticks, list_channel,
  windows,
}
use windows_command_runner.Examples.Queues.{all_frames, queue_channel, queue_receiver, empty_queue}

abbrev run_request : Frame
run_request = with_payload (new_frame FrameType.run control) (1 ∷ [])

abbrev goodbye : Frame
goodbye = new_frame FrameType.goodbye control

-- A client that asks for a command and leaves.
abbrev client : List ℕ × List ℕ
client = (all_framed little (run_request ∷ goodbye ∷ []), [])

abbrev first_turns : List Turn
first_turns =
    reads ticks
    ∷ sends (output_frame 1 StreamId.stdout 0 (65 ∷ []))
    ∷ writes
    ∷ sends (eos_frame 1 StreamId.stdout 1)
    ∷ reads ticks
    ∷ ends 1
    ∷ writes
    ∷ sends (exit_frame 1 (0 ∷ []))
    ∷ ends 1
    ∷ ends 1
    ∷ []

-- Two frames wait then.
abbrev closing_turns : List Turn
closing_turns = writes ∷ writes ∷ writes ∷ []

abbrev session_turns : List Turn
session_turns = first_turns ++ closing_turns

abbrev after : List Turn → Connection queue_channel queue_receiver byte_pipe
after ts =
    run_turns queue_channel queue_receiver byte_pipe list_bytes little (session (ok child))
      (new_connection queue_channel queue_receiver byte_pipe client (new_manager 4 0) empty_queue)
      ts

after_computes :
    ((after session_turns).writer ≡ drained)
    × (returned queue_channel queue_receiver byte_pipe (after session_turns) ≡ some (ok tt))
    × ((after first_turns).loop ≡ served (ok tt))
    × ((after first_turns).tasks ≡ [])
    × (length (all_frames (after first_turns).frames)
        < length (after first_turns).frames.taken + count_writes closing_turns)
    × Accepted queue_channel queue_receiver byte_pipe list_bytes little
        (session (ok child))
        1
        StreamId.stdout
        (new_connection queue_channel queue_receiver byte_pipe client (new_manager 4 0) empty_queue)
        session_turns
    × (sent_on 1 StreamId.stdout session_turns ≡ frames_from 1 StreamId.stdout 0 ((65 ∷ []) ∷ []))
unfolding run_turns read_frame read_exact all_framed framed wire decode handle_frame handle_run
    run_job acknowledge_run launch_job start_process create_job new_manager transition_state
    update_activity write_frame write_all encode run_ack exit_frame output_frame eos_frame
    frames_from has_task without_task next_id contains_key insert get update can_transition_to
    is_terminal from_be_bytes_u16 from_be_bytes_u32 frame_type_try_from stream_id_try_from
    frame_type_code stream_id_code to_be_bytes_u32 to_be_bytes_u16 swap_bytes_u32 swap_bytes_u16
    to_be_u32 to_be_u16 new_frame with_payload
after_computes = (
  refl,
  refl,
  refl,
  refl,
  omega arith,
  (inr (refl, (_, refl)), (inr (refl, (_, refl)), (inl refl, tt))),
  refl,
)

not_broken : (w : WriterTask) → w ≡ drained → w ≢ broken
not_broken w h k = cc

session_texts : HasBytes (session (ok child))
session_texts x = (omega arith, tt)

output-IsFrame : IsFrame (output_frame 1 StreamId.stdout 0 (65 ∷ []))
unfolding output_frame
output-IsFrame = record {
  flags_range = omega arith;
  job_id_range = omega arith;
  sequence_range = omega arith;
  payload_bytes = (omega arith, tt);
}

eos-IsFrame : IsFrame (eos_frame 1 StreamId.stdout 1)
unfolding eos_frame
eos-IsFrame = record {
  flags_range = omega arith;
  job_id_range = omega arith;
  sequence_range = omega arith;
  payload_bytes = tt;
}

exit-IsFrame : IsFrame (exit_frame 1 (0 ∷ []))
unfolding exit_frame
exit-IsFrame = record {
  flags_range = omega arith;
  job_id_range = omega arith;
  sequence_range = omega arith;
  payload_bytes = (omega arith, tt);
}

first_turns-Fits : All Fits first_turns
first_turns-Fits =
    (tt, (output-IsFrame, (tt, (eos-IsFrame, (tt, (tt, (tt, (exit-IsFrame, (tt, (tt, tt))))))))))

session_turns-Fits : All Fits session_turns
session_turns-Fits = (
  tt,
  (
    output-IsFrame,
    (tt, (eos-IsFrame, (tt, (tt, (tt, (exit-IsFrame, (tt, (tt, (tt, (tt, (tt, tt))))))))))),
  ),
)

run_turns-returned_example :
    ((after session_turns).tasks ≡ [])
    × ((after session_turns).pipe_state.1
        ≡ [] ++ all_framed little (all_frames (after session_turns).frames))
run_turns-returned_example =
    run_turns-returned queue_channel queue_receiver byte_pipe byte_pipe_laws little
      (session (ok child)) session_texts list_bytes client (new_manager 4 0) empty_queue
      session_turns (after session_turns) refl (ok tt) (new_manager-Inv 4 0) (refl, refl)
      session_turns-Fits (not_broken _ after_computes.0) after_computes.1

run_turns-returns_example :
    returned queue_channel queue_receiver byte_pipe (
      run_turns queue_channel queue_receiver byte_pipe list_bytes little
        (session (ok child))
        (after first_turns)
        closing_turns)
    ≡ some (ok tt)
run_turns-returns_example =
    run_turns-returns queue_channel queue_receiver byte_pipe byte_pipe_laws little
      (session (ok child)) session_texts list_bytes client (new_manager 4 0) empty_queue first_turns
      closing_turns (after first_turns) (ok tt) refl (new_manager-Inv 4 0) (refl, refl)
      first_turns-Fits (tt, (tt, (tt, tt))) after_computes.2 after_computes.3 after_computes.4

hello_fits : HasHelloBytes (hello_texts 1)
hello_fits = record { acks = λ hello. (omega arith, tt); messages = λ message. (omega arith, tt) }

-- The same client, with its HELLO first.
abbrev greeting_client : List ℕ × List ℕ
greeting_client = (all_framed little (greeting ∷ run_request ∷ goodbye ∷ []), [])

handle_client-Serves_example :
    Serves byte_pipe byte_pipe_laws list_bytes little
      (hello_texts 1)
      hello_fits
      queue_channel
      queue_receiver
      (session (ok child))
      session_texts
      greeting_client
      (handle_client queue_channel queue_receiver byte_pipe list_bytes little
        (session (ok child))
        (hello_texts 1)
        greeting_client
        (new_manager 4 0)
        empty_queue
        session_turns)
handle_client-Serves_example =
    handle_client-Serves byte_pipe byte_pipe_laws list_bytes little (hello_texts 1) hello_fits
      queue_channel queue_receiver (session (ok child)) session_texts greeting_client
      (new_manager 4 0) empty_queue session_turns (new_manager-Inv 4 0) (refl, refl)
      session_turns-Fits

run_turns-read_frames_example :
    (t : List ℕ × List ℕ) × (read_frames byte_pipe
        (length (all_frames (after session_turns).frames))
        ((after session_turns).pipe_state.1, [])
      ≡ (t, all_received little (all_frames (after session_turns).frames)))
    × (t.0 ≡ [])
run_turns-read_frames_example =
    run_turns-read_frames queue_channel queue_receiver byte_pipe byte_pipe_laws little
      (session (ok child)) session_texts list_bytes byte_pipe byte_pipe_laws byte_pipe_progress
      client (new_manager 4 0) empty_queue session_turns (after session_turns) (ok tt)
      ((after session_turns).pipe_state.1, []) refl (new_manager-Inv 4 0) (refl, refl)
      session_turns-Fits (not_broken _ after_computes.0) after_computes.1 refl

-- The pump of the command: one chunk, and the end of its output.
abbrev rounds : List Round
rounds =
    record { cancelled = false; read = some (read_done (65 ∷ [])); updates = [] }
    ∷ record { cancelled = false; read = some (read_done []); updates = [] }
    ∷ []

abbrev pump : StreamPump
pump = new_pump 65536 false

pumped :
    start_output_pump list_channel windows 1 StreamId.stdout pump [] rounds
    ≡ returned_pump
        (record pump { bytes_in_flight = 1 })
        (output_frame 1 StreamId.stdout 0 (65 ∷ []) ∷ eos_frame 1 StreamId.stdout 1 ∷ [])
        (ok tt)
unfolding start_output_pump pump_loop send_eos after_send read_pipe_blocking try_send_frame transmit
    output_frame eos_frame
pumped = refl

run_turns-output_example :
    (fs : List Frame) × ((after session_turns).pipe_state.1 ≡ [] ++ all_framed little fs)
    × (of_stream 1 StreamId.stdout fs ≡ frames_from 1 StreamId.stdout 0 (pump_reads windows rounds))
    × (payloads (of_stream 1 StreamId.stdout fs) ≡ joined (pump_reads windows rounds))
unfolding frames_from output_frame eos_frame
run_turns-output_example =
    run_turns-output queue_channel queue_receiver byte_pipe list_bytes little (session (ok child)) 1
      StreamId.stdout byte_pipe_laws session_texts windows list_channel client (new_manager 4 0)
      empty_queue session_turns (after session_turns) (ok tt) pump _ [] _ rounds refl
      (new_manager-Inv 4 0) (refl, refl) session_turns-Fits after_computes.5 refl pumped
      (sym after_computes.6) (not_broken _ after_computes.0) after_computes.1
