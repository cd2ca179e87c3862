-- ===== src/Examples/Monitors.antt =====
-- The theorems on the timeout of a job and on sequences of frames, applied to short runs.
use windows_command_runner.Base.{
  ℕ, ◌≡◌, refl, false, true, some, none, List, [], ◌∷◌, ◌++◌, All, arith,
}
use windows_command_runner.Base.Assoc.{get, update}
use windows_command_runner.Error.{Result, ok}
use windows_command_runner.Job.State.{running, timed_out, can_transition_to, is_terminal}
use windows_command_runner.Job.Handle.{JobHandle, new_handle}
use windows_command_runner.Job.Manager.{JobManager, cancel_token, enter_state, transition_state}
use windows_command_runner.Cancel.{TerminationApi, Kill, kill_object, kill_process, terminate_job}
use windows_command_runner.Cancel.Timeout.{
  Poll, fired, fire, monitor_timeout, watch, FiresAt, monitor_timeout-fired,
}
use windows_command_runner.Cancel.Fires.{StopsAt, Undisturbed, monitor_timeout_fires}
use windows_command_runner.Protocol.Bytes.{big}
use windows_command_runner.Protocol.Frame.{Frame, StreamId, output}
use windows_command_runner.Server.Writer.{
  IsSendable, all_framed, all_received, read_frames, read_frames-all_framed,
}
use windows_command_runner.Examples.Models.{byte_pipe, byte_pipe_laws, byte_pipe_progress}

-- A running job with a timeout of two seconds.
abbrev timed_job : JobHandle
timed_job = record {
  job_id = 1;
  state = running;
  process_handle = new_handle 100;
  job_object = new_handle 101;
  is_cancelled = false;
  start_time = 0;
  timeout = some 2_000_000_000;
  completed_at = none;
  last_activity = 0;
}

abbrev with_job : JobManager
with_job = record {
  jobs = (1, timed_job) ∷ [];
  next_job_id = 2;
  max_concurrent_jobs = 50;
  last_job_created = 0;
  detached = [];
}

abbrev poll_at : ℕ → Poll
poll_at now = record { manager = with_job; job = timed_job; now = now; exits = []; woken = false }

-- Both calls of Windows succeed, but the process is not seen to exit.
abbrev killer : TerminationApi
killer = record { terminate_job_object = λ _. true; terminate_process = λ _. none }

abbrev polls : List Poll
polls = poll_at 10 ∷ poll_at 1_000_000_020 ∷ poll_at 2_000_000_030 ∷ []

polls-Undisturbed : Undisturbed killer polls
unfolding is_terminal get
polls-Undisturbed = (
  (refl, refl, refl, refl, omega arith),
  ((refl, refl, refl, refl, omega arith), ((refl, refl, refl, refl, omega arith), tt)),
)

monitor_timeout_fires_example :
    StopsAt killer 2_000_000_000 10 polls (monitor_timeout killer timed_job 10 polls)
monitor_timeout_fires_example =
    monitor_timeout_fires killer timed_job 2_000_000_000 10 polls refl polls-Undisturbed
      (omega arith, (omega arith, (omega arith, tt))) (omega arith)

-- The job once it is stopped.
abbrev stopped_job : JobHandle
stopped_job = cancel_token (enter_state timed_out 2_000_000_030 timed_job)

abbrev without_job : JobManager
without_job = record with_job { jobs = (1, stopped_job) ∷ [] }

abbrev kills : JobHandle × Result (Unit {0}) × List Kill
kills = (stopped_job, ok tt, kill_object 101 ∷ kill_process 100 ∷ [])

fires : monitor_timeout killer timed_job 10 polls ≡ fired without_job kills
unfolding monitor_timeout watch fire terminate_job transition_state is_terminal can_transition_to
    get update
fires = refl

monitor_timeout-fired_example :
    (timeout : ℕ) × (some 2_000_000_000 ≡ some timeout)
    × FiresAt killer timeout 10 polls (fired without_job kills)
monitor_timeout-fired_example =
    monitor_timeout-fired killer timed_job 10 polls without_job kills fires

abbrev first : Frame
first = record {
  frame_type = output;
  stream_id = StreamId.stdout;
  flags = 0;
  job_id = 7;
  sequence_number = 0;
  payload = 65 ∷ 66 ∷ [];
}

abbrev second : Frame
second = record first { sequence_number = 1; payload = [] }

both-IsSendable : All IsSendable (first ∷ second ∷ [])
both-IsSendable = (
  record {
    range = record {
      flags_range = omega arith;
      job_id_range = omega arith;
      sequence_range = omega arith;
      payload_bytes = (omega arith, (omega arith, tt));
    };
    small = omega arith;
  },
  (
    record {
      range = record {
        flags_range = omega arith;
        job_id_range = omega arith;
        sequence_range = omega arith;
        payload_bytes = tt;
      };
      small = omega arith;
    },
    tt,
  ),
)

read_frames-all_framed_example :
    (q : List ℕ × List ℕ) × (read_frames byte_pipe 2
        (all_framed big (first ∷ second ∷ []) ++ 9 ∷ [], [])
      ≡ (q, all_received big (first ∷ second ∷ [])))
    × (q.0 ≡ 9 ∷ [])
read_frames-all_framed_example =
    read_frames-all_framed byte_pipe byte_pipe_laws big byte_pipe_progress
      (all_framed big (first ∷ second ∷ []) ++ 9 ∷ [], []) (first ∷ second ∷ []) (9 ∷ [])
      both-IsSendable refl
