-- ===== src/Pump/Shared.antt =====
-- The two output pumps of one job, in src/pipe_server.rs, on the `StreamPump` of src/io_pump.rs
-- that they share: `try_send_frame` in the steps of its atomic operations, in any interleaving. No
-- window update arrives, since nothing calls `update_window`.
use windows_command_runner.Base.{
  ℕ, ◌+◌, ◌%◌, ◌≤◌, ◌≡◌, some, false, true, List, [], ◌∷◌, leb, if◌then◌else◌, arith, length,
}
use windows_command_runner.Protocol.Frame.{Frame}
use windows_command_runner.Channel.{ChannelApi}
use windows_command_runner.Pump.Window.{
  StreamPump, new_pump, u64_mod, fits, sent, transmit, try_send_frame,
}

-- Where the call of `try_send_frame` of a pump is: there is none; or it has a frame of some size,
-- has loaded the bytes in flight, has passed the test, or waits for a notification.
pub data Task : Type 0 where
  idle : Task
  offered : ℕ → Task
  loaded : ℕ → ℕ → Task
  passed : ℕ → Task
  waits : ℕ → Task

pub data Act : Type 0 where
  offers : ℕ → Act  -- the pump has read a chunk
  loads tests adds wakes : Act

-- One step of a call. The window is loaded with the test of it.
unfoldable pub act : StreamPump → Task → Act → StreamPump × Task
act p idle (offers n) = (p, offered n)
act p (offered n) loads = (p, loaded n p.bytes_in_flight)
act p (loaded n k) tests = (
  p,
  if leb ((k + n) % u64_mod) p.send_window
      then passed n
      else if p.drop_policy
      then idle
      else waits n,
)
act p (passed n) adds = (record p { bytes_in_flight = (p.bytes_in_flight + n) % u64_mod }, idle)
act p (waits n) wakes = (p, offered n)
act p t _ = (p, t)

-- The pump that the two tasks share, and the two tasks.
pub record Pumps : Type 0 where
  pub pump : StreamPump
  pub out : Task
  pub err : Task

pub data Side : Type 0 where
  stdout stderr : Side

unfoldable pub act_on : Pumps → Side → Act → Pumps
unfolding act
act_on s stdout a = let (pump, task) = act s.pump s.out a in record s { pump = pump; out = task }
act_on s stderr a = let (pump, task) = act s.pump s.err a in record s { pump = pump; err = task }

unfoldable pub run_acts : Pumps → List (Side × Act) → Pumps
unfolding act_on
run_acts s [] = s
run_acts s ((side, a) ∷ acts) = run_acts (act_on s side a) acts

abbrev pub new_pumps : ℕ → Pumps
new_pumps window = record { pump = new_pump window false; out = idle; err = idle }

-- Frames are within a limit.
abbrev pub IsSmall : ℕ → Act → Type 0
IsSmall limit (offers n) = n ≤ limit
IsSmall limit _ = Unit {0}

-- The steps of a call that no other call meets are the `try_send_frame` that sends at once.
try_send_frame-run_acts :
    (api : ChannelApi) (s : Pumps) (t u : api.Sender) (f : Frame)
    → s.out ≡ idle
    → fits s.pump (length f.payload) ≡ true
    → api.send t f ≡ some u
    → try_send_frame api s.pump t f []
      ≡ sent
          (run_acts s (
            (stdout, offers (length f.payload))
            ∷ (stdout, loads)
            ∷ (stdout, tests)
            ∷ (stdout, adds)
            ∷ [])).pump
          u
unfolding try_send_frame transmit run_acts act_on act
try_send_frame-run_acts api s t u f e h d = ground arith
