-- ===== src/Pump/Window.antt =====
-- The `StreamPump` of src/io_pump.rs. The counters are u64, and each atomic operation wraps; the
-- condition variable has no state of its own. `try_send_frame` is given, as a list, the window
-- updates that arrive while it waits.
use windows_command_runner.Base.{
  ℕ, ◌+◌, ◌-◌, ◌%◌, Bool, none, some, List, [], ◌∷◌, leb, if◌then◌else◌, length,
}
use Prim.Native.Nat.{min}
use windows_command_runner.Error.{Error, protocol, send_frame_failed}
use windows_command_runner.Protocol.Frame.{Frame}
use windows_command_runner.Channel.{ChannelApi}

abbrev pub u64_mod : ℕ
u64_mod = 18_446_744_073_709_551_616

pub record StreamPump : Type 0 where
  pub send_window : ℕ  -- u64
  pub bytes_in_flight : ℕ  -- u64
  pub drop_policy : Bool

abbrev pub new_pump : ℕ → Bool → StreamPump
new_pump initial_window drop_policy = record {
  send_window = initial_window;
  bytes_in_flight = 0;
  drop_policy = drop_policy;
}

unfoldable pub update_window : StreamPump → ℕ → StreamPump
update_window p bytes_consumed =
    let current = p.bytes_in_flight in
    record p {
      send_window = (p.send_window + bytes_consumed) % u64_mod;
      bytes_in_flight = (p.bytes_in_flight + u64_mod - min bytes_consumed current) % u64_mod;
    }

-- `in_flight + data_len <= window`
abbrev pub fits : StreamPump → ℕ → Bool
fits p data_len = leb ((p.bytes_in_flight + data_len) % u64_mod) p.send_window

-- What a call of `try_send_frame` has come to: it returned with the frame sent or dropped or with
-- an error, or it is still waiting for the window.
pub data Sending (S : Type 0) : Type 0 where
  sent : StreamPump → S → Sending S
  dropped : StreamPump → Sending S
  failed : StreamPump → Error → Sending S
  waiting : StreamPump → Sending S

module _ (api : ChannelApi) where
  open api use {Sender, send}

  -- The branch that sends: the counter is raised first, then the frame is handed over.
  unfoldable pub transmit : StreamPump → Sender → Frame → Sending Sender
  transmit p s f =
      let counted = record p {
        bytes_in_flight = (p.bytes_in_flight + length f.payload) % u64_mod;
      } in
      elim (send s f) [
        | some s' ↦ sent counted s'
        | none ↦ failed counted (protocol send_frame_failed)
      ]

  unfoldable pub try_send_frame : StreamPump → Sender → Frame → List ℕ → Sending Sender
  try_send_frame p s f [] =
      if fits p (length f.payload)
      then transmit p s f
      else if p.drop_policy
      then dropped p
      else waiting p
  try_send_frame p s f (u ∷ us) =
      let rest = try_send_frame (update_window p u) s f us in
      if fits p (length f.payload)
      then transmit p s f
      else if p.drop_policy
      then dropped p
      else rest
