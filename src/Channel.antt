-- ===== src/Channel.antt =====
-- The frame channel of src/pipe_server.rs and src/io_pump.rs, a `tokio::sync::mpsc` of frames, as
-- a parameter: `send` hands a frame over, in order, or fails once the receiver is gone.
use windows_command_runner.Base.{◌≡◌, Option, none, some, List, [], ◌∷◌, ◌++◌}
use windows_command_runner.Protocol.Frame.{Frame}

pub record ChannelApi : Type 1 where
  pub Sender : Type 0
  pub send : Sender → Frame → Option Sender
  pub delivered : Sender → List Frame
  pub delivered-send :
      (s t : Sender) (f : Frame) → send s f ≡ some t → delivered t ≡ delivered s ++ f ∷ []

-- The other end, on the state that the senders share: `recv` gives the frames in the order in which
-- they were handed over, each once, and nothing exactly if none is left; `close` is the drop of the
-- receiver, which neither adds nor takes a frame. `received` are the frames that `recv` gave.
pub record ReceiverApi (channel : ChannelApi) : Type 0 where
  pub recv : channel.Sender → Option (Frame × channel.Sender)
  pub close : channel.Sender → channel.Sender
  pub received : channel.Sender → List Frame
  pub received-send :
      (s t : channel.Sender) (f : Frame) → channel.send s f ≡ some t → received t ≡ received s
  pub received-recv :
      (s t : channel.Sender) (f : Frame) → recv s ≡ some (f, t) → received t ≡ received s ++ f ∷ []
  pub delivered-recv :
      (s t : channel.Sender) (f : Frame)
      → recv s ≡ some (f, t)
      → channel.delivered t ≡ channel.delivered s
  pub received_front :
      (s : channel.Sender) → (rest : List Frame) × (channel.delivered s ≡ received s ++ rest)
  pub recv-none : (s : channel.Sender) → recv s ≡ none → received s ≡ channel.delivered s
  pub received-close : (s : channel.Sender) → received (close s) ≡ received s
  pub delivered-close : (s : channel.Sender) → channel.delivered (close s) ≡ channel.delivered s
