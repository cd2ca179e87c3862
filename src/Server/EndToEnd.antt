-- ===== src/Server/EndToEnd.antt =====
-- What a client of src/pipe_server.rs reads, if it reads as `read_frame` does: the frames that the
-- tasks of a session handed over, through the channel, the writer and the pipe.
use mathlib.Core.List.{append-nil, append_cancel_left}
use windows_command_runner.Base.{◌≡◌, ◌≢◌, refl, sym, ◌∙◌, some, List, [], ◌∷◌, ◌++◌, All, length}
use windows_command_runner.Error.{Result}
use windows_command_runner.Channel.{ChannelApi, ReceiverApi}
use windows_command_runner.Protocol.Bytes.{Endian, BytesApi}
use windows_command_runner.Protocol.Frame.{Frame, IsFrame}
use windows_command_runner.Pipe.Io.{PipeApi}
use windows_command_runner.Pipe.Delivery.{PipeLaws, ReadProgress}
use windows_command_runner.Job.Invariant.{Inv}
use windows_command_runner.Job.Manager.{JobManager}
use windows_command_runner.Server.Session.{SessionApi}
use windows_command_runner.Server.Senders.{HasBytes}
use windows_command_runner.Server.Writer.{
  IsSendable, all_framed, all_received, read_frames, read_frames-all_framed,
}
use windows_command_runner.Server.Connection.{
  Turn, Connection, new_connection, run_turns, returned, broken,
}
use windows_command_runner.Server.Sound.{IsSmall}
use windows_command_runner.Server.Sound.Turns.{Fits}
use windows_command_runner.Server.Delivered.{
  IsFresh, run-IsSound, run_turns-returned, delivered-IsSmall,
}

All-IsSendable : (fs : List Frame) → All IsFrame fs → All IsSmall fs → All IsSendable fs
All-IsSendable [] a b = tt
All-IsSendable (f ∷ fs) (h, a) (k, b) = (record { range = h; small = k }, All-IsSendable fs a b)

module _ (channel : ChannelApi) (receiver : ReceiverApi channel) (pipe : PipeApi)
    (laws : PipeLaws pipe) (e : Endian) (api : SessionApi) (texts : HasBytes api) (bytes : BytesApi)
    (client : PipeApi) (client_laws : PipeLaws client)
    (progress : ReadProgress client client_laws) where
  open channel use {Sender, delivered}
  open laws use {written}

  -- When `handle_client` returns and no write has failed, a client whose end of the pipe holds what
  -- the session wrote, and on which a read gets bytes while some wait, reads with as many reads of
  -- a frame as frames were handed over exactly these frames, in order, none lost, split or merged,
  -- with flags, job and sequence numbers passed through `to_be`, and nothing is left. The channel
  -- was fresh, the manager satisfied its invariant, the message of a failed launch is made of
  -- bytes, and the fields of the frames that the tasks send are in range.
  pub run_turns-read_frames :
      (p : pipe.Pipe) (m : JobManager) (s : Sender) (ts : List Turn)
      (c : Connection channel receiver pipe) (r : Result (Unit {0})) (q : client.Pipe)
      → run_turns channel receiver pipe bytes e api (new_connection channel receiver pipe p m s) ts
        ≡ c
      → Inv m
      → IsFresh channel receiver pipe laws e api texts s
      → All Fits ts
      → c.writer ≢ broken
      → returned channel receiver pipe c ≡ some r
      → written c.pipe_state ≡ written p ++ client_laws.pending q
      → (t : client.Pipe) × (read_frames client (length (delivered c.frames)) q
          ≡ (t, all_received e (delivered c.frames)))
        × (client_laws.pending t ≡ [])
  run_turns-read_frames p m s ts c r q now v fresh small whole done waits =
      let (_, wrote) =
        run_turns-returned channel receiver pipe laws e api texts bytes p m s ts c now r v fresh
          small whole done in
      let sound =
        run-IsSound channel receiver pipe laws e api texts bytes p m s ts c now v fresh small in
      read_frames-all_framed client client_laws e progress q (delivered c.frames) []
        (All-IsSendable (delivered c.frames) sound.valid (
          delivered-IsSmall channel receiver pipe laws e api texts bytes p m s ts c now r v fresh
            small whole done))
        (append_cancel_left (written p) (client_laws.pending q)
          (all_framed e (delivered c.frames) ++ [])
          (sym waits ∙ wrote ∙ rw (append-nil (all_framed e (delivered c.frames))) refl))
