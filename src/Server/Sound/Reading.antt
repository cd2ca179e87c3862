-- ===== src/Server/Sound/Reading.antt =====
-- The turns of the request loop of `handle_client` in src/pipe_server.rs keep the invariant of
-- Server.Sound.
use windows_command_runner.Base.{ℕ, ◌≡◌, refl, inl, inr, Option, List}
use windows_command_runner.Error.{Result, ok, err, Result-cases}
use windows_command_runner.Channel.{ChannelApi, ReceiverApi}
use windows_command_runner.Protocol.Bytes.{Endian, BytesApi}
use windows_command_runner.Protocol.Frame.{Frame, FrameType}
use windows_command_runner.Pipe.Io.{PipeApi, read_frame}
use windows_command_runner.Pipe.Delivery.{PipeLaws}
use windows_command_runner.Pipe.Directions.{read_frame-written}
use windows_command_runner.Job.Invariant.{Inv}
use windows_command_runner.Job.Manager.{JobManager}
use windows_command_runner.Server.Session.{
  SessionApi, Spawned, Next, continue, stop, handle_frame, end_of_reads, after_run,
}
use windows_command_runner.Server.Requests.{handle_frame-Inv}
use windows_command_runner.Server.Senders.{HasBytes, Grows, Grows-refl, Answers, handle_run-Answers}
use windows_command_runner.Server.Connection.{
  serving, served, spawn, Connection, after_frame, read_turn,
}
use windows_command_runner.Server.Sound.{
  IsSound, Wrote-kept, grown-IsSound, spawn-AllAcked, Grows-AllAcked, AckedNext,
}

module _ (channel : ChannelApi) (receiver : ReceiverApi channel) (pipe : PipeApi)
    (laws : PipeLaws pipe) (e : Endian) (api : SessionApi) (texts : HasBytes api) where
  open channel use {Sender, send, delivered}
  open receiver use {
    recv, close, received, received-recv, delivered-recv, received_front, recv-none, received-close,
    delivered-close,
  }
  open pipe use {Pipe}
  open laws use {written}

  -- What holds of a frame that is handled.
  abbrev Handled : Sender → JobManager × Sender × Next → Type 0
  Handled s (m, t, n) = Grows channel receiver s t × AckedNext channel receiver pipe laws e t n

  after_run-Handled :
      (clock : ℕ → ℕ) (s : Sender) (r : JobManager × Sender × Result (Option Spawned))
      → Answers channel receiver s r
      → Handled s (after_run channel api clock r)
  after_run-Handled clock s (m, t, ok spawned) h = h
  after_run-Handled clock s (m, t, err x) h = (h.0, tt)

  handle_frame-Handled :
      (clock : ℕ → ℕ) (t : FrameType) (m : JobManager) (s : Sender) (frame : Frame)
      → Inv m
      → Handled s (handle_frame channel api clock t m s frame)
  unfolding handle_frame
  handle_frame-Handled clock FrameType.run m s frame v =
      after_run-Handled clock s _ (handle_run-Answers channel receiver api clock texts m s frame v)
  handle_frame-Handled clock FrameType.goodbye m s frame v = (Grows-refl channel receiver s, tt)
  handle_frame-Handled clock _ m s frame v = (Grows-refl channel receiver s, tt)

  module _ (start : List ℕ) where
    abbrev Sound : Connection channel receiver pipe → Type 0
    Sound c = IsSound channel receiver pipe laws e start c

    after_frame-IsSound :
        (c : Connection channel receiver pipe) (p : Pipe) (r : JobManager × Sender × Next)
        → Sound c
        → c.loop ≡ serving
        → written p ≡ written c.pipe_state
        → Inv r.0
        → Handled c.frames r
        → Sound (after_frame channel receiver pipe (record c { pipe_state = p }) r)
    after_frame-IsSound c p (m, s, continue spawned) v on same kept (grows, tasks) =
        grown-IsSound channel receiver pipe laws e start c _ v kept grows
          (spawn-AllAcked channel receiver pipe laws e s spawned c.tasks tasks
            (Grows-AllAcked channel receiver pipe laws e c.frames s c.tasks grows v.acknowledged))
          (Wrote-kept channel receiver pipe laws e start c.writer c.pipe_state p c.frames s c.loop
            c.loop c.tasks (spawn spawned c.tasks) same grows.kept (rw on refl) v.wrote)
    after_frame-IsSound c p (m, s, stop r) v on same kept (grows, _) =
        grown-IsSound channel receiver pipe laws e start c _ v kept grows
          (Grows-AllAcked channel receiver pipe laws e c.frames s c.tasks grows v.acknowledged)
          (Wrote-kept channel receiver pipe laws e start c.writer c.pipe_state p c.frames s c.loop
            (served r) c.tasks c.tasks same grows.kept (rw on refl) v.wrote)

    module _ (bytes : BytesApi) where
      pub read_turn-IsSound :
          (c : Connection channel receiver pipe) (clock : ℕ → ℕ)
          → Sound c
          → c.loop ≡ serving
          → Sound (read_turn channel receiver pipe bytes e api c clock)
      unfolding read_turn
      read_turn-IsSound c clock v on =
          let same = read_frame-written pipe laws c.pipe_state in
          elim (Result-cases (read_frame pipe c.pipe_state).1) [
            | inl (frame, r) ↦
                rw (r, read_turn)
                  (after_frame-IsSound c _
                    (handle_frame channel api clock frame.frame_type c.manager c.frames frame) v on
                    same
                    (handle_frame-Inv channel api clock frame.frame_type c.manager c.frames frame
                      v.kept)
                    (handle_frame-Handled clock frame.frame_type c.manager c.frames frame v.kept))
            | inr (x, r) ↦
                rw (r, read_turn)
                  (grown-IsSound channel receiver pipe laws e start c _ v v.kept
                    (Grows-refl channel receiver c.frames) v.acknowledged
                    (Wrote-kept channel receiver pipe laws e start c.writer c.pipe_state _ c.frames
                      c.frames c.loop (served (end_of_reads x)) c.tasks c.tasks same refl
                      (rw on refl) v.wrote))
          ]
