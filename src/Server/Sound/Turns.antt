-- ===== src/Server/Sound/Turns.antt =====
-- Every turn of a session of src/pipe_server.rs keeps the invariant of Server.Sound.
use windows_command_runner.Base.{ℕ, ◌≡◌, refl, inl, inr, List, [], ◌∷◌, All, Bool-cases}
use windows_command_runner.Channel.{ChannelApi, ReceiverApi}
use windows_command_runner.Protocol.Bytes.{Endian, BytesApi}
use windows_command_runner.Protocol.Frame.{Frame}
use windows_command_runner.Pipe.Io.{PipeApi}
use windows_command_runner.Pipe.Delivery.{PipeLaws}
use windows_command_runner.Job.History.{step-Inv}
use windows_command_runner.Server.Session.{SessionApi}
use windows_command_runner.Server.Senders.{HasBytes, send_or_ignore-Grows}
use windows_command_runner.Protocol.Frame.{IsFrame}
use windows_command_runner.Server.Connection.{
  Loop, serving, served, WriterTask, writing, broken, drained, has_task, Turn, reads, sends, ends,
  writes, calls, Connection, turn, run_turns, if_serving, if_writing,
}
use windows_command_runner.Server.Sound.{
  IsSound, has_task-acked, Wrote-kept, Wrote-ends, has_task-is_closed, grown-IsSound,
  Grows-AllAcked, without_task-AllAcked,
}
use windows_command_runner.Server.Sound.Reading.{read_turn-IsSound}
use windows_command_runner.Server.Sound.Writing.{write_turn-IsSound}

-- The fields of a frame that a task of a job sends are in range.
abbrev pub Fits : Turn → Type 0
Fits (sends f) = IsFrame f
Fits _ = Unit {0}

module _ (channel : ChannelApi) (receiver : ReceiverApi channel) (pipe : PipeApi)
    (laws : PipeLaws pipe) (e : Endian) (api : SessionApi) (texts : HasBytes api) where
  open channel use {Sender, send, delivered}
  open receiver use {
    recv, close, received, received-recv, delivered-recv, received_front, recv-none, received-close,
    delivered-close,
  }
  open pipe use {Pipe}
  open laws use {written}

  module _ (start : List ℕ) where
    abbrev Sound : Connection channel receiver pipe → Type 0
    Sound c = IsSound channel receiver pipe laws e start c

    module _ (bytes : BytesApi) where
      if_serving-IsSound :
          (l : Loop) (c d : Connection channel receiver pipe)
          → Sound c
          → (l ≡ serving → Sound d)
          → Sound (if_serving channel receiver pipe l c d)
      if_serving-IsSound serving c d v h = h refl
      if_serving-IsSound (served r) c d v h = v

      if_writing-IsSound :
          (w : WriterTask) (c d : Connection channel receiver pipe)
          → Sound c
          → (w ≡ writing → Sound d)
          → Sound (if_writing channel receiver pipe w c d)
      if_writing-IsSound writing c d v h = h refl
      if_writing-IsSound broken c d v h = v
      if_writing-IsSound drained c d v h = v

      sends-IsSound :
          (c : Connection channel receiver pipe) (f : Frame)
          → Sound c
          → IsFrame f
          → Sound (turn channel receiver pipe bytes e api c (sends f))
      unfolding turn
      sends-IsSound c f v valid = elim (Bool-cases (has_task f.job_id c.tasks)) [
        | inr other ↦ rw other v
        | inl own ↦
            let grows =
              send_or_ignore-Grows channel receiver c.frames f valid
                (λ _. has_task-acked (delivered c.frames) f.job_id c.tasks v.acknowledged own) in
            rw own (
              grown-IsSound channel receiver pipe laws e start c _ v v.kept grows
                (Grows-AllAcked channel receiver pipe laws e c.frames _ c.tasks grows
                  v.acknowledged)
                (Wrote-kept channel receiver pipe laws e start c.writer c.pipe_state c.pipe_state
                  c.frames _ c.loop c.loop c.tasks c.tasks refl grows.kept
                  (has_task-is_closed channel receiver pipe laws e c.loop f.job_id c.tasks own)
                  v.wrote))
      ]

      pub turn-IsSound :
          (c : Connection channel receiver pipe) (t : Turn)
          → Sound c
          → Fits t
          → Sound (turn channel receiver pipe bytes e api c t)
      unfolding turn
      turn-IsSound c (reads clock) v small =
          if_serving-IsSound c.loop c _ v
            (read_turn-IsSound channel receiver pipe laws e api texts start bytes c clock v)
      turn-IsSound c (sends f) v small = sends-IsSound c f v small
      turn-IsSound c (ends id) v small = record {
        kept = v.kept;
        valid = v.valid;
        announced = v.announced;
        acknowledged = without_task-AllAcked (delivered c.frames) id c.tasks v.acknowledged;
        wrote =
            Wrote-ends channel receiver pipe laws e start c.writer c.pipe_state c.frames c.loop id
              c.tasks v.wrote;
      }
      turn-IsSound c writes v small =
          if_writing-IsSound c.writer c _ v
            (write_turn-IsSound channel receiver pipe laws e api start bytes c v)
      turn-IsSound c (calls now call) v small = record {
        kept = step-Inv c.manager (now, call) v.kept;
        valid = v.valid;
        announced = v.announced;
        acknowledged = v.acknowledged;
        wrote = v.wrote;
      }

      pub run_turns-IsSound :
          (c : Connection channel receiver pipe) (ts : List Turn)
          → Sound c
          → All Fits ts
          → Sound (run_turns channel receiver pipe bytes e api c ts)
      unfolding run_turns
      run_turns-IsSound c [] v small = v
      run_turns-IsSound c (t ∷ ts) v (h, small) =
          run_turns-IsSound (turn channel receiver pipe bytes e api c t) ts (turn-IsSound c t v h)
            small
