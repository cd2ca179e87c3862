-- ===== src/Server/Delivered.antt =====
-- What reaches the client of a session of src/pipe_server.rs, whatever the order of the turns of
-- its request loop, its writer, its jobs and the other callers of the job manager.
use mathlib.Core.List.{append-nil}
use windows_command_runner.Base.{ℕ, ◌≡◌, ◌≢◌, sym, some, refl, true, List, [], ◌∷◌, ◌++◌, All}
use windows_command_runner.Channel.{ChannelApi, ReceiverApi}
use windows_command_runner.Protocol.Bytes.{Endian, BytesApi}
use windows_command_runner.Protocol.Frame.{Frame}
use windows_command_runner.Pipe.Io.{PipeApi}
use windows_command_runner.Pipe.Delivery.{PipeLaws}
use windows_command_runner.Server.Session.{SessionApi}
use windows_command_runner.Server.Announced.{Announced}
use windows_command_runner.Server.Senders.{HasBytes}
use windows_command_runner.Server.Writer.{all_framed}
use windows_command_runner.Error.{Result}
use windows_command_runner.Job.Invariant.{Inv}
use windows_command_runner.Job.Manager.{JobManager}
use windows_command_runner.Server.Connection.{
  Loop, serving, served, is_closed, WriterTask, writing, broken, drained, returned, returned_when,
  new_connection, Turn, Connection, run_turns,
}
use windows_command_runner.Server.Sound.{IsSmall, IsSound, Wrote}
use windows_command_runner.Server.Sound.Turns.{Fits, run_turns-IsSound}

Announced-front : (seen xs ys : List Frame) → Announced seen (xs ++ ys) → Announced seen xs
Announced-front seen [] ys a = tt
Announced-front seen (f ∷ fs) ys (h, a) = (h, Announced-front (seen ++ f ∷ []) fs ys a)

module _ (channel : ChannelApi) (receiver : ReceiverApi channel) (pipe : PipeApi)
    (laws : PipeLaws pipe) (e : Endian) (api : SessionApi) (texts : HasBytes api) where
  open channel use {Sender, send, delivered}
  open receiver use {
    recv, close, received, received-recv, delivered-recv, received_front, recv-none, received-close,
    delivered-close,
  }
  open pipe use {Pipe}
  open laws use {written}

  -- A channel on which nothing was sent yet.
  abbrev pub IsFresh : Sender → Type 0
  IsFresh s = (delivered s ≡ []) × (received s ≡ [])

  module _ (bytes : BytesApi) where
    new_connection-IsSound :
        (p : Pipe) (m : JobManager) (s : Sender)
        → Inv m
        → IsFresh s
        → IsSound channel receiver pipe laws e
            (written p)
            (new_connection channel receiver pipe p m s)
    unfolding all_framed
    new_connection-IsSound p m s v fresh = record {
      kept = v;
      valid = rw fresh.0 tt;
      announced = rw fresh.0 tt;
      acknowledged = tt;
      wrote = (rw fresh.1 (sym (append-nil (written p))), rw fresh.1 tt);
    }

    Wrote-written :
        (start : List ℕ) (w : WriterTask) (p : Pipe) (s : Sender) (l : Loop) (tasks : List ℕ)
        → w ≢ broken
        → Wrote channel receiver pipe laws e start w p s l tasks
        → written p ≡ start ++ all_framed e (received s)
    Wrote-written start writing p s l tasks n h = h.0
    Wrote-written start broken p s l tasks n h = absurd (n refl)
    Wrote-written start drained p s l tasks n h = h.0

    is_closed-tasks : (l : Loop) (tasks : List ℕ) → is_closed l tasks ≡ true → tasks ≡ []
    is_closed-tasks serving tasks h = cc
    is_closed-tasks (served r) [] h = refl
    is_closed-tasks (served r) (t ∷ ts) h = cc

    Wrote-returned :
        (start : List ℕ) (w : WriterTask) (p : Pipe) (s : Sender) (l : Loop) (tasks : List ℕ)
        (r : Result (Unit {0}))
        → w ≢ broken
        → returned_when l w ≡ some r
        → Wrote channel receiver pipe laws e start w p s l tasks
        → (received s ≡ delivered s) × (tasks ≡ []) × All IsSmall (received s)
    Wrote-returned start w p s serving tasks r n e' h = cc
    Wrote-returned start writing p s (served q) tasks r n e' h = cc
    Wrote-returned start broken p s (served q) tasks r n e' h = absurd (n refl)
    Wrote-returned start drained p s (served q) tasks r n e' h =
        (h.2, is_closed-tasks (served q) tasks h.3, h.1)

    module _ (p : Pipe) (m : JobManager) (s : Sender) (ts : List Turn)
        (c : Connection channel receiver pipe)
        (now : run_turns channel receiver pipe bytes e api
            (new_connection channel receiver pipe p m s)
            ts
          ≡ c) where
      pub run-IsSound :
          Inv m → IsFresh s → All Fits ts → IsSound channel receiver pipe laws e (written p) c
      run-IsSound v fresh small = rw now at (
          run_turns-IsSound channel receiver pipe laws e api texts (written p) bytes _ ts
            (new_connection-IsSound p m s v fresh) small)

      -- Whatever the order of the turns of a session, as long as no write has failed: what the
      -- session has written on the pipe is a front of the frames that its request loop and the
      -- tasks of its jobs handed over, in that order, each with its length and whole, and each
      -- frame that is not a RUN_ACK comes after the RUN_ACK of its job. The channel was fresh, the
      -- manager satisfied its invariant, the message of a failed launch is made of bytes, and the
      -- fields of the frames that the tasks send are in range.
      pub run_turns-written :
          Inv m
          → IsFresh s
          → All Fits ts
          → c.writer ≢ broken
          → (rest : List Frame) × (delivered c.frames ≡ received c.frames ++ rest)
            × (written c.pipe_state ≡ written p ++ all_framed e (received c.frames))
            × Announced [] (received c.frames)
      run_turns-written v fresh small whole =
          let sound = run-IsSound v fresh small in
          let (rest, front) = received_front c.frames in
          (
            rest,
            front,
            Wrote-written (written p) c.writer c.pipe_state c.frames c.loop c.tasks whole
                sound.wrote,
            Announced-front [] (received c.frames) rest (rw front at sound.announced),
          )

      -- When `handle_client` returns and no write has failed, every task that its jobs started has
      -- ended, and every frame that was handed over was written, in order, and nothing else. The
      -- channel was fresh, the manager satisfied its invariant, the message of a failed launch is
      -- made of bytes, and the fields of the frames that the tasks send are in range.
      pub run_turns-returned :
          (r : Result (Unit {0}))
          → Inv m
          → IsFresh s
          → All Fits ts
          → c.writer ≢ broken
          → returned channel receiver pipe c ≡ some r
          → (c.tasks ≡ []) × (written c.pipe_state ≡ written p ++ all_framed e (delivered c.frames))
      run_turns-returned r v fresh small whole done =
          let sound = run-IsSound v fresh small in
          let (all, none_left, _) =
            Wrote-returned (written p) c.writer c.pipe_state c.frames c.loop c.tasks r whole done
              sound.wrote in
          (
            none_left,
            rw (← all) (
                Wrote-written (written p) c.writer c.pipe_state c.frames c.loop c.tasks whole
                  sound.wrote),
          )

      -- None of the frames that were handed over is then over the payload limit.
      pub delivered-IsSmall :
          (r : Result (Unit {0}))
          → Inv m
          → IsFresh s
          → All Fits ts
          → c.writer ≢ broken
          → returned channel receiver pipe c ≡ some r
          → All IsSmall (delivered c.frames)
      delivered-IsSmall r v fresh small whole done =
          let sound = run-IsSound v fresh small in
          let (all, _, limited) =
            Wrote-returned (written p) c.writer c.pipe_state c.frames c.loop c.tasks r whole done
              sound.wrote in
          rw (← all) limited
