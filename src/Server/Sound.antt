-- ===== src/Server/Sound.antt =====
-- An invariant of the turns of a session of src/pipe_server.rs (Server.Connection), and what keeps
-- each of its parts.
pub mod Reading
pub mod Writing
pub mod Turns
use mathlib.Core.List.{append_assoc, append-nil}
use windows_command_runner.Base.{
  ◌≤◌, length, ℕ, ◌≡◌, refl, sym, ap, ◌∙◌, inl, inr, Bool, true, false, Option, none, some, List,
  [], ◌∷◌, ◌++◌, ◌==◌, arith, All, Bool-cases, Option-cases,
}
use windows_command_runner.Error.{Result, ok, err, Result-cases}
use windows_command_runner.Channel.{ChannelApi, ReceiverApi}
use windows_command_runner.Protocol.Bytes.{Endian, BytesApi}
use windows_command_runner.Protocol.Frame.{max_payload_size, Frame, FrameType}
use windows_command_runner.Pipe.Io.{PipeApi, read_frame, write_frame}
use windows_command_runner.Pipe.Delivery.{PipeLaws, Writes}
use windows_command_runner.Pipe.Transport.{framed, write_frame-Writes}
use windows_command_runner.Pipe.Directions.{read_frame-written}
use windows_command_runner.Job.Invariant.{Inv}
use windows_command_runner.Job.Manager.{JobManager}
use windows_command_runner.Job.History.{Call, step, step-Inv}
use windows_command_runner.Server.Session.{
  SessionApi, Spawned, Next, continue, stop, handle_run, handle_frame, end_of_reads, after_run,
  send_or_ignore,
}
use windows_command_runner.Server.Requests.{handle_frame-Inv}
use windows_command_runner.Server.Announced.{
  acked, acked-append, Announced, Announced-append, All-append,
}
use windows_command_runner.Server.Senders.{
  HasBytes, Grows, Grows-refl, send_or_ignore-Grows, AckedTasks, Answers, handle_run-Answers,
}
use windows_command_runner.Server.Writer.{all_framed}
use windows_command_runner.Protocol.Frame.{IsFrame}
use windows_command_runner.Server.Connection.{
  Loop, serving, served, WriterTask, writing, broken, drained, spawn, has_task, without_task, Turn,
  reads, sends, ends, writes, calls, Connection, new_connection, after_frame, after_writing,
  is_closed, read_turn, write_turn, turn, run_turns, returned, returned_when,
}

-- A frame that fits in the payload limit.
abbrev pub IsSmall : Frame → Type 0
IsSmall f = length f.payload ≤ max_payload_size

-- The RUN_ACK of each task's job is among some frames.
abbrev pub AllAcked : List Frame → List ℕ → Type 0
AllAcked fs tasks = All (λ id. acked id fs ≡ true) tasks

AllAcked-append :
    (fs more : List Frame) (tasks : List ℕ) → AllAcked fs tasks → AllAcked (fs ++ more) tasks
AllAcked-append fs more [] a = tt
AllAcked-append fs more (id ∷ tasks) (h, a) =
    (acked-append id fs more h, AllAcked-append fs more tasks a)

pub without_task-AllAcked :
    (fs : List Frame) (id : ℕ) (tasks : List ℕ)
    → AllAcked fs tasks
    → AllAcked fs (without_task id tasks)
unfolding without_task
without_task-AllAcked fs id [] a = tt
without_task-AllAcked fs id (t ∷ tasks) (h, a) = elim (Bool-cases (id == t)) [
  | inl same ↦ rw same a
  | inr other ↦ rw other (h, without_task-AllAcked fs id tasks a)
]

pub has_task-acked :
    (fs : List Frame) (id : ℕ) (tasks : List ℕ)
    → AllAcked fs tasks
    → has_task id tasks ≡ true
    → acked id fs ≡ true
unfolding has_task
has_task-acked fs id [] a h = cc
has_task-acked fs id (t ∷ tasks) (p, a) h = ground (arith, has_task-acked fs id tasks a)

module _ (channel : ChannelApi) (receiver : ReceiverApi channel) (pipe : PipeApi)
    (laws : PipeLaws pipe) (e : Endian) where
  open channel use {Sender, send, delivered}
  open receiver use {
    recv, close, received, received-recv, delivered-recv, received_front, recv-none, received-close,
    delivered-close,
  }
  open pipe use {Pipe}
  open laws use {written}

  -- What is on the pipe in each state of the writer: unless a write failed, the frames that it
  -- received, after what was there at the start, none of them over the limit; and once it is
  -- drained, it has received all, and every sender is dropped.
  abbrev pub Wrote : List ℕ → WriterTask → Pipe → Sender → Loop → List ℕ → Type 0
  Wrote start writing p s loop tasks =
      (written p ≡ start ++ all_framed e (received s)) × All IsSmall (received s)
  Wrote start broken p s loop tasks = Unit {0}
  Wrote start drained p s loop tasks =
      (written p ≡ start ++ all_framed e (received s))
      × All IsSmall (received s)
      × (received s ≡ delivered s)
      × (is_closed loop tasks ≡ true)

  pub record IsSound (start : List ℕ) (c : Connection channel receiver pipe) : Type 0 where
    pub kept : Inv c.manager
    pub valid : All IsFrame (delivered c.frames)
    pub announced : Announced [] (delivered c.frames)
    pub acknowledged : AllAcked (delivered c.frames) c.tasks
    pub wrote : Wrote start c.writer c.pipe_state c.frames c.loop c.tasks

  pub Wrote-kept :
      (start : List ℕ) (w : WriterTask) (p q : Pipe) (s t : Sender) (l k : Loop)
      (tasks others : List ℕ)
      → written q ≡ written p
      → received t ≡ received s
      → is_closed l tasks ≡ false
      → Wrote start w p s l tasks
      → Wrote start w q t k others
  Wrote-kept start writing p q s t l k tasks others pipes gets still_open h = rw (pipes, gets) h
  Wrote-kept start broken p q s t l k tasks others pipes gets still_open h = tt
  Wrote-kept start drained p q s t l k tasks others pipes gets still_open h =
      absurd (cc (still_open, h.3))

  without_task-is_closed :
      (l : Loop) (id : ℕ) (tasks : List ℕ)
      → is_closed l tasks ≡ true
      → is_closed l (without_task id tasks) ≡ true
  unfolding without_task
  without_task-is_closed serving id tasks h = cc
  without_task-is_closed (served r) id [] h = refl
  without_task-is_closed (served r) id (t ∷ tasks) h = cc

  pub Wrote-ends :
      (start : List ℕ) (w : WriterTask) (p : Pipe) (s : Sender) (l : Loop) (id : ℕ) (tasks : List ℕ)
      → Wrote start w p s l tasks
      → Wrote start w p s l (without_task id tasks)
  Wrote-ends start writing p s l id tasks h = h
  Wrote-ends start broken p s l id tasks h = tt
  Wrote-ends start drained p s l id tasks h = (h.0, h.1, h.2, without_task-is_closed l id tasks h.3)

  pub has_task-is_closed :
      (l : Loop) (id : ℕ) (tasks : List ℕ) → has_task id tasks ≡ true → is_closed l tasks ≡ false
  unfolding has_task
  has_task-is_closed serving id tasks h = refl
  has_task-is_closed (served r) id [] h = cc
  has_task-is_closed (served r) id (t ∷ tasks) h = refl

  -- A turn in which the writer does not take part.
  pub grown-IsSound :
      (start : List ℕ) (c d : Connection channel receiver pipe)
      → IsSound start c
      → Inv d.manager
      → Grows channel receiver c.frames d.frames
      → AllAcked (delivered d.frames) d.tasks
      → Wrote start d.writer d.pipe_state d.frames d.loop d.tasks
      → IsSound start d
  grown-IsSound start c d v kept grows acknowledged wrote = record {
    kept = kept;
    valid =
        rw grows.appended (All-append IsFrame (delivered c.frames) grows.added v.valid grows.valid);
    announced =
        rw grows.appended
          (Announced-append [] (delivered c.frames) grows.added v.announced grows.announced);
    acknowledged = acknowledged;
    wrote = wrote;
  }

  pub spawn-AllAcked :
      (s : Sender) (spawned : Option Spawned) (tasks : List ℕ)
      → AckedTasks channel receiver s (ok spawned)
      → AllAcked (delivered s) tasks
      → AllAcked (delivered s) (spawn spawned tasks)
  spawn-AllAcked s none tasks a rest = rest
  spawn-AllAcked s (some (id, proc)) tasks a rest = (a, (a, (a, rest)))

  pub Grows-AllAcked :
      (s t : Sender) (tasks : List ℕ)
      → Grows channel receiver s t
      → AllAcked (delivered s) tasks
      → AllAcked (delivered t) tasks
  Grows-AllAcked s t tasks grows a =
      rw grows.appended (AllAcked-append (delivered s) grows.added tasks a)

  abbrev pub AckedNext : Sender → Next → Type 0
  AckedNext s (continue spawned) = AckedTasks channel receiver s (ok spawned)
  AckedNext s (stop r) = Unit {0}
