-- ===== src/Server/Connection.antt =====
-- `handle_client` of src/pipe_server.rs: the negotiation, and then turns of its tasks on one pipe:
-- the request loop, the writer task, the tasks of the jobs that the loop started, and whatever
-- else calls the job manager. A frame that the loop handles is one turn, and so is a frame that
-- the writer takes and writes. A task that waits, for the channel or for a frame, takes no turn.
use windows_command_runner.Base.{
  ℕ, Bool, true, false, Option, none, some, List, [], ◌∷◌, ◌==◌, if◌then◌else◌,
}
use windows_command_runner.Error.{Error, Result, ok, err}
use windows_command_runner.Channel.{ChannelApi, ReceiverApi}
use windows_command_runner.Protocol.Bytes.{Endian, BytesApi}
use windows_command_runner.Protocol.Frame.{Frame}
use windows_command_runner.Pipe.Io.{PipeApi, read_frame, write_frame}
use windows_command_runner.Job.Manager.{JobManager}
use windows_command_runner.Job.History.{Call, step}
use windows_command_runner.Server.Client.{HelloApi, negotiate}
use windows_command_runner.Server.Session.{
  SessionApi, Spawned, Next, continue, stop, handle_frame, end_of_reads, send_or_ignore,
}

-- The request loop reads, or `process_requests` has returned and its sender is dropped.
pub data Loop : Type 0 where
  serving : Loop
  served : Result (Unit {0}) → Loop

-- The writer task: it receives and writes, or a write failed, or every sender is dropped and no
-- frame is left.
pub data WriterTask : Type 0 where
  writing broken drained : WriterTask

-- The sender that each task of a job holds: two pumps and the exit task. A task is seen as the id
-- of its job.
abbrev pub spawn : Option Spawned → List ℕ → List ℕ
spawn none tasks = tasks
spawn (some (job_id, proc)) tasks = job_id ∷ job_id ∷ job_id ∷ tasks

unfoldable pub has_task : ℕ → List ℕ → Bool
has_task id [] = false
has_task id (t ∷ ts) = let rest = has_task id ts in if id == t then true else rest

-- One task of the job ends, and its sender is dropped.
unfoldable pub without_task : ℕ → List ℕ → List ℕ
without_task id [] = []
without_task id (t ∷ ts) = let rest = without_task id ts in if id == t then ts else t ∷ rest

-- Every sender is dropped.
abbrev pub is_closed : Loop → List ℕ → Bool
is_closed serving tasks = false
is_closed (served result) [] = true
is_closed (served result) (t ∷ ts) = false

-- What `handle_client` returns, once the loop has ended and the writer task is joined.
abbrev pub returned_when : Loop → WriterTask → Option (Result (Unit {0}))
returned_when serving w = none
returned_when (served result) writing = none
returned_when (served result) broken = some result
returned_when (served result) drained = some result

pub data Turn : Type 0 where
  reads : (ℕ → ℕ) → Turn
  sends : Frame → Turn
  ends : ℕ → Turn
  writes : Turn
  calls : ℕ → Call → Turn

module _ (channel : ChannelApi) (receiver : ReceiverApi channel) (pipe : PipeApi) where
  open channel use {Sender}
  open receiver use {recv, close}
  open pipe use {Pipe}

  pub record Connection : Type 0 where
    pub pipe_state : Pipe
    pub manager : JobManager
    pub frames : Sender
    pub loop : Loop
    pub writer : WriterTask
    pub tasks : List ℕ

  -- `mpsc::channel` and the spawn of the writer task.
  abbrev pub new_connection : Pipe → JobManager → Sender → Connection
  new_connection p m s = record {
    pipe_state = p;
    manager = m;
    frames = s;
    loop = serving;
    writer = writing;
    tasks = [];
  }

  -- The loop after a frame.
  abbrev pub after_frame : Connection → JobManager × Sender × Next → Connection
  after_frame c (m, s, continue spawned) = record c {
    manager = m;
    frames = s;
    tasks = spawn spawned c.tasks;
  }
  after_frame c (m, s, stop result) = record c { manager = m; frames = s; loop = served result }

  -- The writer after a write.
  abbrev pub after_writing : Connection → Sender → Option (Pipe × Result (Unit {0})) → Connection
  after_writing c s none = c
  after_writing c s (some (p, ok _)) = record c { pipe_state = p; frames = s }
  after_writing c s (some (p, err x)) = record c {
    pipe_state = p;
    frames = close s;
    writer = broken;
  }

  abbrev pub if_serving : Loop → Connection → Connection → Connection
  if_serving serving c d = d
  if_serving (served result) c d = c

  abbrev pub if_writing : WriterTask → Connection → Connection → Connection
  if_writing writing c d = d
  if_writing broken c d = c
  if_writing drained c d = c

  module _ (bytes : BytesApi) (e : Endian) (api : SessionApi) where
    -- A round of `process_requests`, on the pipe.
    unfoldable pub read_turn : Connection → (ℕ → ℕ) → Connection
    read_turn c clock =
        let (p, r) = read_frame pipe c.pipe_state in
        let c' = record c { pipe_state = p } in
        elim r [
          | err x ↦ record c' { loop = served (end_of_reads x) }
          | ok frame ↦
              after_frame c'
                (handle_frame channel api clock frame.frame_type c.manager c.frames frame)
        ]

    -- A round of the writer task.
    unfoldable pub write_turn : Connection → Connection
    write_turn c = elim (recv c.frames) [
      | some (frame, s) ↦ after_writing c s (write_frame pipe bytes e c.pipe_state frame)
      | none ↦
          if is_closed c.loop c.tasks
          then record c { frames = close c.frames; writer = drained }
          else c
    ]

    unfoldable pub turn : Connection → Turn → Connection
    unfolding read_turn write_turn
    turn c (reads clock) = if_serving c.loop c (read_turn c clock)
    turn c (sends frame) =
        if has_task frame.job_id c.tasks
        then record c { frames = send_or_ignore channel c.frames frame }
        else c
    turn c (ends id) = record c { tasks = without_task id c.tasks }
    turn c writes = if_writing c.writer c (write_turn c)
    turn c (calls now call) = record c { manager = step c.manager (now, call) }

    unfoldable pub run_turns : Connection → List Turn → Connection
    unfolding turn
    run_turns c [] = c
    run_turns c (t ∷ ts) = run_turns (turn c t) ts

  abbrev pub returned : Connection → Option (Result (Unit {0}))
  returned c = returned_when c.loop c.writer

  -- How far `handle_client` has come: it returned the error of the negotiation, or the session
  -- runs. `stuck` is a write of the negotiation that runs out of fuel.
  pub data Handling : Type 0 where
    stuck : Handling
    refused : Pipe → Error → Handling
    accepted : Connection → Handling

  module _ (bytes : BytesApi) (e : Endian) (api : SessionApi) (hello_api : HelloApi) where
    -- With the manager and the new channel, after a schedule.
    unfoldable pub handle_client : Pipe → JobManager → Sender → List Turn → Handling
    handle_client p m s ts = elim (negotiate pipe bytes e hello_api p) [
      | none ↦ stuck
      | some (q, err x) ↦ refused q x
      | some (q, ok _) ↦ accepted (run_turns bytes e api (new_connection q m s) ts)
    ]
